-- ===== src/HttpService/Responses.antt =====
-- What a client gets from `processError`: a well-formed response, with headers that carry no line break.
use goapp.Base.{
  ℕ, ℤ, pos, negsuc, ◌≤◌, Bool, true, false, Option, none, some, List, [], ◌∷◌, ◌++◌, ◌&&◌, length,
  drop, ◌≡◌, refl, ap, ◌∙◌, arith, All, All-take, All-drop, All-append, ◌≢◌, if_cases,
}
use goapp.GoRuntime.{returns}
use goapp.Errors.{Failure}
use goapp.HttpService.{
  Service, HttpConfig, Effect, set_header, add_header, write_header, write, constant, number, text,
  json, ErrorResponse,
}
use goapp.HttpService.Text.{substr_rune, header_char, header_replace, slice}
use goapp.HttpService.TextLaws.{
  from_start, to_negative, slice_start, substr_rune-in_range, substr_rune-start,
}
use goapp.HttpService.Errors.{Printing, accepts, is_typed, append_buf, append_bufs, process_error}
use goapp.HttpService.ErrorLaws.{
  logged_header, logged_body, put, cut, header_effects, body_effects_of, body_effects, response_of,
  error_effects, process_error-writes,
}

-- Headers, then one status, then parts of a body.
abbrev pub all_bodies : List Effect → Bool
all_bodies [] = true
all_bodies (write b ∷ es) = all_bodies es
all_bodies (_ ∷ es) = false

abbrev pub is_response : List Effect → Bool
is_response [] = false
is_response (set_header k v ∷ es) = is_response es
is_response (add_header k v ∷ es) = is_response es
is_response (write_header n ∷ es) = all_bodies es
is_response (write b ∷ es) = false

-- The first status that is written.
abbrev pub status_of : List Effect → Option ℕ
status_of [] = none
status_of (write_header n ∷ es) = some n
status_of (_ ∷ es) = status_of es

-- A character that may stand in a header.
abbrev pub Allowed : ℕ → Type 0
Allowed c = (c ≢ 10) × (c ≢ 13) × (c ≢ 0)

abbrev pub limit : ℤ → ℕ
limit (pos n) = n
limit (negsuc n) = 0

abbrev pub SafeText : ℤ → List ℕ → Type 0
SafeText max t = All Allowed t × (length t ≤ limit max)

abbrev pub Safe : ℤ → Effect → Type 0
Safe max (set_header k (text t)) = SafeText max t
Safe max _ = Unit

header_char-Allowed : (c : ℕ) → Allowed (header_char c)
header_char-Allowed c = (
  λ e. absurd (ground (arith, e)),
  λ e. absurd (ground (arith, e)),
  λ e. absurd (ground (arith, e)),
)

header_replace-Allowed : (t : List ℕ) → All Allowed (header_replace t)
header_replace-Allowed [] = tt
header_replace-Allowed (c ∷ t) = (header_char-Allowed c, header_replace-Allowed t)

some_same : (a b : List ℕ) → some a ≡ some b → a ≡ b
some_same a b e = cc

negative_cut : (xs : List ℕ) (n : ℕ) → substr_rune xs (pos 0) (negsuc n) ≡ some []
unfolding substr_rune
negative_cut [] n = refl
negative_cut (x ∷ xs) n = rw (from_start (length (x ∷ xs))) (
    ap (slice (x ∷ xs) (pos 0)) (to_negative (length (x ∷ xs)) n)
    ∙ slice_start (x ∷ xs) 0 (omega arith))

length-cut : (max : ℤ) (t : List ℕ) → length (cut max t) ≤ limit max
length-cut (pos n) t = let (r, e, l, f, g) = substr_rune-start (header_replace t) n in rw e l
length-cut (negsuc n) t = rw (negative_cut (header_replace t) n) (omega arith)

cut-SafeText : (max : ℤ) (t : List ℕ) → SafeText max (cut max t)
cut-SafeText max t = (
  let (a, b, l, k, e) = substr_rune-in_range (header_replace t) (pos 0) max in
      rw e (
        All-take Allowed _ (drop a (header_replace t))
          (All-drop Allowed a (header_replace t) (header_replace-Allowed t))),
  length-cut max t,
)

header_effects-Safe :
    (pr : Printing) (max : ℤ) (err : Failure) → All (Safe max) (header_effects pr max err)
header_effects-Safe pr max err =
    if_cases (All (Safe max)) (is_typed err) _ _
      (λ _. (
        cut-SafeText max (pr.texts err).code,
        (
          cut-SafeText max (pr.texts err).message,
          (
            cut-SafeText max (pr.texts err).cause_message,
            (cut-SafeText max (pr.texts err).trace, tt),
          ),
        ),
      ))
      (λ _. (cut-SafeText max (pr.plain_text err), tt))

header_effects-response :
    (pr : Printing) (max : ℤ) (err : Failure) (es : List Effect)
    → is_response es ≡ true
    → is_response (header_effects pr max err ++ es) ≡ true
header_effects-response pr max err es h =
    if_cases (λ hs. is_response (hs ++ es) ≡ true) (is_typed err) _ _ (λ _. h) (λ _. h)

bodies-Safe :
    (max : ℤ) (r : ErrorResponse) (e : Option Failure) → All (Safe max) (body_effects_of r e)
bodies-Safe max r none = (tt, tt)
bodies-Safe max r (some e) = (tt, (tt, tt))

bodies-all : (r : ErrorResponse) (e : Option Failure) → all_bodies (body_effects_of r e) ≡ true
bodies-all r none = refl
bodies-all r (some e) = refl

logged_body-all :
    (pr : Printing) (cfg : HttpConfig) (err : Failure) (bufs : List (List ℕ))
    → all_bodies (logged_body pr cfg err bufs) ≡ true
logged_body-all pr cfg err bufs =
    if_cases (λ es. all_bodies es ≡ true) cfg.http_error_log_body
      (body_effects pr (cfg.http_error_log_header && is_typed err) err bufs) []
      (λ _. bodies-all (response_of pr (cfg.http_error_log_header && is_typed err) err bufs) _)
      (λ _. refl)

logged_body-Safe :
    (pr : Printing) (cfg : HttpConfig) (err : Failure) (bufs : List (List ℕ)) (max : ℤ)
    → All (Safe max) (logged_body pr cfg err bufs)
logged_body-Safe pr cfg err bufs max =
    if_cases (All (Safe max)) cfg.http_error_log_body
      (body_effects pr (cfg.http_error_log_header && is_typed err) err bufs) []
      (λ _. bodies-Safe max (response_of pr (cfg.http_error_log_header && is_typed err) err bufs) _)
      (λ _. tt)

pub error_effects-response :
    (pr : Printing) (cfg : HttpConfig) (err : Failure) (status id : ℕ) (bufs : List (List ℕ))
    → is_response (error_effects pr cfg err status id bufs) ≡ true
error_effects-response pr cfg err status id bufs =
    if_cases (λ hs. is_response (hs ++ (write_header status ∷ logged_body pr cfg err bufs)) ≡ true)
      cfg.http_error_log_header (header_effects pr cfg.http_header_max_size err) []
      (λ _.
        header_effects-response pr cfg.http_header_max_size err
          (write_header status ∷ logged_body pr cfg err bufs) (logged_body-all pr cfg err bufs))
      (λ _. logged_body-all pr cfg err bufs)

header_effects-status :
    (pr : Printing) (max : ℤ) (err : Failure) (n : ℕ) (es : List Effect)
    → status_of (header_effects pr max err ++ (write_header n ∷ es)) ≡ some n
header_effects-status pr max err n es =
    if_cases (λ hs. status_of (hs ++ (write_header n ∷ es)) ≡ some n) (is_typed err) _ _ (λ _. refl)
      (λ _. refl)

error_effects-status :
    (pr : Printing) (cfg : HttpConfig) (err : Failure) (status id : ℕ) (bufs : List (List ℕ))
    → status_of (error_effects pr cfg err status id bufs) ≡ some status
error_effects-status pr cfg err status id bufs =
    if_cases
      (λ hs. status_of (hs ++ (write_header status ∷ logged_body pr cfg err bufs)) ≡ some status)
      cfg.http_error_log_header (header_effects pr cfg.http_header_max_size err) []
      (λ _. header_effects-status pr cfg.http_header_max_size err status _) (λ _. refl)

error_effects-Safe :
    (pr : Printing) (cfg : HttpConfig) (err : Failure) (status id : ℕ) (bufs : List (List ℕ))
    → All (Safe cfg.http_header_max_size) (error_effects pr cfg err status id bufs)
error_effects-Safe pr cfg err status id bufs = (
  tt,
  (
    tt,
    All-append (Safe cfg.http_header_max_size) (logged_header pr cfg err)
        (write_header status ∷ logged_body pr cfg err bufs)
        (if_cases (All (Safe cfg.http_header_max_size)) cfg.http_error_log_header
          (header_effects pr cfg.http_header_max_size err) []
          (λ _. header_effects-Safe pr cfg.http_header_max_size err) (λ _. tt))
        (tt, logged_body-Safe pr cfg err bufs cfg.http_header_max_size),
  ),
)

accepts_lem : (n : ℕ) → 100 ≤ n → n ≤ 999 → accepts n ≡ true
accepts_lem n low high = ground (arith, low, high)

-- For every error and setting, and every status that net/http accepts, which is one from 100 to 999,
-- `processError` does not panic and writes some headers, then exactly one status, which is the given one,
-- then only parts of the body; and the texts of the error that it puts into headers have no line feed,
-- carriage return or NUL and are not longer than `http_header_max_size` characters, 0 if it is negative.
pub process_error-response :
    (pr : Printing) (err : Failure) (status id : ℕ) (bufs : List (List ℕ)) (s : Service)
    → 100 ≤ status
    → status ≤ 999
    → (es : List Effect) × (process_error pr (some err) status id bufs s ≡ returns tt (put s es))
      × (is_response es ≡ true)
      × (status_of es ≡ some status)
      × All (Safe s.cfg.http_header_max_size) es
process_error-response pr err status id bufs s low high = (
  error_effects pr s.cfg err status id bufs,
  process_error-writes pr err status id bufs s (accepts_lem status low high),
  error_effects-response pr s.cfg err status id bufs,
  error_effects-status pr s.cfg err status id bufs,
  error_effects-Safe pr s.cfg err status id bufs,
)

append_buf-keeps :
    (pr : Printing) (b : List ℕ) (r : ErrorResponse)
    → ((append_buf pr b r).blanked ≡ r.blanked) × ((append_buf pr b r).error ≡ r.error)
append_buf-keeps pr [] r = (refl, refl)
append_buf-keeps pr (b ∷ bs) r =
    if_cases (λ (q : ErrorResponse). (q.blanked ≡ r.blanked) × (q.error ≡ r.error))
      (pr.valid (b ∷ bs)) _ _ (λ _. (refl, refl)) (λ _. (refl, refl))

append_bufs-keeps :
    (pr : Printing) (bufs : List (List ℕ)) (r : ErrorResponse)
    → ((append_bufs pr bufs r).blanked ≡ r.blanked) × ((append_bufs pr bufs r).error ≡ r.error)
append_bufs-keeps pr [] r = (refl, refl)
append_bufs-keeps pr (b ∷ bufs) r =
    let (u, v) = append_buf-keeps pr b r in
    let (x, y) = append_bufs-keeps pr bufs (append_buf pr b r) in (x ∙ u, y ∙ v)

json_body :
    (pr : Printing) (cfg : HttpConfig) (err : Failure) (bufs : List (List ℕ))
    → cfg.http_error_log_body ≡ true
    → pr.marshal_error (response_of pr (cfg.http_error_log_header && is_typed err) err bufs) ≡ none
    → logged_body pr cfg err bufs
      ≡ write (json (response_of pr (cfg.http_error_log_header && is_typed err) err bufs)) ∷ []
json_body pr cfg err bufs b m =
    rw b
      (ap (body_effects_of (response_of pr (cfg.http_error_log_header && is_typed err) err bufs)) m)

and_true : (a b : Bool) → b ≡ true → a && b ≡ a
and_true true b h = h
and_true false b h = refl

-- With errors in the body, JSON that can be made, and a status from 100 to 999, the body that `processError` writes for a `*Error` is
-- the error, without its trace and its arguments exactly if errors go into the headers, too: with
-- `log_error_to_http_header` off, the trace and the arguments are sent to the client.
pub process_error-trace :
    (pr : Printing) (err : Failure) (status id : ℕ) (bufs : List (List ℕ)) (s : Service)
    → 100 ≤ status
    → status ≤ 999
    → is_typed err ≡ true
    → s.cfg.http_error_log_body ≡ true
    → ((r : ErrorResponse) → pr.marshal_error r ≡ none)
    → (hs : List Effect) × (r : ErrorResponse) × (process_error pr (some err) status id bufs s
        ≡ returns tt (put s (hs ++ (write_header status ∷ write (json r) ∷ []))))
      × (r.error ≡ err)
      × (r.blanked ≡ s.cfg.http_error_log_header)
process_error-trace pr err status id bufs s low high t b m = (
  set_header "Content-Type" (constant "application/json; charset=utf-8")
      ∷ set_header "Custom-Request-Id" (number id)
      ∷ logged_header pr s.cfg err,
  response_of pr (s.cfg.http_error_log_header && is_typed err) err bufs,
  process_error-writes pr err status id bufs s (accepts_lem status low high)
      ∙ ap
          (λ l. returns tt (
            put s (
              set_header "Content-Type" (constant "application/json; charset=utf-8")
              ∷ set_header "Custom-Request-Id" (number id)
              ∷ (logged_header pr s.cfg err ++ (write_header status ∷ l)))))
          (json_body pr s.cfg err bufs b (m _)),
  (append_bufs-keeps pr bufs _).1,
  (append_bufs-keeps pr bufs _).0 ∙ and_true s.cfg.http_error_log_header (is_typed err) t,
)
