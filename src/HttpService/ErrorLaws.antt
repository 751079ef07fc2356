-- ===== src/HttpService/ErrorLaws.antt =====
-- What `processError` writes: its headers, one status, and its body.
use mathlib.Core.List.{append_assoc, append-nil}
use goapp.Base.{
  ℕ, ℤ, pos, Bool, true, false, Option, none, some, List, [], ◌∷◌, ◌++◌, String, ◌&&◌,
  if◌then◌else◌, ◌≡◌, refl, sym, ap, ◌∙◌, Bool-cases, inl, inr,
}
use goapp.GoRuntime.{M, Out, returns, panics, Panic, raised, bind, ◌>>◌}
use goapp.Errors.{Failure}
use goapp.HttpService.{
  Service, HttpConfig, Effect, set_header, write_header, write, constant, number, text, json,
  error_line, ErrorResponse,
}
use goapp.HttpService.Text.{substr_rune, header_replace}
use goapp.HttpService.TextLaws.{substr_rune-in_range}
use goapp.HttpService.Errors.{
  Printing, ErrorTexts, send, accepts, send_status, is_typed, set_text, set_cut, typed_headers,
  error_headers, append_bufs, written, error_body, log_header, log_body, process_error,
}

-- The service after some calls on the writer.
abbrev pub put : Service → List Effect → Service
put s es = record s { sent = s.sent ++ es }

pub put-put : (s : Service) (es fs : List Effect) → put (put s es) fs ≡ put s (es ++ fs)
put-put s es fs = ap (λ l. record s { sent = l }) (append_assoc s.sent es fs)

-- Two statements that write, one behind the other.
pub then_writes :
    {A : Type 0} (o : Out Service (Unit {0})) (k : M Service A) (a : A) (s : Service)
    (es fs : List Effect)
    → o ≡ returns tt (put s es)
    → k (put s es) ≡ returns a (put (put s es) fs)
    → bind o (λ _. k) ≡ returns a (put s (es ++ fs))
then_writes o k a s es fs e f = rw e (f ∙ ap (returns a) (put-put s es fs))

abbrev pub or_empty : Option (List ℕ) → List ℕ
or_empty none = []
or_empty (some t) = t

abbrev pub cut : ℤ → List ℕ → List ℕ
cut max t = or_empty (substr_rune (header_replace t) (pos 0) max)

set_text-writes :
    (key : String) (max : ℤ) (t : List ℕ) (s : Service)
    → set_text key max t s ≡ returns tt (put s (set_header key (text (cut max t)) ∷ []))
unfolding set_text set_cut
set_text-writes key max t s =
    let (a, b, l, k, e) = substr_rune-in_range (header_replace t) (pos 0) max in rw e refl

abbrev pub header_effects : Printing → ℤ → Failure → List Effect
header_effects pr max err =
    if is_typed err
    then (set_header "Custom-Err-Code" (text (cut max (pr.texts err).code))
        ∷ set_header "Custom-Err-Message" (text (cut max (pr.texts err).message))
        ∷ set_header "Custom-Err-Cause-Message" (text (cut max (pr.texts err).cause_message))
        ∷ set_header "Custom-Err-Trace" (text (cut max (pr.texts err).trace))
        ∷ [])
    else (set_header "Custom-Err-Message" (text (cut max (pr.plain_text err))) ∷ [])

typed_headers-writes :
    (max : ℤ) (t : ErrorTexts) (s : Service)
    → typed_headers max t s
      ≡ returns tt (
          put s (
            set_header "Custom-Err-Code" (text (cut max t.code))
            ∷ set_header "Custom-Err-Message" (text (cut max t.message))
            ∷ set_header "Custom-Err-Cause-Message" (text (cut max t.cause_message))
            ∷ set_header "Custom-Err-Trace" (text (cut max t.trace))
            ∷ []))
unfolding typed_headers
typed_headers-writes max t s =
    then_writes _ (set_text "Custom-Err-Trace" max t.trace) tt s _ _
      (then_writes _ (set_text "Custom-Err-Cause-Message" max t.cause_message) tt s _ _
        (then_writes (set_text "Custom-Err-Code" max t.code s)
          (set_text "Custom-Err-Message" max t.message) tt s _ _
          (set_text-writes "Custom-Err-Code" max t.code s)
          (set_text-writes "Custom-Err-Message" max t.message _))
        (set_text-writes "Custom-Err-Cause-Message" max t.cause_message _))
      (set_text-writes "Custom-Err-Trace" max t.trace _)

error_headers-writes :
    (pr : Printing) (max : ℤ) (err : Failure) (s : Service)
    → error_headers pr max err s ≡ returns tt (put s (header_effects pr max err))
unfolding error_headers
error_headers-writes pr max err s = elim (Bool-cases (is_typed err)) [
  | inl t ↦ rw t (typed_headers-writes max (pr.texts err) s)
  | inr f ↦ rw f (set_text-writes "Custom-Err-Message" max (pr.plain_text err) s)
]

abbrev pub body_effects_of : ErrorResponse → Option Failure → List Effect
body_effects_of r none = write (json r) ∷ []
body_effects_of r (some e) = write (error_line e) ∷ write (error_line r.error) ∷ []

abbrev pub response_of : Printing → Bool → Failure → List (List ℕ) → ErrorResponse
response_of pr is_my_err err bufs =
    append_bufs pr bufs
      (record { error = err; blanked = is_my_err; response_json = []; response_str = [] })

abbrev pub body_effects : Printing → Bool → Failure → List (List ℕ) → List Effect
body_effects pr is_my_err err bufs =
    body_effects_of (response_of pr is_my_err err bufs)
      (pr.marshal_error (response_of pr is_my_err err bufs))

written-writes :
    (r : ErrorResponse) (e : Option Failure) (s : Service)
    → written r e s ≡ returns tt (put s (body_effects_of r e))
unfolding written
written-writes r none s = refl
written-writes r (some e) s =
    then_writes (send (write (error_line e)) s) (send (write (error_line r.error))) tt s _ _ refl
      refl

abbrev pub logged_header : Printing → HttpConfig → Failure → List Effect
logged_header pr cfg err =
    if cfg.http_error_log_header then header_effects pr cfg.http_header_max_size err else []

abbrev pub logged_body : Printing → HttpConfig → Failure → List (List ℕ) → List Effect
logged_body pr cfg err bufs =
    if cfg.http_error_log_body
    then body_effects pr (cfg.http_error_log_header && is_typed err) err bufs
    else []

-- All that `processError` writes for an error.
abbrev pub error_effects : Printing → HttpConfig → Failure → ℕ → ℕ → List (List ℕ) → List Effect
error_effects pr cfg err status request_id bufs =
    set_header "Content-Type" (constant "application/json; charset=utf-8")
    ∷ set_header "Custom-Request-Id" (number request_id)
    ∷ (logged_header pr cfg err ++ (write_header status ∷ logged_body pr cfg err bufs))

pub put_nothing : (s : Service) → put s [] ≡ s
put_nothing s = ap (λ l. record s { sent = l }) (append-nil s.sent)

pub if-writes :
    (b : Bool) (m : M Service (Unit {0})) (s : Service) (es : List Effect)
    → m s ≡ returns tt (put s es)
    → (if b then m s else returns tt s) ≡ returns tt (put s (if b then es else []))
if-writes true m s es e = e
if-writes false m s es e = ap (returns tt) (sym (put_nothing s))

error_body-writes :
    (pr : Printing) (is_my_err : Bool) (err : Failure) (bufs : List (List ℕ)) (s : Service)
    → error_body pr is_my_err err bufs s ≡ returns tt (put s (body_effects pr is_my_err err bufs))
unfolding error_body
error_body-writes pr is_my_err err bufs s = written-writes (response_of pr is_my_err err bufs) _ s

pub send_status-writes :
    (status : ℕ) (s : Service)
    → accepts status ≡ true
    → send_status status s ≡ returns tt (put s (write_header status ∷ []))
unfolding send_status
send_status-writes status s a = rw a refl

pub send_status-panics :
    (status : ℕ) (s : Service)
    → accepts status ≡ false
    → send_status status s ≡ panics (raised false 0) s
unfolding send_status
send_status-panics status s a = rw a refl

-- A statement that writes, and one behind it that panics.
pub then_panics :
    {A : Type 0} (o : Out Service (Unit {0})) (k : M Service A) (p : Panic) (t : Service)
    → o ≡ returns tt t
    → k t ≡ panics p t
    → bind o (λ _. k) ≡ panics p t
then_panics o k p t e f = rw e f

pub panics_then :
    {A : Type 0} (o : Out Service (Unit {0})) (k : M Service A) (p : Panic) (t : Service)
    → o ≡ panics p t
    → bind o (λ _. k) ≡ panics p t
panics_then o k p t e = rw e refl

-- The headers that `processError` writes for an error.
abbrev pub headers_of : Printing → HttpConfig → Failure → ℕ → List Effect
headers_of pr cfg err request_id =
    set_header "Content-Type" (constant "application/json; charset=utf-8")
    ∷ set_header "Custom-Request-Id" (number request_id)
    ∷ logged_header pr cfg err

headers-writes :
    (pr : Printing) (err : Failure) (request_id : ℕ) (s : Service)
    → ((send (set_header "Content-Type" (constant "application/json; charset=utf-8"))
          >> send (set_header "Custom-Request-Id" (number request_id))
          >> log_header pr err)
        s)
      ≡ returns tt (put s (headers_of pr s.cfg err request_id))
headers-writes pr err request_id s =
    then_writes _ (log_header pr err) tt s _ _
      (then_writes (send (set_header "Content-Type" (constant "application/json; charset=utf-8")) s)
        (send (set_header "Custom-Request-Id" (number request_id))) tt s _ _ refl refl)
      (if-writes s.cfg.http_error_log_header (error_headers pr s.cfg.http_header_max_size err) _ _
        (error_headers-writes pr s.cfg.http_header_max_size err _))

pub process_error-panics :
    (pr : Printing) (err : Failure) (status request_id : ℕ) (bufs : List (List ℕ)) (s : Service)
    → accepts status ≡ false
    → process_error pr (some err) status request_id bufs s
      ≡ panics (raised false 0) (put s (headers_of pr s.cfg err request_id))
unfolding process_error
process_error-panics pr err status request_id bufs s a = panics_then _ (log_body pr err bufs) _ _ (
    then_panics _ (send_status status) _ _ (headers-writes pr err request_id s)
      (send_status-panics status _ a))

pub process_error-writes :
    (pr : Printing) (err : Failure) (status request_id : ℕ) (bufs : List (List ℕ)) (s : Service)
    → accepts status ≡ true
    → process_error pr (some err) status request_id bufs s
      ≡ returns tt (put s (error_effects pr s.cfg err status request_id bufs))
unfolding process_error
process_error-writes pr err status request_id bufs s a =
    then_writes _ (log_body pr err bufs) tt s _ _
      (then_writes _ (send_status status) tt s _ _ (headers-writes pr err request_id s)
        (send_status-writes status _ a))
      (if-writes s.cfg.http_error_log_body
        (error_body pr (s.cfg.http_error_log_header && is_typed err) err bufs) _ _
        (error_body-writes pr (s.cfg.http_error_log_header && is_typed err) err bufs _))
    ∙ ap
        (λ l. returns tt (
          put s (
            set_header "Content-Type" (constant "application/json; charset=utf-8")
            ∷ set_header "Custom-Request-Id" (number request_id)
            ∷ l)))
        (append_assoc
          (if s.cfg.http_error_log_header
            then header_effects pr s.cfg.http_header_max_size err
            else [])
          (write_header status ∷ []) _)
