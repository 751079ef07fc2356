-- ===== src/HttpService/Replies.antt =====
-- What the errors and the replies of `Process` write to the client, and the shape of it.
use mathlib.Core.List.{append_assoc}
use goapp.Base.{
  ℕ, Bool, true, false, none, List, [], ◌∷◌, ◌++◌, String, if◌then◌else◌, ◌≡◌, refl, sym, ap, ◌∙◌,
  if_cases, Bool-cases, inl, inr,
}
use goapp.GoRuntime.{Out, returns, panics, blocks, raised, ◌>>◌}
use goapp.Errors.{Failure}
use goapp.HttpAuth.{Claims, Parsed, Signed}
use goapp.HttpAuth.Handlers.{Directory}
use goapp.HttpService.{
  Service, HttpConfig, Reply, Effect, set_header, add_header, write_header, write, HeaderValue,
  constant, bytes,
}
use goapp.HttpService.Errors.{Printing, send, accepts, send_status, is_typed}
use goapp.HttpService.ErrorLaws.{
  put, put_nothing, then_writes, if-writes, process_error-writes, process_error-panics,
  error_effects, headers_of, send_status-writes, send_status-panics, then_panics, panics_then,
  header_effects,
}
use goapp.HttpService.Responses.{is_response, all_bodies, error_effects-response}
use goapp.HttpService.Process.{
  fail, bytes_of, set_headers, or_nil, hsts, write_failed, write_body, write_reply,
}

-- A statement that comes back, and has added a whole response to what was written before.
abbrev pub Responded : {A : Type 0} → List Effect → Out Service A → Type 0
Responded l (returns a t) = (es : List Effect) × (t.sent ≡ l ++ es) × (is_response es ≡ true)
Responded l (panics p t) = ⊥
Responded l (blocks t) = ⊥

abbrev pub is_headers : List Effect → Bool
is_headers [] = true
is_headers (set_header k v ∷ es) = is_headers es
is_headers (add_header k v ∷ es) = is_headers es
is_headers (_ ∷ es) = false

-- The same, or a panic before more than headers was written.
abbrev pub Answered : {A : Type 0} → List Effect → Out Service A → Type 0
Answered l (returns a t) = (es : List Effect) × (t.sent ≡ l ++ es) × (is_response es ≡ true)
Answered l (panics p t) = (es : List Effect) × (t.sent ≡ l ++ es) × (is_headers es ≡ true)
Answered l (blocks t) = ⊥

pub headers-response :
    (es fs : List Effect)
    → is_headers es ≡ true
    → is_response fs ≡ true
    → is_response (es ++ fs) ≡ true
headers-response [] fs h r = r
headers-response (set_header k v ∷ es) fs h r = headers-response es fs h r
headers-response (add_header k v ∷ es) fs h r = headers-response es fs h r
headers-response (write_header n ∷ es) fs h r = cc
headers-response (write b ∷ es) fs h r = cc

headers_of-headers :
    (pr : Printing) (cfg : HttpConfig) (err : Failure) (id : ℕ)
    → is_headers (headers_of pr cfg err id) ≡ true
headers_of-headers pr cfg err id =
    if_cases (λ es. is_headers es ≡ true) cfg.http_error_log_header
      (header_effects pr cfg.http_header_max_size err) []
      (λ _. if_cases (λ es. is_headers es ≡ true) (is_typed err) _ _ (λ _. refl) (λ _. refl))
      (λ _. refl)

module _ {Token : Type 0} (parse : ℕ → Token → String → Parsed)
    (sign : Claims → String → Signed Token) (authenticate : String → String → Directory)
    (pr : Printing) where
  pub fail-Answered :
      (l : List Effect) (id st : ℕ) (e : Failure) (bufs : List (List ℕ)) (s : Service)
      → s.sent ≡ l
      → Answered l (fail parse sign authenticate pr id st e bufs s)
  unfolding fail
  fail-Answered l id st e bufs s h = elim (Bool-cases (accepts st)) [
    | inl a ↦ rw (process_error-writes pr e st id bufs s a) (
      error_effects pr s.cfg e st id bufs,
      ap (λ x. x ++ error_effects pr s.cfg e st id bufs) h,
      error_effects-response pr s.cfg e st id bufs,
    )
    | inr f ↦ rw (process_error-panics pr e st id bufs s f) (
      headers_of pr s.cfg e id,
      ap (λ x. x ++ headers_of pr s.cfg e id) h,
      headers_of-headers pr s.cfg e id,
    )
  ]

  abbrev header_list : List (String × HeaderValue) → List Effect
  header_list [] = []
  header_list ((k, v) ∷ hs) = set_header k v ∷ header_list hs

  set_headers-writes :
      (hs : List (String × HeaderValue)) (s : Service)
      → set_headers parse sign authenticate pr hs s ≡ returns tt (put s (header_list hs))
  set_headers-writes [] s = ap (returns tt) (sym (put_nothing s))
  set_headers-writes ((k, v) ∷ hs) s =
      then_writes (send (set_header k v) s) (set_headers parse sign authenticate pr hs) tt s _ _
        refl (set_headers-writes hs _)

  header_list-response :
      (hs : List (String × HeaderValue)) (es : List Effect)
      → is_response es ≡ true
      → is_response (header_list hs ++ es) ≡ true
  header_list-response [] es h = h
  header_list-response ((k, v) ∷ hs) es h = header_list-response hs es h

  header_list-headers :
      (hs : List (String × HeaderValue)) (es : List Effect)
      → is_headers es ≡ true
      → is_headers (header_list hs ++ es) ≡ true
  header_list-headers [] es h = h
  header_list-headers ((k, v) ∷ hs) es h = header_list-headers hs es h

  abbrev body_list : List ℕ → List Effect
  body_list [] = []
  body_list (b ∷ bs) = write (bytes (b ∷ bs)) ∷ []

  body_list-all : (bs : List ℕ) → all_bodies (body_list bs) ≡ true
  body_list-all [] = refl
  body_list-all (b ∷ bs) = refl

  write_body-writes :
      (id : ℕ) (bs : List ℕ) (s : Service)
      → write_body parse sign authenticate pr id none bs s ≡ returns none (put s (body_list bs))
  unfolding write_body write_failed
  write_body-writes id [] s = ap (returns none) (sym (put_nothing s))
  write_body-writes id (b ∷ bs) s = refl

  abbrev hsts_list : Bool → List Effect
  hsts_list b =
      if b
      then add_header "Strict-Transport-Security" (constant "max-age=63072000; includeSubDomains")
        ∷ []
      else []

  abbrev reply_effects : Bool → Reply → List Effect
  reply_effects b reply =
      ((header_list (or_nil parse sign authenticate pr reply.header) ++ hsts_list b)
        ++ (write_header reply.status ∷ []))
      ++ body_list (bytes_of parse sign authenticate pr reply.response_buf)

  reply_headers-writes :
      (reply : Reply) (s : Service)
      → (set_headers parse sign authenticate pr (or_nil parse sign authenticate pr reply.header)
            >> hsts parse sign authenticate pr)
          s
        ≡ returns tt (
            put s (
              header_list (or_nil parse sign authenticate pr reply.header)
              ++ hsts_list s.cfg.use_hsts))
  reply_headers-writes reply s =
      then_writes _ (hsts parse sign authenticate pr) tt s _ _
        (set_headers-writes (or_nil parse sign authenticate pr reply.header) s)
        (if-writes s.cfg.use_hsts
          (send (
            add_header "Strict-Transport-Security"
              (constant "max-age=63072000; includeSubDomains")))
          _ _ refl)

  write_reply-panics :
      (id : ℕ) (reply : Reply) (s : Service)
      → accepts reply.status ≡ false
      → write_reply parse sign authenticate pr id none reply s
        ≡ panics (raised false 0) (
            put s (
              header_list (or_nil parse sign authenticate pr reply.header)
              ++ hsts_list s.cfg.use_hsts))
  unfolding write_reply
  write_reply-panics id reply s a =
      panics_then _
        (write_body parse sign authenticate pr id none
          (bytes_of parse sign authenticate pr reply.response_buf))
        _ _
        (then_panics _ (send_status reply.status) _ _ (reply_headers-writes reply s)
          (send_status-panics reply.status _ a))

  write_reply-writes :
      (id : ℕ) (reply : Reply) (s : Service)
      → accepts reply.status ≡ true
      → write_reply parse sign authenticate pr id none reply s
        ≡ returns none (put s (reply_effects s.cfg.use_hsts reply))
  unfolding write_reply
  write_reply-writes id reply s a =
      then_writes _
        (write_body parse sign authenticate pr id none
          (bytes_of parse sign authenticate pr reply.response_buf))
        none s _ _
        (then_writes _ (send_status reply.status) tt s _ _ (reply_headers-writes reply s)
          (send_status-writes reply.status _ a))
        (write_body-writes id _ _)

  reply_effects-response : (b : Bool) (reply : Reply) → is_response (reply_effects b reply) ≡ true
  reply_effects-response b reply =
      let hs = header_list (or_nil parse sign authenticate pr reply.header) in
      let bs = body_list (bytes_of parse sign authenticate pr reply.response_buf) in
      ap is_response (
        append_assoc (hs ++ hsts_list b) (write_header reply.status ∷ []) bs
        ∙ append_assoc hs (hsts_list b) (write_header reply.status ∷ bs))
      ∙ header_list-response (or_nil parse sign authenticate pr reply.header)
          (hsts_list b ++ (write_header reply.status ∷ bs))
          (if_cases (λ es. is_response (es ++ (write_header reply.status ∷ bs)) ≡ true) b _ _
            (λ _. body_list-all (bytes_of parse sign authenticate pr reply.response_buf))
            (λ _. body_list-all (bytes_of parse sign authenticate pr reply.response_buf)))

  reply_headers-headers :
      (b : Bool) (reply : Reply)
      → is_headers (header_list (or_nil parse sign authenticate pr reply.header) ++ hsts_list b)
        ≡ true
  reply_headers-headers b reply =
      header_list-headers (or_nil parse sign authenticate pr reply.header) (hsts_list b)
        (if_cases (λ es. is_headers es ≡ true) b _ _ (λ _. refl) (λ _. refl))

  pub write_reply-Answered :
      (l : List Effect) (id : ℕ) (reply : Reply) (s : Service)
      → s.sent ≡ l
      → Answered l (write_reply parse sign authenticate pr id none reply s)
  write_reply-Answered l id reply s h = elim (Bool-cases (accepts reply.status)) [
    | inl a ↦ rw (write_reply-writes id reply s a) (
      reply_effects s.cfg.use_hsts reply,
      ap (λ x. x ++ reply_effects s.cfg.use_hsts reply) h,
      reply_effects-response s.cfg.use_hsts reply,
    )
    | inr f ↦ rw (write_reply-panics id reply s f) (
      _,
      ap
          (λ x.
            x
            ++ (header_list (or_nil parse sign authenticate pr reply.header)
                ++ hsts_list s.cfg.use_hsts))
          h,
      reply_headers-headers s.cfg.use_hsts reply,
    )
  ]
