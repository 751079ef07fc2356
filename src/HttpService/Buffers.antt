-- ===== src/HttpService/Buffers.antt =====
-- The buffers that the service keeps: none is smaller than the size of the pool, and none larger than the
-- configured maximum, whatever the handlers answer.
use goapp.Base.{
  ℕ, ◌≤◌, Bool, true, false, Option, none, some, List, [], ◌∷◌, String, ◌&&◌, not, is_some, ◌≡◌,
  subst, sym, arith, if_cases, Bool-cases, inl, inr,
}
use goapp.GoRuntime.{
  Out, returns, Keeps-then, after_out, state_of, Keeps, Keeps-bind, Keeps-after, ◌>>◌,
}
use goapp.Errors.{Failure, Result, ok, failed}
use goapp.HttpAuth.{Claims, Parsed, Signed}
use goapp.HttpAuth.Handlers.{Directory}
use goapp.BytesPool.{Buffer, BytesPool}
use goapp.BytesPool.Sizes.{InBounds, get_buf-Fits, put_buf-InBounds}
use goapp.HttpService.{Service, HttpConfig, Reply, HeaderValue}
use goapp.HttpService.Errors.{Printing, accepts, send_status}
use goapp.HttpService.ErrorLaws.{
  process_error-writes, process_error-panics, send_status-writes, send_status-panics,
}
use goapp.HttpService.Process.{
  Request, Fn, fail, pooled_buf, taken, bytes_of, bufs_of, set_headers, or_nil, hsts, write_failed,
  write_body, write_reply, put_back, put_in, fits, respond, replied, after_read, after_checks,
  process,
}

abbrev pub PoolIn : ℕ → Option BytesPool → Type 0
PoolIn max none = Unit
PoolIn max (some p) = (p.pooled_size ≤ max) × InBounds max p

-- A service with this maximum, whose pool keeps to it.
abbrev pub SameSizes : ℕ → Service → Type 0
SameSizes max s = (s.cfg.buf_pooled_max_size ≡ max) × PoolIn max s.bytes_pool

module _ {Token : Type 0} (parse : ℕ → Token → String → Parsed)
    (sign : Claims → String → Signed Token) (authenticate : String → String → Directory)
    (pr : Printing) (max : ℕ) where
  fail-Keeps :
      (id st : ℕ) (e : Failure) (bufs : List (List ℕ))
      → Keeps (SameSizes max) (fail parse sign authenticate pr id st e bufs)
  unfolding fail
  fail-Keeps id st e bufs s h = elim (Bool-cases (accepts st)) [
    | inl a ↦ rw (process_error-writes pr e st id bufs s a) h
    | inr f ↦ rw (process_error-panics pr e st id bufs s f) h
  ]

  send_status-Keeps : (n : ℕ) → Keeps (SameSizes max) (send_status n)
  send_status-Keeps n s h = elim (Bool-cases (accepts n)) [
    | inl a ↦ rw (send_status-writes n s a) h
    | inr f ↦ rw (send_status-panics n s f) h
  ]

  set_headers-Keeps :
      (hs : List (String × HeaderValue))
      → Keeps (SameSizes max) (set_headers parse sign authenticate pr hs)
  set_headers-Keeps [] s h = h
  set_headers-Keeps ((k, v) ∷ hs) s h = set_headers-Keeps hs _ h

  hsts-Keeps : Keeps (SameSizes max) (hsts parse sign authenticate pr)
  hsts-Keeps s h =
      if_cases (λ (o : Out Service (Unit {0})). SameSizes max (state_of o)) s.cfg.use_hsts _ _
        (λ _. h) (λ _. h)

  write_body-Keeps :
      (id : ℕ) (we : Option Failure) (bs : List ℕ)
      → Keeps (SameSizes max) (write_body parse sign authenticate pr id we bs)
  unfolding write_body write_failed
  write_body-Keeps id we [] s h = h
  write_body-Keeps id none (b ∷ bs) s h = h
  write_body-Keeps id (some e) (b ∷ bs) s h = fail-Keeps id 500 _ [] _ h

  write_reply-Keeps :
      (id : ℕ) (we : Option Failure) (reply : Reply)
      → Keeps (SameSizes max) (write_reply parse sign authenticate pr id we reply)
  unfolding write_reply
  write_reply-Keeps id we reply =
      let hs =
        set_headers parse sign authenticate pr (or_nil parse sign authenticate pr reply.header) in
      let sts = hsts parse sign authenticate pr in
      let st = send_status reply.status in
      let body =
        write_body parse sign authenticate pr id we
          (bytes_of parse sign authenticate pr reply.response_buf) in
      Keeps-then (SameSizes max) (hs >> sts >> st) body
        (Keeps-then (SameSizes max) (hs >> sts) st
          (Keeps-then (SameSizes max) hs sts
            (set_headers-Keeps (or_nil parse sign authenticate pr reply.header)) hsts-Keeps)
          (send_status-Keeps reply.status))
        (write_body-Keeps id we (bytes_of parse sign authenticate pr reply.response_buf))

  put_in-PoolIn :
      (b : Buffer) (o : Option BytesPool)
      → b.cap ≤ max
      → PoolIn max o
      → PoolIn max (put_in parse sign authenticate pr b o)
  put_in-PoolIn b none l h = tt
  put_in-PoolIn b (some p) l h =
      let (i, e) = put_buf-InBounds max b p l h.1 in (subst (λ n. n ≤ max) (sym e) h.0, i)

  fits_max :
      (cfg : HttpConfig) (b : Buffer)
      → fits parse sign authenticate pr cfg b ≡ true
      → b.cap ≤ cfg.buf_pooled_max_size
  fits_max cfg b e = ground (arith, e)

  last_true : (a b : Bool) → a && b ≡ true → b ≡ true
  last_true true b e = e
  last_true false b e = cc

  put_back-Keeps :
      (b : Buffer) → b.cap ≤ max → Keeps (SameSizes max) (put_back parse sign authenticate pr b)
  put_back-Keeps b l s h = (h.0, put_in-PoolIn b s.bytes_pool l h.1)

  respond-Keeps :
      (ignore : Bool) (id : ℕ) (we : Option Failure) (ob buf : Option Buffer) (reply : Reply)
      → Keeps (SameSizes max) (respond parse sign authenticate pr ignore id we ob buf reply)
  unfolding respond
  respond-Keeps ignore id we none buf reply s h = write_reply-Keeps id we reply s h
  respond-Keeps ignore id we (some b) buf reply s h =
      if_cases (λ (o : Out Service (Option Failure)). SameSizes max (state_of o))
        (not ignore
          && is_some buf
          && s.cfg.use_buf_pool
          && is_some s.bytes_pool
          && fits parse sign authenticate pr s.cfg b)
        (after_out (write_reply parse sign authenticate pr id we reply s)
          (put_back parse sign authenticate pr b))
        (write_reply parse sign authenticate pr id we reply s)
        (λ e.
          Keeps-after (SameSizes max) (write_reply parse sign authenticate pr id we reply s)
            (put_back parse sign authenticate pr b) (write_reply-Keeps id we reply s h)
            (put_back-Keeps b (subst (λ n. b.cap ≤ n) h.0 (fits_max s.cfg b (last_true _ _ e)))))
        (λ _. write_reply-Keeps id we reply s h)

  replied-Keeps :
      (ignore : Bool) (id : ℕ) (we : Option Failure) (buf : Option Buffer) (e : Option Failure)
      → (reply : Reply)
      → Keeps (SameSizes max) (replied parse sign authenticate pr ignore id we buf e reply)
  unfolding replied
  replied-Keeps ignore id we buf (some e) reply =
      fail-Keeps id reply.status e (bufs_of parse sign authenticate pr reply.response_buf)
  replied-Keeps ignore id we buf none reply =
      respond-Keeps ignore id we reply.response_buf buf reply

  taken-Keeps :
      (pick : Option ℕ) (o : Option BytesPool) (s : Service)
      → SameSizes max s
      → PoolIn max o
      → SameSizes max (state_of (taken parse sign authenticate pr pick o s))
  taken-Keeps pick none s h k = h
  taken-Keeps pick (some p) s h k =
      let (l, u, i, e) = get_buf-Fits max pick p k.0 k.1 in
      (h.0, (subst (λ n. n ≤ max) (sym e) k.0, i))

  pooled_buf-Keeps :
      (ignore : Bool) (pick : Option ℕ)
      → Keeps (SameSizes max) (pooled_buf parse sign authenticate pr ignore pick)
  unfolding pooled_buf
  pooled_buf-Keeps ignore pick s h =
      if_cases (λ (o : Out Service (Option Buffer)). SameSizes max (state_of o))
        (not ignore && s.cfg.use_buf_pool) (taken parse sign authenticate pr pick s.bytes_pool s)
        (returns none s) (λ _. taken-Keeps pick s.bytes_pool s h h.1) (λ _. h)

  after_read-Keeps :
      (ignore : Bool) (id : ℕ) (r : Request Token) (fn : Fn) (body : Result Buffer)
      → ((n : ℕ) (b : Buffer) (buf : Option Buffer) → Keeps (SameSizes max) (fn n b buf))
      → Keeps (SameSizes max) (after_read parse sign authenticate pr ignore id r fn body)
  unfolding after_read
  after_read-Keeps ignore id r fn (failed e) k = fail-Keeps id 500 _ []
  after_read-Keeps ignore id r fn (ok body) k = λ s h.
      Keeps-bind (SameSizes max) (pooled_buf parse sign authenticate pr ignore r.pick s) _
        (pooled_buf-Keeps ignore r.pick s h)
        (λ buf t i.
          Keeps-bind (SameSizes max) (fn id body buf t) _ (k id body buf t i)
            (λ reply. replied-Keeps ignore id r.write_error buf reply.err reply))

  after_checks-Keeps :
      (ignore : Bool) (id : ℕ) (r : Request Token) (fn : Fn) (o : Option (ℕ × Failure))
      → ((n : ℕ) (b : Buffer) (buf : Option Buffer) → Keeps (SameSizes max) (fn n b buf))
      → Keeps (SameSizes max) (after_checks parse sign authenticate pr ignore id r fn o)
  unfolding after_checks
  after_checks-Keeps ignore id r fn (some (st, e)) k = fail-Keeps id st e []
  after_checks-Keeps ignore id r fn none k = after_read-Keeps ignore id r fn r.body k

  -- A request keeps the pool of buffers within its sizes, however it ends and whatever buffer the handler
  -- answers with: if no cached buffer is smaller than the size of the pool or larger than
  -- `buf_pooled_max_size`, and the function of the handler keeps to that, this holds again behind
  -- `Process`.
  pub process-Keeps :
      (ignore : Bool) (allowed : String) (now : ℕ) (r : Request Token) (fn : Fn)
      → ((n : ℕ) (b : Buffer) (buf : Option Buffer) → Keeps (SameSizes max) (fn n b buf))
      → Keeps (SameSizes max) (process parse sign authenticate pr ignore allowed now r fn)
  unfolding process
  process-Keeps ignore allowed now r fn k s h = after_checks-Keeps ignore _ r fn _ k _ h
