-- ===== src/HttpService/Answers.antt =====
-- What a client gets for a request.
use mathlib.Core.List.{append_assoc, append-nil}
use goapp.Base.{
  ℕ, ◌+◌, ◌%◌, ◌^◌, Bool, false, Option, none, some, List, [], ◌++◌, String, ◌&&◌, not, is_some,
  ◌≡◌, refl, sym, ap, ◌∙◌, if_cases,
}
use goapp.GoRuntime.{
  Out, returns, panics, blocks, bind, skip, catch_out, after_out, state_of, does_block,
}
use goapp.Errors.{Failure, Result, ok, failed, get_recover_error}
use goapp.HttpAuth.{Claims, Parsed, Signed}
use goapp.HttpAuth.Handlers.{Directory}
use goapp.BytesPool.{Buffer, BytesPool, get_buf}
use goapp.HttpService.{Service, Reply, Effect}
use goapp.HttpService.Errors.{Printing, recovered, recover_wrap}
use goapp.HttpService.ErrorLaws.{process_error-writes, error_effects}
use goapp.HttpService.Responses.{error_effects-response}
use goapp.HttpService.Process.{
  Request, Fn, pooled_buf, taken, bufs_of, write_reply, put_back, fits, respond, replied,
  after_read, after_checks, process,
}
use goapp.HttpService.Replies.{
  Responded, Answered, headers-response, fail-Answered, write_reply-Answered,
}

-- A function of a handler that comes back or panics, and does not write to the client itself.
abbrev pub Silent : Fn → Type 0
Silent fn =
    (id : ℕ) (body : Buffer) (buf : Option Buffer) (s : Service)
    → (does_block (fn id body buf s) ≡ false) × ((state_of (fn id body buf s)).sent ≡ s.sent)

module _ {Token : Type 0} (parse : ℕ → Token → String → Parsed)
    (sign : Claims → String → Signed Token) (authenticate : String → String → Directory)
    (pr : Printing) where
  deferred-Answered :
      (l : List Effect) (b : Buffer) (o : Out Service (Option Failure))
      → Answered l o
      → Answered l (after_out o (put_back parse sign authenticate pr b))
  deferred-Answered l b (returns a t) h = h
  deferred-Answered l b (panics p t) h = h
  deferred-Answered l b (blocks t) h = absurd h

  respond-Answered :
      (l : List Effect) (ignore : Bool) (id : ℕ) (ob buf : Option Buffer) (reply : Reply)
      (s : Service)
      → s.sent ≡ l
      → Answered l (respond parse sign authenticate pr ignore id none ob buf reply s)
  unfolding respond
  respond-Answered l ignore id none buf reply s h =
      write_reply-Answered parse sign authenticate pr l id reply s h
  respond-Answered l ignore id (some b) buf reply s h =
      if_cases (λ (o : Out Service (Option Failure)). Answered l o)
        (not ignore
          && is_some buf
          && s.cfg.use_buf_pool
          && is_some s.bytes_pool
          && fits parse sign authenticate pr s.cfg b)
        (after_out (write_reply parse sign authenticate pr id none reply s)
          (put_back parse sign authenticate pr b))
        (write_reply parse sign authenticate pr id none reply s)
        (λ _.
          deferred-Answered l b _ (write_reply-Answered parse sign authenticate pr l id reply s h))
        (λ _. write_reply-Answered parse sign authenticate pr l id reply s h)

  replied-Answered :
      (l : List Effect) (ignore : Bool) (id : ℕ) (buf : Option Buffer) (e : Option Failure)
      → (reply : Reply) (s : Service) → s.sent ≡ l
      → Answered l (replied parse sign authenticate pr ignore id none buf e reply s)
  unfolding replied
  replied-Answered l ignore id buf (some e) reply s h =
      fail-Answered parse sign authenticate pr l id reply.status e
        (bufs_of parse sign authenticate pr reply.response_buf) s h
  replied-Answered l ignore id buf none reply s h =
      respond-Answered l ignore id reply.response_buf buf reply s h

  called-Answered :
      (l : List Effect) (ignore : Bool) (id : ℕ) (buf : Option Buffer) (o : Out Service Reply)
      → does_block o ≡ false
      → (state_of o).sent ≡ l
      → Answered l
          (bind o (λ reply. replied parse sign authenticate pr ignore id none buf reply.err reply))
  called-Answered l ignore id buf (returns reply t) n h =
      replied-Answered l ignore id buf reply.err reply t h
  called-Answered l ignore id buf (panics p t) n h = ([], h ∙ sym (append-nil l), refl)
  called-Answered l ignore id buf (blocks t) n h = cc

  -- Getting a buffer from the pool.
  abbrev Taken : Service → Out Service (Option Buffer) → Type 0
  Taken s o = (buf : Option Buffer) × (t : Service) × (o ≡ returns buf t) × (t.sent ≡ s.sent)

  taken_returns :
      (pick : Option ℕ) (p : Option BytesPool) (s : Service)
      → Taken s (taken parse sign authenticate pr pick p s)
  taken_returns pick none s = (none, s, refl, refl)
  taken_returns pick (some p) s = (some (get_buf pick p).0, _, refl, refl)

  pooled_buf_returns :
      (ignore : Bool) (pick : Option ℕ) (s : Service)
      → Taken s (pooled_buf parse sign authenticate pr ignore pick s)
  unfolding pooled_buf
  pooled_buf_returns ignore pick s =
      if_cases (Taken s) (not ignore && s.cfg.use_buf_pool)
        (taken parse sign authenticate pr pick s.bytes_pool s) (returns none s)
        (λ _. taken_returns pick s.bytes_pool s) (λ _. (none, s, refl, refl))

  after_read-Answered :
      (l : List Effect) (ignore : Bool) (id : ℕ) (r : Request Token) (fn : Fn)
      (body : Result Buffer)
      → (s : Service) → r.write_error ≡ none
      → Silent fn
      → s.sent ≡ l
      → Answered l (after_read parse sign authenticate pr ignore id r fn body s)
  unfolding after_read
  after_read-Answered l ignore id r fn (failed e) s w q h =
      fail-Answered parse sign authenticate pr l id 500 _ [] s h
  after_read-Answered l ignore id r fn (ok body) s w q h =
      let (buf, t, e, k) = pooled_buf_returns ignore r.pick s in
      let (n, m) = q id body buf t in
      rw (e, w) (called-Answered l ignore id buf (fn id body buf t) n (m ∙ k ∙ h))

  after_checks-Answered :
      (l : List Effect) (ignore : Bool) (id : ℕ) (r : Request Token) (fn : Fn)
      → (o : Option (ℕ × Failure)) (s : Service) → r.write_error ≡ none
      → Silent fn
      → s.sent ≡ l
      → Answered l (after_checks parse sign authenticate pr ignore id r fn o s)
  unfolding after_checks
  after_checks-Answered l ignore id r fn (some (st, e)) s w q h =
      fail-Answered parse sign authenticate pr l id st e [] s h
  after_checks-Answered l ignore id r fn none s w q h =
      after_read-Answered l ignore id r fn r.body s w q h

  wrapped-Responded :
      (l : List Effect) (ctx_id : ℕ) (o : Out Service (Option Failure))
      → Answered l o
      → Responded l (catch_out (bind o (λ _. skip)) (recovered pr ctx_id))
  unfolding recovered
  wrapped-Responded l ctx_id (returns a t) h = h
  wrapped-Responded l ctx_id (panics p t) h =
      let (hs, e, q) = h in
      let fs = error_effects pr t.cfg (get_recover_error p ctx_id) 500 ctx_id [] in
      rw (process_error-writes pr (get_recover_error p ctx_id) 500 ctx_id [] t refl) (
        hs ++ fs,
        ap (λ x. x ++ fs) e ∙ append_assoc l hs fs,
        headers-response hs fs q
            (error_effects-response pr t.cfg (get_recover_error p ctx_id) 500 ctx_id []),
      )
  wrapped-Responded l ctx_id (blocks t) h = absurd h

  -- Every request gets one whole response: if the client takes what is written, and the function of the
  -- handler comes back or panics and does not write itself, the handler, with its recovery, comes back
  -- and has written some headers, then exactly one status, then only parts of a body, also where
  -- the request is refused, its body cannot be read, or the function fails, panics or gives a status
  -- that net/http does not accept.
  pub recover_wrap-Responded :
      (ctx_id : ℕ) (ignore : Bool) (allowed : String) (now : ℕ) (r : Request Token) (fn : Fn)
      → (s : Service) → r.write_error ≡ none
      → Silent fn
      → Responded s.sent (
          recover_wrap pr ctx_id
            (some (λ t.
              bind (process parse sign authenticate pr ignore allowed now r fn t) (λ _. skip)))
            s)
  unfolding recover_wrap process
  recover_wrap-Responded ctx_id ignore allowed now r fn s w q =
      wrapped-Responded s.sent ctx_id _
        (after_checks-Answered s.sent ignore ((s.http_request_id + 1) % 2 ^ 64) r fn _ _ w q refl)
