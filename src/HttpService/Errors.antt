-- ===== src/HttpService/Errors.antt =====
-- pkg/common/httpservice/httpservice.go: `processError` and `recoverWrap`. The writer and the request
-- are not nil. The texts of errors and the JSON package are parameters.
use goapp.Base.{
  ℕ, ℤ, pos, Bool, true, false, Option, none, some, List, [], ◌∷◌, ◌++◌, String, ◌&&◌,
  if◌then◌else◌, leb,
}
use goapp.GoRuntime.{
  M, returns, panics, Panic, raised, index_out_of_range, ◌>>◌, skip, modify, defer_recover,
}
use goapp.Errors.{Failure, new_typed, with_cause_typed, foreign, get_recover_error}
use goapp.HttpService.{
  Service, Effect, set_header, write_header, write, constant, number, text, json, error_line,
  ErrorResponse,
}
use goapp.HttpService.Text.{substr_rune, header_replace}

-- The texts of a `*Error` that go into headers: `Code`, its printed form, `CauseMessage` and `Trace`.
pub record ErrorTexts : Type 0 where
  pub code : List ℕ
  pub message : List ℕ
  pub cause_message : List ℕ
  pub trace : List ℕ

-- What `processError` uses: the texts of an error, the printed form of an error that is not a `*Error`,
-- `json.Valid`, and the error of `json.MarshalIndent`, if it gives one.
pub record Printing : Type 0 where
  pub texts : Failure → ErrorTexts
  pub plain_text : Failure → List ℕ
  pub valid : List ℕ → Bool
  pub marshal_error : ErrorResponse → Option Failure

-- A call on the writer.
abbrev pub send : Effect → M Service (Unit {0})
send e = modify (λ s. record s { sent = s.sent ++ (e ∷ []) })

-- The statuses that `WriteHeader` of net/http accepts.
abbrev pub accepts : ℕ → Bool
accepts n = leb 100 n && leb n 999

-- `w.WriteHeader(status)`, which panics at another status.
unfoldable pub send_status : ℕ → M Service (Unit {0})
send_status n s = if accepts n then send (write_header n) s else panics (raised false 0) s

-- Whether an error is a `*Error`.
abbrev pub is_typed : Failure → Bool
is_typed (new_typed k e) = true
is_typed (with_cause_typed k e c) = true
is_typed (foreign n) = false

unfoldable pub set_cut : String → Option (List ℕ) → M Service (Unit {0})
set_cut key none = λ s. panics index_out_of_range s
set_cut key (some t) = send (set_header key (text t))

-- `w.Header().Set(key, substrRune(headerReplacer.Replace(t), 0, max))`
unfoldable pub set_text : String → ℤ → List ℕ → M Service (Unit {0})
unfolding set_cut
set_text key max t = set_cut key (substr_rune (header_replace t) (pos 0) max)

unfoldable pub typed_headers : ℤ → ErrorTexts → M Service (Unit {0})
typed_headers max t =
    set_text "Custom-Err-Code" max t.code
    >> set_text "Custom-Err-Message" max t.message
    >> set_text "Custom-Err-Cause-Message" max t.cause_message
    >> set_text "Custom-Err-Trace" max t.trace

unfoldable pub error_headers : Printing → ℤ → Failure → M Service (Unit {0})
unfolding typed_headers
error_headers pr max err =
    if is_typed err
    then typed_headers max (pr.texts err)
    else set_text "Custom-Err-Message" max (pr.plain_text err)

-- The loop over the buffers: what is JSON goes into one list, and the rest into the other.
abbrev pub append_buf : Printing → List ℕ → ErrorResponse → ErrorResponse
append_buf pr [] r = r
append_buf pr (b ∷ bs) r =
    if pr.valid (b ∷ bs)
    then record r { response_json = r.response_json ++ ((b ∷ bs) ∷ []) }
    else record r { response_str = r.response_str ++ ((b ∷ bs) ∷ []) }

abbrev pub append_bufs : Printing → List (List ℕ) → ErrorResponse → ErrorResponse
append_bufs pr [] r = r
append_bufs pr (b ∷ bs) r = append_bufs pr bs (append_buf pr b r)

unfoldable pub written : ErrorResponse → Option Failure → M Service (Unit {0})
written r none = send (write (json r))
written r (some e) = send (write (error_line e)) >> send (write (error_line r.error))

-- `is_my_err` is the flag that only the block of the headers sets.
unfoldable pub error_body : Printing → Bool → Failure → List (List ℕ) → M Service (Unit {0})
unfolding written
error_body pr is_my_err err bufs =
    let r =
      append_bufs pr bufs
        (record { error = err; blanked = is_my_err; response_json = []; response_str = [] }) in
    written r (pr.marshal_error r)

abbrev pub log_header : Printing → Failure → M Service (Unit {0})
log_header pr err s =
    if s.cfg.http_error_log_header
    then error_headers pr s.cfg.http_header_max_size err s
    else returns tt s

abbrev pub log_body : Printing → Failure → List (List ℕ) → M Service (Unit {0})
log_body pr err bufs s =
    if s.cfg.http_error_log_body
    then error_body pr (s.cfg.http_error_log_header && is_typed err) err bufs s
    else returns tt s

-- `processError`
unfoldable pub process_error :
    Printing → Option Failure → ℕ → ℕ → List (List ℕ) → M Service (Unit {0})
unfolding error_headers send_status error_body
process_error pr none status request_id bufs = skip
process_error pr (some err) status request_id bufs =
    send (set_header "Content-Type" (constant "application/json; charset=utf-8"))
    >> send (set_header "Custom-Request-Id" (number request_id))
    >> log_header pr err
    >> send_status status
    >> log_body pr err bufs

-- The deferred function of `recoverWrap`. The number of the request is the one of the service's context,
-- and not the one that `Process` has given to the request.
unfoldable pub recovered : Printing → ℕ → Panic → M Service (Unit {0})
recovered pr ctx_id p = process_error pr (some (get_recover_error p ctx_id)) 500 ctx_id []

-- `recoverWrap`
unfoldable pub recover_wrap : Printing → ℕ → Option (M Service (Unit {0})) → M Service (Unit {0})
unfolding recovered
recover_wrap pr ctx_id none = skip
recover_wrap pr ctx_id (some handler) = defer_recover (recovered pr ctx_id) handler
