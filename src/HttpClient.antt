-- ===== src/HttpClient.antt =====
-- pkg/common/httpclient/httpclient.go: a call of another service, and its repeats. What the network
-- does is a list with one entry for each round of the loop; the settings of the connection, the log of the
-- traffic and the metrics are left out. The count of the tries is not bounded.
pub mod Repeats
use Prim.Native.String.{◌++◌}
use goapp.Base.{
  ℕ, zero, suc, ◌+◌, ℤ, pos, negsuc, Bool, true, false, ◌&&◌, not, Option, none, some, List, [],
  ◌∷◌, String, str_eq, ◌==◌, ltz, is_zero, if◌then◌else◌, is_some,
}
use goapp.GoRuntime.{M, Out, returns, blocks, bind, modify, ◌>>◌}
use goapp.Errors.{
  Failure, new_typed, with_cause_typed, incorrect_call_error, http_call_empty_url,
  http_call_create_context_error, context_closed_error, http_call_other_neturl_error,
  http_call_other_error, http_call_read_body_error, http_call_url_not_found_error,
  http_call_method_not_allowed_error,
}

-- `Call`, as far as it decides what is done; `args` are the encoded arguments, if there are any.
pub record Call : Type 0 where
  pub url : String
  pub args : Option String
  pub user_id : String
  pub user_pwd : String
  pub re_call_repeat : ℤ
  pub re_call_wait_timeout : ℕ

-- One round: the context is closed; `client.Do` gives an error, of the package `net/url` or another; the
-- body cannot be read; or there is a response with a status and a body.
pub data Attempt : Type 0 where
  ctx_closed : Attempt
  url_error : (timeout : Bool) → Failure → Attempt
  other_error : Failure → Attempt
  read_error : Failure → Attempt
  response : ℕ → List ℕ → Attempt

-- `(statusCode, responseBuf, err)`; the headers of the response are left out.
pub record Answer : Type 0 where
  pub status_code : ℕ
  pub response_buf : List ℕ
  pub err : Option Failure

-- What a call does: the address that it uses, whether it sends a user, how often it asks the
-- network, and how often it waits.
pub record Calls : Type 0 where
  pub full_url : String
  pub with_user : Bool
  pub asked : ℕ
  pub waited : ℕ

abbrev pub refused : ℕ → Failure → Answer
refused status e = record { status_code = status; response_buf = []; err = some e }

-- The rounds that end the loop, apart from "not found".
abbrev pub answer_of : ℕ → Attempt → Answer
answer_of id ctx_closed = refused 0 (new_typed context_closed_error id)
answer_of id (url_error true e) = refused 0 (with_cause_typed context_closed_error id e)
answer_of id (url_error false e) = refused 0 (with_cause_typed http_call_other_neturl_error id e)
answer_of id (other_error e) = refused 0 (with_cause_typed http_call_other_error id e)
answer_of id (read_error e) = refused 0 (with_cause_typed http_call_read_body_error id e)
answer_of id (response status body) =
    if status == 405
    then refused 405 (new_typed http_call_method_not_allowed_error id)
    else record { status_code = status; response_buf = body; err = none }

abbrev pub is_not_found : Attempt → Bool
is_not_found (response status body) = status == 404
is_not_found _ = false

-- Whether the round comes to `client.Do`.
abbrev pub asks : Attempt → ℕ
asks ctx_closed = 0
asks _ = 1

abbrev pub ask : Attempt → Calls → Calls
ask a s = record s { asked = s.asked + asks a }

-- `c.ReCallRepeat != 0 && tryCount >= c.ReCallRepeat`
abbrev pub is_last : Call → ℕ → Bool
is_last c try_count = not (is_zero c.re_call_repeat) && not (ltz (pos try_count) c.re_call_repeat)

abbrev pub wait : Calls → Calls
wait s = record s { waited = suc s.waited }

-- The loop. Where the list of rounds ends, the loop goes on.
unfoldable pub call_loop : Call → ℕ → ℕ → List Attempt → M Calls Answer
call_loop c id try_count [] s = blocks s
call_loop c id try_count (a ∷ rest) s =
    let later = call_loop c id (suc try_count) rest (wait (ask a s)) in
    if is_not_found a
    then (if is_last c try_count
        then returns (refused 404 (new_typed http_call_url_not_found_error id)) (ask a s)
        else later)
    else returns (answer_of id a) (ask a s)

abbrev pub full_url_of : Call → String
full_url_of c = elim c.args [ none ↦ c.url | some a ↦ c.url ++ ("?" ++ a) ]

abbrev pub prepared : Call → Calls → Calls
prepared c s = record s {
  full_url = full_url_of c;
  with_user = not (str_eq c.user_id "") && not (str_eq c.user_pwd "");
}

unfoldable pub called : Call → ℕ → Option Failure → List Attempt → M Calls Answer
unfolding call_loop
called c id (some e) attempts s =
    returns (refused 0 (with_cause_typed http_call_create_context_error id e))
      (record s { full_url = full_url_of c })
called c id none attempts s = call_loop c id 1 attempts (prepared c s)

-- `Process` at a call that is not nil; `request_err` is the error of making the request.
unfoldable pub process :
    Call → ℕ → (has_ctx : Bool) → Option Failure → List Attempt → M Calls Answer
unfolding called
process c id has_ctx request_err attempts s =
    if has_ctx
    then (if str_eq c.url ""
        then returns (refused 0 (new_typed http_call_empty_url id)) s
        else called c id request_err attempts s)
    else returns (refused 0 (new_typed incorrect_call_error id)) s
