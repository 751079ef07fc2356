-- ===== src/HttpLog.antt =====
-- pkg/common/httplog/httplog.go: the log of the HTTP traffic. A file of the logging library is its name,
-- and what is written to it is a list of entries; the dumps that the HTTP library makes are parameters.
pub mod Logged
use goapp.Base.{
  ℕ, Bool, true, false, ◌&&◌, Option, none, some, List, [], ◌∷◌, ◌++◌, String, str_eq,
  if◌then◌else◌, is_some,
}
use goapp.GoRuntime.{M, Out, returns, panics, nil_dereference}
use goapp.Errors.{
  Failure, Result, ok, failed, new_typed, with_cause_typed, incorrect_call_error,
  http_dump_request_error,
}

-- `Config`; of the file's settings only the name.
pub record LogConfig : Type 0 where
  pub enable : Bool
  pub log_in_req : Bool
  pub log_out_req : Bool
  pub log_in_resp : Bool
  pub log_out_resp : Bool
  pub log_body : Bool
  pub file_config : Option String

pub data Kind : Type 0 where
  out_request in_response in_request out_response : Kind

-- What a call writes: its kind, and whether the body is part of the dump.
pub record Entry : Type 0 where
  pub kind : Kind
  pub with_body : Bool

-- `Logger`, and what its files got.
pub record HttpLogger : Type 0 where
  pub file_logger : Option String
  pub cfg : Option LogConfig
  pub entries : List Entry

abbrev pub file_name : String → String
file_name name = if str_eq name "" then "./httplog/http.log" else name

unfoldable pub open_file : LogConfig → Option String → M HttpLogger (Option Failure)
open_file c none s = panics nil_dereference (record s { cfg = some c })
open_file c (some name) s = returns none (record s {
  file_logger = some (file_name name);
  cfg = some (record c { file_config = some (file_name name) });
})

unfoldable pub configured : LogConfig → M HttpLogger (Option Failure)
unfolding open_file
configured c s =
    if c.enable then open_file c c.file_config s else returns none (record s { cfg = some c })

unfoldable pub closed : Option Failure → Option String → LogConfig → M HttpLogger (Option Failure)
unfolding configured
closed (some e) (some file) c s = returns (some e) s
closed (some e) none c s = configured c s
closed none file c s = configured c s

-- `SetConfig`; `close_err` is the error of closing the file, if one is open.
unfoldable pub set_config : Option Failure → Option LogConfig → M HttpLogger (Option Failure)
unfolding closed
set_config close_err none s = returns none s
set_config close_err (some c) s = closed close_err s.file_logger c s

-- `New`
unfoldable pub new : ℕ → Option LogConfig → M HttpLogger (Option Failure)
unfolding set_config
new request_id none s = returns (some (new_typed incorrect_call_error request_id)) s
new request_id (some c) s = set_config none (some c) s

-- `Shutdown`
unfoldable pub shutdown : Option Failure → M HttpLogger (Option Failure)
shutdown close_err s = if is_some s.file_logger then returns close_err s else returns none s

unfoldable pub dumped : ℕ → Kind → Bool → Option Failure → M HttpLogger (Option Failure)
dumped request_id kind body (some e) s =
    returns (some (with_cause_typed http_dump_request_error request_id e)) s
dumped request_id kind body none s =
    returns none
      (record s { entries = s.entries ++ (record { kind = kind; with_body = body } ∷ []) })

-- `log.cfg.Enable && log.fileLogger != nil`, and the flag of the call; a nil configuration panics.
unfoldable pub log_dump :
    (LogConfig → Bool)
    → ℕ
    → Kind
    → Bool
    → Bool
    → Option Failure
    → Option LogConfig
    → M HttpLogger (Option Failure)
unfolding dumped
log_dump flag request_id kind present has_body dump_err none s = panics nil_dereference s
log_dump flag request_id kind present has_body dump_err (some c) s =
    if c.enable && is_some s.file_logger && present && flag c
    then dumped request_id kind (has_body && c.log_body) dump_err s
    else returns none s

-- `LogHTTPOutRequest`; `present` says that the request is not nil.
unfoldable pub log_http_out_request : ℕ → Bool → Option Failure → M HttpLogger (Option Failure)
unfolding log_dump
log_http_out_request request_id present dump_err s =
    log_dump (λ c. c.log_out_req) request_id out_request present true dump_err s.cfg s

-- `LogHTTPInResponse`
unfoldable pub log_http_in_response : ℕ → Bool → Option Failure → M HttpLogger (Option Failure)
unfolding log_dump
log_http_in_response request_id present dump_err s =
    log_dump (λ c. c.log_in_resp) request_id in_response present true dump_err s.cfg s

-- `LogHTTPInRequest`
unfoldable pub log_http_in_request : ℕ → Bool → Option Failure → M HttpLogger (Option Failure)
unfolding log_dump
log_http_in_request request_id present dump_err s =
    log_dump (λ c. c.log_in_req) request_id in_request present true dump_err s.cfg s

-- `LogHTTPOutResponse`, which makes its dump itself; `has_body` says that the response has a buffer.
unfoldable pub log_http_out_response : ℕ → Bool → M HttpLogger (Option Failure)
unfolding log_dump
log_http_out_response request_id has_body s =
    log_dump (λ c. c.log_out_resp) request_id out_response true has_body none s.cfg s
