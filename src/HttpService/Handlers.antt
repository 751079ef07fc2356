-- ===== src/HttpService/Handlers.antt =====
-- pkg/common/httpservice/handler_echo.go, handler_log.go, handler_logger_get_config.go and
-- handler_logger_set_config.go: the functions that the system's handlers give to `Process`. What they read
-- of the request's headers and address is an argument.
use goapp.Base.{
  ℕ, Bool, true, false, Option, none, some, List, [], ◌∷◌, ◌++◌, String, str_eq, ◌||◌,
  if◌then◌else◌, contains, upper_is,
}
use goapp.GoRuntime.{M, Out, returns, panics, blocks, pure}
use goapp.Errors.{
  Failure, Result, ok, failed, new_typed, with_cause_typed, http_header_incorrect_bool,
  common_error, incorrect_log_level, incorrect_call_error, json_marshal_error, json_unmarshal_error,
  yaml_marshal_error, xml_marshal_error, xml_unmarshal_error,
}
use goapp.BytesPool.{Buffer}
use goapp.HttpLog.{LogConfig, HttpLogger, set_config}
use goapp.HttpService.{Service, Reply, HeaderValue, constant, number}
use goapp.HttpService.Process.{Fn}

abbrev pub refuse : ℕ → Failure → Reply
refuse status e = record { response_buf = none; header = none; status = status; err = some e }

abbrev pub success_header : ℕ → List (String × HeaderValue)
success_header id = ("Custom-Err-Code", constant "0") ∷ ("Custom-Request-Id", number id) ∷ []

abbrev pub succeed : Buffer → List (String × HeaderValue) → Reply
succeed b hs = record { response_buf = some b; header = some hs; status = 200; err = none }

-- `EchoHandler`: the body, and the headers of the request over the ones of the service.
unfoldable pub echo : List (String × HeaderValue) → Fn
echo headers id body buf = pure (succeed body (success_header id ++ headers))

-- The first block of `HTTPLogHandler`: `Log-HTTP-Traffic-Status`. None is a value that is refused.
abbrev pub traffic_status : String → Option Bool
traffic_status t =
    if str_eq t ""
    then some false
    else if upper_is t "TRUE"
    then some true
    else if upper_is t "FALSE"
    then some false
    else none

-- The second block: `Log-HTTP-Traffic-Type` only sets flags.
abbrev pub traffic_type : String → LogConfig → LogConfig
traffic_type t c = record c {
  log_in_req = contains "INREQ" t || c.log_in_req;
  log_out_req = contains "OUTREQ" t || c.log_out_req;
  log_in_resp = contains "INRESP" t || c.log_in_resp;
  log_out_resp = contains "OUTRESP" t || c.log_out_resp;
  log_body = contains "BODY" t || c.log_body;
}

configured_reply : ℕ → Buffer → Option Failure → Reply
configured_reply id body none = succeed body (success_header id)
configured_reply id body (some e) = refuse 500 e

logger_done : ℕ → Buffer → Service → Out HttpLogger (Option Failure) → Out Service Reply
unfolding configured_reply
logger_done id body s (returns e l) =
    returns (configured_reply id body e) (record s { http_logger = l })
logger_done id body s (panics p l) = panics p (record s { http_logger = l })
logger_done id body s (blocks l) = blocks (record s { http_logger = l })

unfoldable pub apply_log :
    Option Failure → String → ℕ → Buffer → LogConfig → Option Bool → M Service Reply
unfolding logger_done
apply_log close_err type id body c none s =
    returns (refuse 400 (new_typed http_header_incorrect_bool id)) s
apply_log close_err type id body c (some b) s =
    logger_done id body s
      (set_config close_err (some (traffic_type type (record c { enable = b }))) s.http_logger)

unfoldable pub log_with :
    Option Failure → String → String → ℕ → Buffer → Option LogConfig → M Service Reply
unfolding apply_log
log_with close_err stat type id body none s = returns (refuse 500 (new_typed common_error id)) s
log_with close_err stat type id body (some c) s =
    apply_log close_err type id body c (traffic_status stat) s

-- `HTTPLogHandler`; `close_err` is the error of closing the log file.
unfoldable pub http_log : Option Failure → String → String → Fn
unfolding log_with
http_log close_err stat type id body buf s =
    log_with close_err stat type id body s.http_logger.cfg s

-- `HTTPErrorLogHandler`, with the header `Log-Error-To-HTTP-Type`.
unfoldable pub http_error_log : String → Fn
http_error_log type id body buf s = returns (succeed body (success_header id)) (record s {
  cfg = record s.cfg {
    http_error_log_header = contains "HEADER" type;
    http_error_log_body = contains "BODY" type;
  };
})

-- `LogLevelHandler`. `SetStdFilterLevel`, which it calls, only writes to the log.
unfoldable pub log_level : String → Fn
log_level level id body buf =
    if str_eq level "DEBUG" || str_eq level "ERROR" || str_eq level "INFO"
    then pure (succeed body (success_header id))
    else pure (refuse 400 (new_typed incorrect_log_level id))

abbrev pub config_header : ℕ → List (String × HeaderValue)
config_header id =
    ("Content-Type", constant "application/json; charset=utf-8")
    ∷ ("Custom-Err-Code", constant "0")
    ∷ ("Custom-Id", number 0)
    ∷ ("Custom-Request-Id", number id)
    ∷ []

marshaled : ℕ → (Failure → Failure) → ℕ → Result Buffer → Reply
marshaled status f id (ok b) = succeed b (config_header id)
marshaled status f id (failed e) = refuse status (f e)

-- The logger and the packages for JSON, YAML and XML, over the state `G` of the global logger.
module _ {Config G : Type 0} (marshal : String → G → Result Buffer)
    (unmarshal : String → Buffer → Result Config)
    (set_global_config : Config → G → Option Failure × G) where
  -- `LoggerGetConfigHandler`, with the parameter `fmt` of the address.
  unfoldable pub logger_get_config : String → ℕ → G → Reply
  unfolding marshaled
  logger_get_config fmt id g =
      if str_eq fmt "json"
      then marshaled 500 (with_cause_typed json_marshal_error id) id (marshal fmt g)
      else if str_eq fmt "yaml"
      then marshaled 500 (with_cause_typed yaml_marshal_error id) id (marshal fmt g)
      else if str_eq fmt "xml"
      then marshaled 500 (with_cause_typed xml_marshal_error id) id (marshal fmt g)
      else refuse 500 (new_typed incorrect_call_error 0)

  set_reply : String → (Failure → Failure) → ℕ → Option Failure × G → Reply × G
  unfolding marshaled
  set_reply fmt on_marshal id (some e, g) = (refuse 400 e, g)
  set_reply fmt on_marshal id (none, g) = (marshaled 400 on_marshal id (marshal fmt g), g)

  set_decoded :
      String → (Failure → Failure) → (Failure → Failure) → ℕ → G → Result Config → Reply × G
  unfolding set_reply
  set_decoded fmt on_unmarshal on_marshal id g (failed e) = (refuse 400 (on_unmarshal e), g)
  set_decoded fmt on_unmarshal on_marshal id g (ok c) =
      set_reply fmt on_marshal id (set_global_config c g)

  -- `LoggerSetConfigHandler`; errors of YAML have the keys of XML.
  unfoldable pub logger_set_config : String → ℕ → Buffer → G → Reply × G
  unfolding set_decoded
  logger_set_config fmt id body g =
      if str_eq fmt "json"
      then set_decoded fmt (with_cause_typed json_unmarshal_error id)
          (with_cause_typed json_marshal_error id) id g (unmarshal fmt body)
      else if str_eq fmt "yaml"
      then set_decoded fmt (with_cause_typed xml_unmarshal_error id)
          (with_cause_typed xml_marshal_error id) id g (unmarshal fmt body)
      else (refuse 500 (new_typed incorrect_call_error 0), g)
