-- ===== src/HttpService/Config.antt =====
-- pkg/common/httpservice/httpservice.go: `New`, `SetHttpHandler` and `UrlValuesToMap`. What reflection
-- finds under the name of a method is a parameter.
use Prim.Native.String.{◌++◌}
use goapp.Base.{ℕ, Bool, Option, none, some, List, [], ◌∷◌, String, str_eq, if◌then◌else◌, store}
use goapp.Errors.{
  Failure, Result, ok, failed, new_typed, incorrect_call_error, incorrect_type_error,
  http_handler_method_not_found,
}

-- `HandlerConfig`, as far as it is read.
pub record HandlerConfig : Type 0 where
  pub enabled : Bool
  pub full_path : String
  pub params : String
  pub method : String
  pub handler_name : String

-- `Handler`, with the function of the handler, wrapped by `recoverWrap`, of a type `F`.
pub record Handler (F : Type 0) : Type 0 where
  pub path : String
  pub handler_func : F
  pub method : String

-- What `MethodByName` finds: nothing, a method of another type, or a handler's function.
pub data Method (F : Type 0) : Type 0 where
  not_found : Method F
  other_type : Method F
  handler_method : F → Method F

abbrev pub path_of : HandlerConfig → String
path_of c = if str_eq c.params "" then c.full_path else c.full_path ++ ("/" ++ c.params)

module _ {F : Type 0} where
  -- The handlers that every service has. The table is the argument of `New` for its functions.
  unfoldable pub system_handlers : (String → F) → List (String × Handler F)
  system_handlers f =
      (
        "EchoHandler",
        record { path = "/system/echo"; handler_func = f "EchoHandler"; method = "POST" },
      )
      ∷ (
        "SingingHandler",
        record { path = "/system/auth/signin"; handler_func = f "SingingHandler"; method = "POST" },
      )
      ∷ (
        "JWTRefreshHandler",
        record {
          path = "/system/auth/refresh";
          handler_func = f "JWTRefreshHandler";
          method = "POST";
        },
      )
      ∷ (
        "HTTPLogHandler",
        record {
          path = "/system/config/httplog";
          handler_func = f "HTTPLogHandler";
          method = "POST";
        },
      )
      ∷ (
        "HTTPErrorLogHandler",
        record {
          path = "/system/config/httperrlog";
          handler_func = f "HTTPErrorLogHandler";
          method = "POST";
        },
      )
      ∷ (
        "LogLevelHandler",
        record {
          path = "/system/config/loglevel";
          handler_func = f "LogLevelHandler";
          method = "POST";
        },
      )
      ∷ (
        "LoggerGetConfigHandler",
        record {
          path = "/system/config/logger";
          handler_func = f "LoggerGetConfigHandler";
          method = "GET";
        },
      )
      ∷ (
        "LoggerSetConfigHandler",
        record {
          path = "/system/config/logger";
          handler_func = f "LoggerSetConfigHandler";
          method = "POST";
        },
      )
      ∷ []

  -- `New`: the table of handlers of the new service.
  unfoldable pub new :
      ℕ → (has_cfg has_logger : Bool) → (String → F) → Result (List (String × Handler F))
  new request_id has_cfg has_logger f =
      if has_cfg
      then (if has_logger
          then ok (system_handlers f)
          else failed (new_typed incorrect_call_error request_id))
      else failed (new_typed incorrect_call_error request_id)

  abbrev pub handler_of : HandlerConfig → F → Handler F
  handler_of c f = record { path = path_of c; handler_func = f; method = c.method }

  unfoldable pub register_method :
      ℕ
      → String
      → HandlerConfig
      → Method F
      → List (String × Handler F)
      → List (String × Handler F) × Option Failure
  register_method request_id name c not_found table =
      (table, some (new_typed http_handler_method_not_found request_id))
  register_method request_id name c other_type table =
      (table, some (new_typed incorrect_type_error request_id))
  register_method request_id name c (handler_method f) table =
      (store name (handler_of c f) table, none)

  abbrev pub go_on :
      List (String × Handler F) × Option Failure
      → (List (String × Handler F) → List (String × Handler F) × Option Failure)
      → List (String × Handler F) × Option Failure
  go_on (table, some e) later = (table, some e)
  go_on (table, none) later = later table

  -- The loop of `SetHttpHandler`, over the configured handlers in some order of the map.
  unfoldable pub register_all :
      ℕ
      → (String → Method F)
      → List (String × HandlerConfig)
      → List (String × Handler F)
      → List (String × Handler F) × Option Failure
  unfolding register_method
  register_all request_id methods [] table = (table, none)
  register_all request_id methods ((name, c) ∷ rest) table =
      let later = register_all request_id methods rest in
      if c.enabled
      then go_on (register_method request_id name c (methods c.handler_name) table) later
      else later table

  -- `SetHttpHandler`; `methods` is none for a nil handler.
  unfoldable pub set_http_handler :
      ℕ
      → Option (String → Method F)
      → List (String × HandlerConfig)
      → List (String × Handler F)
      → List (String × Handler F) × Option Failure
  unfolding register_all
  set_http_handler request_id none cfgs table =
      (table, some (new_typed incorrect_call_error request_id))
  set_http_handler request_id (some methods) cfgs table = register_all request_id methods cfgs table

-- `UrlValuesToMap`
unfoldable pub url_values_to_map : List (String × List String) → List (String × String)
url_values_to_map [] = []
url_values_to_map ((key, []) ∷ rest) = url_values_to_map rest
url_values_to_map ((key, v ∷ vs) ∷ rest) = store key v (url_values_to_map rest)
