-- ===== src/HttpHandler.antt =====
-- pkg/app/httphandler: the making of the service of the handlers (httphandler.go), and the functions that
-- the handlers of handler_health.go and handler_ready.go give to `Process`.
use goapp.Base.{ℕ, Bool, Option, none, some, List, String, ◌++◌, if◌then◌else◌}
use goapp.GoRuntime.{pure}
use goapp.Errors.{Failure, new_typed, incorrect_call_error}
use goapp.HttpService.{HeaderValue}
use goapp.HttpService.Process.{Fn}
use goapp.HttpService.Handlers.{succeed, success_header}

-- The checks of `New`.
abbrev pub new_refusal : ℕ → (has_cfg has_http_service has_wp_service : Bool) → Option Failure
new_refusal request_id has_cfg has_http_service has_wp_service =
    if has_cfg
    then (if has_http_service
        then (if has_wp_service then none else some (new_typed incorrect_call_error request_id))
        else some (new_typed incorrect_call_error request_id))
    else some (new_typed incorrect_call_error request_id)

-- `HealthHandler`, with the headers of the request.
unfoldable pub health : List (String × HeaderValue) → Fn
health headers id body buf = pure (succeed body (success_header id ++ headers))

-- `ReadyHandler`
unfoldable pub readiness : List (String × HeaderValue) → Fn
readiness headers id body buf = pure (succeed body (success_header id ++ headers))
