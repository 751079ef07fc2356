-- ===== src/Examples/Requests.antt =====
-- The theorems about the HTTP service and the HTTP client at concrete requests.
use goapp.Base.{
  ℕ, zero, suc, ◌≤◌, ◌<◌, ◌-◌, pos, true, false, Option, none, some, List, [], ◌∷◌, ◌++◌, String,
  ◌≡◌, refl, arith, length, take, ◌⊎◌, All, find, store,
}
use goapp.GoRuntime.{returns, panics, bind, skip, state_of, nil_dereference}
use goapp.Errors.{ok, failed, new_typed, foreign, panic_recover_error}
use goapp.HttpAuth.{Claims, Parsed, parsed, parse_error, Signed, signed}
use goapp.HttpAuth.Handlers.{AuthConfig, Directory, status}
use goapp.BytesPool.{Buffer}
use goapp.HttpService.{Service, Effect, write_header, write, json, ErrorResponse}
use goapp.HttpService.Text.{substr_rune}
use goapp.HttpService.TextLaws.{substr_rune-start}
use goapp.HttpService.Errors.{Printing, process_error, recover_wrap}
use goapp.HttpService.ErrorLaws.{put}
use goapp.HttpService.Responses.{
  is_response, status_of, Safe, process_error-response, process_error-trace,
}
use goapp.HttpService.Process.{Request, Fn, process}
use goapp.HttpService.Handlers.{echo}
use goapp.HttpService.Guarded.{Authorized, process-Authorized}
use goapp.HttpService.Answers.{Silent, recover_wrap-Responded}
use goapp.HttpService.Replies.{Responded}
use goapp.HttpService.Buffers.{SameSizes, process-Keeps}
use goapp.HttpService.Config.{HandlerConfig, Handler, Method, handler_method, set_http_handler}
use goapp.HttpService.Registered.{wanted, set_http_handler-wanted}
use goapp.HttpClient.{Call, Calls, response, process as call}
use goapp.HttpClient.Repeats.{AsksAtMost, process-AsksAtMost}

abbrev parse_number : ℕ → ℕ → String → Parsed
parse_number now zero key = parse_error (foreign 9)
parse_number now (suc n) key = parsed (record { username = "john"; expires_at = n }) true

abbrev sign_number : Claims → String → Signed ℕ
sign_number c key = signed (suc c.expires_at)

abbrev known : String → String → Directory
known user pass = status true

abbrev printing : Printing
printing = record {
  texts = λ e. record {
    code = 65 ∷ [];
    message = 66 ∷ 10 ∷ 67 ∷ [];
    cause_message = [];
    trace = 68 ∷ [];
  };
  plain_text = λ e. 69 ∷ [];
  valid = λ b. false;
  marshal_error = λ r. none;
}

abbrev auth : AuthConfig
auth = record {
  auth_type = "INTERNAL";
  http_user = "john";
  http_pass = "secret";
  use_jwt = false;
  jwt_expires_at = pos 60;
  jwt_key = "key";
}

abbrev buffer : Buffer
buffer = record { cap = 8; bytes = 1 ∷ [] }

abbrev service : Service
service = record {
  cfg = record {
    auth = auth;
    use_hsts = true;
    use_buf_pool = true;
    buf_pooled_size = 4;
    buf_pooled_max_size = 16;
    http_error_log_header = false;
    http_error_log_body = true;
    http_header_max_size = pos 2;
  };
  bytes_pool = some (record {
    pooled_size = 4;
    cached = buffer ∷ [];
    count_get = 0;
    count_put = 0;
    count_new = 0;
  });
  http_logger = record { file_logger = none; cfg = none; entries = [] };
  http_request_id = 0;
  sent = [];
}

abbrev request : Request ℕ
request = record {
  method = "POST";
  basic_auth = some ("john", "guess");
  cookie = failed (foreign 8);
  body = ok buffer;
  pick = some 0;
  write_error = none;
}

substr_rune-start_example :
    (r : List ℕ) × (substr_rune (1 ∷ 2 ∷ 3 ∷ []) (pos 0) (pos 10) ≡ some r)
    × (length r ≤ 10)
    × (10 ≤ 3 → r ≡ take 10 (1 ∷ 2 ∷ 3 ∷ []))
    × (3 < 10 → r ≡ take (3 - 1) (1 ∷ 2 ∷ 3 ∷ []))
substr_rune-start_example = substr_rune-start (1 ∷ 2 ∷ 3 ∷ []) 10

process_error-response_example :
    (es : List Effect) × (process_error printing
        (some (new_typed panic_recover_error 3))
        500
        3
        []
        service
      ≡ returns tt (put service es))
    × (is_response es ≡ true)
    × (status_of es ≡ some 500)
    × All (Safe (pos 2)) es
process_error-response_example =
    process_error-response printing (new_typed panic_recover_error 3) 500 3 [] service (omega arith)
      (omega arith)

process_error-trace_example :
    (hs : List Effect) × (r : ErrorResponse) × (process_error printing
        (some (new_typed panic_recover_error 3))
        500
        3
        []
        service
      ≡ returns tt (put service (hs ++ (write_header 500 ∷ write (json r) ∷ []))))
    × (r.error ≡ new_typed panic_recover_error 3)
    × (r.blanked ≡ false)
process_error-trace_example =
    process_error-trace printing (new_typed panic_recover_error 3) 500 3 [] service (omega arith)
      (omega arith) refl refl (λ r. refl)

process-Authorized_example :
    ((fn fn' : Fn)
      → process parse_number sign_number known printing false "POST" 100 request fn service
        ≡ process parse_number sign_number known printing false "POST" 100 request fn' service)
    ⊎ Authorized parse_number sign_number known printing auth 100 "POST" request
process-Authorized_example =
    process-Authorized parse_number sign_number known printing false "POST" 100 request service

-- The function of a handler that panics.
abbrev broken : Fn
broken id body buf s = panics nil_dereference s

broken-Silent : Silent broken
broken-Silent = λ id body buf s. (refl, refl)

recover_wrap-Responded_example : Responded [] (
    recover_wrap printing 0
      (some (λ t.
        bind
          (process parse_number sign_number known printing false "POST" 100
            (record request { basic_auth = some ("john", "secret") })
            broken
            t)
          (λ _. skip)))
      service)
recover_wrap-Responded_example =
    recover_wrap-Responded parse_number sign_number known printing 0 false "POST" 100
      (record request { basic_auth = some ("john", "secret") }) broken service refl broken-Silent

echo-Keeps :
    (n : ℕ) (b : Buffer) (buf : Option Buffer) (s : Service)
    → SameSizes 16 s
    → SameSizes 16 (state_of (echo [] n b buf s))
unfolding echo
echo-Keeps n b buf s h = h

process-Keeps_example : SameSizes 16 (
    state_of (
      process parse_number sign_number known printing false "POST" 100
        (record request { basic_auth = some ("john", "secret") })
        (echo [])
        service))
process-Keeps_example =
    process-Keeps parse_number sign_number known printing 16 false "POST" 100
      (record request { basic_auth = some ("john", "secret") }) (echo []) echo-Keeps service
      (refl, (omega arith, ((omega arith, omega arith), tt)))

abbrev health : HandlerConfig
health = record {
  enabled = true;
  full_path = "/app/health";
  params = "{id}";
  method = "GET";
  handler_name = "HealthHandler";
}

abbrev methods : String → Method ℕ
methods name = handler_method 3

abbrev handlers : List (String × Handler ℕ)
handlers = ("health", record { path = "/app/health/{id}"; handler_func = 3; method = "GET" }) ∷ []

registered : set_http_handler 1 (some methods) (("health", health) ∷ []) [] ≡ (handlers, none)
unfolding set_http_handler store
registered = refl

no_other : find {A = HandlerConfig} "health" [] ≡ none
unfolding find
no_other = refl

set_http_handler-wanted_example :
    find "health" handlers
    ≡ wanted methods (find "health" (("health", health) ∷ [])) (find "health" [])
set_http_handler-wanted_example =
    set_http_handler-wanted 1 methods (("health", health) ∷ []) [] handlers (no_other, tt)
      registered "health"

abbrev remote : Call
remote = record {
  url = "http://localhost";
  args = some "id=1";
  user_id = "";
  user_pwd = "";
  re_call_repeat = pos 2;
  re_call_wait_timeout = 5;
}

abbrev no_calls : Calls
no_calls = record { full_url = ""; with_user = false; asked = 0; waited = 0 }

process-AsksAtMost_example :
    AsksAtMost 2 no_calls
      (call remote 1 true none (response 404 [] ∷ response 404 [] ∷ response 200 [] ∷ []) no_calls)
process-AsksAtMost_example =
    process-AsksAtMost remote 1 1 true none
      (response 404 [] ∷ response 404 [] ∷ response 200 [] ∷ []) no_calls refl (omega arith)
