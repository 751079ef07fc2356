-- ===== src/HttpService.antt =====
-- pkg/common/httpservice: the service, what it writes, and its requests. A text is the list of its code
-- points. The log and the metrics are left out.
pub mod Text
pub mod Errors
pub mod Process
pub mod Handlers
pub mod Config
pub mod TextLaws
pub mod ErrorLaws
pub mod Responses
pub mod Guarded
pub mod Replies
pub mod Answers
pub mod Buffers
pub mod Registered
use goapp.Base.{ℕ, ℤ, Bool, Option, List, String}
use goapp.Errors.{Failure}
use goapp.HttpAuth.Handlers.{AuthConfig}
use goapp.BytesPool.{Buffer, BytesPool}
use goapp.HttpLog.{HttpLogger}

-- The value of a header: a constant or a text of another header, a number, or a text that was cut.
pub data HeaderValue : Type 0 where
  constant : String → HeaderValue
  number : ℕ → HeaderValue
  text : List ℕ → HeaderValue

-- `ErrorResponse` of `processError`; `blanked` says that the trace and the arguments of the error were
-- set to the empty text.
pub record ErrorResponse : Type 0 where
  pub error : Failure
  pub blanked : Bool
  pub response_json : List (List ℕ)
  pub response_str : List (List ℕ)

pub data Body : Type 0 where
  bytes : List ℕ → Body
  json : ErrorResponse → Body
  error_line : Failure → Body

-- What is called on the `http.ResponseWriter`.
pub data Effect : Type 0 where
  set_header : String → HeaderValue → Effect
  add_header : String → HeaderValue → Effect
  write_header : ℕ → Effect
  write : Body → Effect

-- `Config`, as far as a request reads it.
pub record HttpConfig : Type 0 where
  pub auth : AuthConfig
  pub use_hsts : Bool
  pub use_buf_pool : Bool
  pub buf_pooled_size : ℕ
  pub buf_pooled_max_size : ℕ
  pub http_error_log_header : Bool
  pub http_error_log_body : Bool
  pub http_header_max_size : ℤ

-- A `Service`, the global counter of requests, and what was called on the writer of the request.
pub record Service : Type 0 where
  pub cfg : HttpConfig
  pub bytes_pool : Option BytesPool
  pub http_logger : HttpLogger
  pub http_request_id : ℕ
  pub sent : List Effect

-- What the function of a handler gives back.
pub record Reply : Type 0 where
  pub response_buf : Option Buffer
  pub header : Option (List (String × HeaderValue))
  pub status : ℕ
  pub err : Option Failure
