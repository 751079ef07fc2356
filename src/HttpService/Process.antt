-- ===== src/HttpService/Process.antt =====
-- pkg/common/httpservice/httpservice.go: `Process`, the way of a request through the service. The log of
-- the traffic, whose errors are ignored, and the metrics are left out.
use goapp.Base.{
  ℕ, ◌+◌, ◌%◌, ◌^◌, Bool, Option, none, some, List, [], ◌∷◌, String, str_eq, ◌&&◌, ◌||◌, not, leb,
  if◌then◌else◌, is_some,
}
use goapp.GoRuntime.{M, returns, ◌>>=◌, ◌>>◌, pure, skip, modify, defer}
use goapp.Errors.{
  Failure, Result, ok, failed, new_typed, with_cause_typed, http_method_not_allowed_error,
  http_auth_basic_not_set_error, http_auth_jwt_not_set_error, http_body_read_error,
  http_request_write_error,
}
use goapp.HttpAuth.{Claims, Parsed, Signed, check_jwt}
use goapp.HttpAuth.Handlers.{AuthConfig, Directory, check_authentication}
use goapp.BytesPool.{Buffer, BytesPool, get_buf, put_buf}
use goapp.HttpService.{
  Service, HttpConfig, Reply, set_header, add_header, write, HeaderValue, constant, bytes,
}
use goapp.HttpService.Errors.{Printing, send, send_status, process_error}

-- A request: its method, `BasicAuth`, the cookie "token", what `io.ReadAll` gives for its body; and what
-- happens meanwhile: the buffer that the runtime picks, and the error of writing the answer.
pub record Request (Token : Type 0) : Type 0 where
  pub method : String
  pub basic_auth : Option (String × String)
  pub cookie : Result Token
  pub body : Result Buffer
  pub pick : Option ℕ
  pub write_error : Option Failure

-- The function of a handler: the number of the request, its body, and the buffer of the pool.
abbrev pub Fn : Type 0
Fn = ℕ → Buffer → Option Buffer → M Service Reply

-- `GetNextHTTPRequestID`
abbrev pub get_next_http_request_id : M Service ℕ
get_next_http_request_id s =
    let id = (s.http_request_id + 1) % 2 ^ 64 in returns id (record s { http_request_id = id })

-- A check that ends the request with a status and an error.
abbrev pub first : Option (ℕ × Failure) → Option (ℕ × Failure) → Option (ℕ × Failure)
first none b = b
first (some a) b = some a

abbrev pub method_refusal : String → String → ℕ → Option (ℕ × Failure)
method_refusal asked allowed id =
    if str_eq asked allowed then none else some (405, new_typed http_method_not_allowed_error id)

abbrev pub unauthorized : Option Failure → Option (ℕ × Failure)
unauthorized none = none
unauthorized (some e) = some (401, e)

abbrev pub token_failure : Result Claims → Option (ℕ × Failure)
token_failure (ok c) = none
token_failure (failed e) = some (401, e)

module _ {Token : Type 0} (parse : ℕ → Token → String → Parsed)
    (sign : Claims → String → Signed Token) (authenticate : String → String → Directory)
    (pr : Printing) where
  unfoldable pub user_refusal : AuthConfig → ℕ → Option (String × String) → Option (ℕ × Failure)
  user_refusal cfg id none = some (401, new_typed http_auth_basic_not_set_error id)
  user_refusal cfg id (some (u, p)) =
      unauthorized (check_authentication parse sign authenticate cfg id u p)

  abbrev pub basic_refusal : AuthConfig → ℕ → Option (String × String) → Option (ℕ × Failure)
  basic_refusal cfg id basic =
      if (str_eq cfg.auth_type "INTERNAL" || str_eq cfg.auth_type "MSAD") && not cfg.use_jwt
      then user_refusal cfg id basic
      else none

  unfoldable pub cookie_refusal : AuthConfig → ℕ → ℕ → Result Token → Option (ℕ × Failure)
  cookie_refusal cfg now id (failed e) =
      some (401, with_cause_typed http_auth_jwt_not_set_error id e)
  cookie_refusal cfg now id (ok token) =
      token_failure (check_jwt parse sign now id token cfg.jwt_key)

  abbrev pub jwt_refusal : AuthConfig → ℕ → ℕ → Result Token → Option (ℕ × Failure)
  jwt_refusal cfg now id cookie = if cfg.use_jwt then cookie_refusal cfg now id cookie else none

  -- The checks of `Process` before the body is read.
  unfoldable pub refusal : AuthConfig → ℕ → ℕ → String → Request Token → Option (ℕ × Failure)
  unfolding user_refusal cookie_refusal
  refusal cfg now id allowed r =
      first (method_refusal r.method allowed id)
        (first (basic_refusal cfg id r.basic_auth) (jwt_refusal cfg now id r.cookie))

  -- `s.processError(myerr, w, r, status, requestID); return myerr`
  unfoldable pub fail : ℕ → ℕ → Failure → List (List ℕ) → M Service (Option Failure)
  fail id status e bufs = process_error pr (some e) status id bufs >> pure (some e)

  abbrev pub taken : Option ℕ → Option BytesPool → M Service (Option Buffer)
  taken pick none s = returns none s
  taken pick (some p) s =
      let (b, q) = get_buf pick p in returns (some b) (record s { bytes_pool = some q })

  unfoldable pub pooled_buf : Bool → Option ℕ → M Service (Option Buffer)
  pooled_buf ignore_buf_pool pick s =
      if not ignore_buf_pool && s.cfg.use_buf_pool
      then taken pick s.bytes_pool s
      else returns none s

  abbrev pub bytes_of : Option Buffer → List ℕ
  bytes_of none = []
  bytes_of (some b) = b.bytes

  abbrev pub bufs_of : Option Buffer → List (List ℕ)
  bufs_of none = []
  bufs_of (some b) = b.bytes ∷ []

  -- `for key, h := range header { w.Header().Set(key, h) }`, in some order of the map.
  abbrev pub set_headers : List (String × HeaderValue) → M Service (Unit {0})
  set_headers [] = skip
  set_headers ((k, v) ∷ hs) = send (set_header k v) >> set_headers hs

  abbrev pub or_nil : Option (List (String × HeaderValue)) → List (String × HeaderValue)
  or_nil none = []
  or_nil (some hs) = hs

  abbrev pub hsts : M Service (Unit {0})
  hsts s =
      if s.cfg.use_hsts
      then send
          (add_header "Strict-Transport-Security" (constant "max-age=63072000; includeSubDomains"))
          s
      else returns tt s

  unfoldable pub write_failed : ℕ → Option Failure → M Service (Option Failure)
  write_failed id none = pure none
  write_failed id (some e) = fail id 500 (with_cause_typed http_request_write_error id e) []

  -- `if responseBuf != nil && len(responseBuf) > 0`
  unfoldable pub write_body : ℕ → Option Failure → List ℕ → M Service (Option Failure)
  unfolding write_failed
  write_body id write_error [] = pure none
  write_body id write_error (b ∷ bs) = send (write (bytes (b ∷ bs))) >> write_failed id write_error

  unfoldable pub write_reply : ℕ → Option Failure → Reply → M Service (Option Failure)
  unfolding send_status write_body
  write_reply id write_error reply =
      set_headers (or_nil reply.header)
      >> hsts
      >> send_status reply.status
      >> write_body id write_error (bytes_of reply.response_buf)

  abbrev pub put_in : Buffer → Option BytesPool → Option BytesPool
  put_in b none = none
  put_in b (some p) = some (put_buf b p)

  abbrev pub put_back : Buffer → M Service (Unit {0})
  put_back b = modify (λ s. record s { bytes_pool = put_in b s.bytes_pool })

  abbrev pub fits : HttpConfig → Buffer → Bool
  fits cfg b = leb cfg.buf_pooled_size b.cap && leb b.cap cfg.buf_pooled_max_size

  -- The answer, with the deferred `PutBuf` if the buffer of the response goes to the pool.
  unfoldable pub respond :
      Bool → ℕ → Option Failure → Option Buffer → Option Buffer → Reply → M Service (Option Failure)
  unfolding write_reply
  respond ignore_buf_pool id write_error none buf reply s = write_reply id write_error reply s
  respond ignore_buf_pool id write_error (some b) buf reply s =
      if not ignore_buf_pool
        && is_some buf
        && s.cfg.use_buf_pool
        && is_some s.bytes_pool
        && fits s.cfg b
      then defer (put_back b) (write_reply id write_error reply) s
      else write_reply id write_error reply s

  unfoldable pub replied :
      Bool
      → ℕ
      → Option Failure
      → Option Buffer
      → Option Failure
      → Reply
      → M Service (Option Failure)
  unfolding respond
  replied ignore_buf_pool id write_error buf (some e) reply =
      fail id reply.status e (bufs_of reply.response_buf)
  replied ignore_buf_pool id write_error buf none reply =
      respond ignore_buf_pool id write_error reply.response_buf buf reply

  unfoldable pub after_read :
      Bool → ℕ → Request Token → Fn → Result Buffer → M Service (Option Failure)
  unfolding pooled_buf replied
  after_read ignore_buf_pool id r fn (failed e) =
      fail id 500 (with_cause_typed http_body_read_error id e) []
  after_read ignore_buf_pool id r fn (ok body) = pooled_buf ignore_buf_pool r.pick >>= λ buf.
      fn id body buf >>= λ reply. replied ignore_buf_pool id r.write_error buf reply.err reply

  unfoldable pub after_checks :
      Bool → ℕ → Request Token → Fn → Option (ℕ × Failure) → M Service (Option Failure)
  unfolding after_read
  after_checks ignore_buf_pool id r fn (some (status, e)) = fail id status e []
  after_checks ignore_buf_pool id r fn none = after_read ignore_buf_pool id r fn r.body

  -- `Process`, at the time `now`.
  unfoldable pub process : Bool → String → ℕ → Request Token → Fn → M Service (Option Failure)
  unfolding after_checks refusal
  process ignore_buf_pool allowed now r fn = get_next_http_request_id >>= λ id s.
      after_checks ignore_buf_pool id r fn (refusal s.cfg.auth now id allowed r) s
