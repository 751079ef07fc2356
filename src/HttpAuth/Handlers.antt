-- ===== src/HttpAuth/Handlers.antt =====
-- pkg/common/httpservice/handler_auth.go: the check of a user, and the handlers `SingingHandler` and
-- `JWTRefreshHandler`.
use goapp.Base.{
  ℕ, ℤ, Bool, true, false, Option, none, some, String, str_eq, if◌then◌else◌, ◌||◌, not,
}
use goapp.Errors.{
  Failure, new_typed, with_cause_typed, http_auth_basic_error, http_auth_msad_invalid_error,
  http_auth_msad_error, incorrect_auth_type, http_auth_basic_not_set_error,
  http_auth_jwt_not_set_error, Result, ok, failed,
}
use goapp.HttpAuth.{Claims, Parsed, Signed, Cookie, check_jwt, create_jwt_cookie}

-- The part of `Config` of the HTTP service that the authentication reads.
pub record AuthConfig : Type 0 where
  pub auth_type : String
  pub http_user : String
  pub http_pass : String
  pub use_jwt : Bool
  pub jwt_expires_at : ℤ
  pub jwt_key : String

-- What `auth.Authenticate` gives.
pub data Directory : Type 0 where
  status : Bool → Directory
  directory_error : Failure → Directory

-- What a handler sends: nothing, a cookie, or an error with its HTTP status.
pub data Response (Token : Type 0) : Type 0 where
  nothing_sent : Response Token
  cookie_sent : Cookie Token → Response Token
  error_sent : ℕ → Failure → Response Token

unfoldable pub directory_checked : ℕ → Directory → Option Failure
directory_checked req_id (status true) = none
directory_checked req_id (status false) = some (new_typed http_auth_msad_error req_id)
directory_checked req_id (directory_error e) =
    some (with_cause_typed http_auth_msad_invalid_error req_id e)

unfoldable pub sent : {Token : Type 0} → Result (Cookie Token) → Response Token
sent (ok c) = cookie_sent c
sent (failed e) = error_sent 500 e

module _ {Token : Type 0} (parse : ℕ → Token → String → Parsed)
    (sign : Claims → String → Signed Token) (authenticate : String → String → Directory)
    (cfg : AuthConfig) where
  -- `checkAuthentication`
  unfoldable pub check_authentication : ℕ → String → String → Option Failure
  unfolding directory_checked
  check_authentication req_id username password =
      if str_eq cfg.auth_type "INTERNAL"
      then (if not (str_eq cfg.http_user username) || not (str_eq cfg.http_pass password)
          then some (new_typed http_auth_basic_error req_id)
          else none)
      else (if str_eq cfg.auth_type "MSAD"
          then directory_checked req_id (authenticate username password)
          else some (new_typed incorrect_auth_type req_id))

  unfoldable pub signed_in : ℕ → String → Option Failure → Response Token
  unfolding sent
  signed_in now username (some e) = error_sent 401 e
  signed_in now username none =
      if cfg.use_jwt
      then sent (
          create_jwt_cookie parse sign now (record { username = username; expires_at = 0 })
            cfg.jwt_expires_at cfg.jwt_key)
      else nothing_sent

  -- `SingingHandler`, with the user and the password of the request, if it has them.
  unfoldable pub singing_handler : ℕ → ℕ → Option (String × String) → Response Token
  unfolding signed_in
  singing_handler now req_id none = error_sent 401 (new_typed http_auth_basic_not_set_error req_id)
  singing_handler now req_id (some (username, password)) =
      signed_in now username (check_authentication req_id username password)

  unfoldable pub refreshed : ℕ → Result Claims → Response Token
  unfolding sent
  refreshed now (failed e) = error_sent 401 e
  refreshed now (ok claims) =
      sent (create_jwt_cookie parse sign now claims cfg.jwt_expires_at cfg.jwt_key)

  unfoldable pub token_refreshed : ℕ → ℕ → Result Token → Response Token
  unfolding refreshed
  token_refreshed now req_id (failed e) =
      error_sent 401 (with_cause_typed http_auth_jwt_not_set_error req_id e)
  token_refreshed now req_id (ok token) =
      refreshed now (check_jwt parse sign now req_id token cfg.jwt_key)

  -- `JWTRefreshHandler`, with the cookie "token" of the request, or the error of reading it.
  unfoldable pub jwt_refresh_handler : ℕ → ℕ → Result Token → Response Token
  unfolding token_refreshed
  jwt_refresh_handler now req_id token =
      if cfg.use_jwt then token_refreshed now req_id token else nothing_sent
