-- ===== src/HttpAuth.antt =====
-- pkg/common/jwt/jwt.go and pkg/common/httpservice/handler_auth.go: tokens, and the two handlers that
-- give them out. The token library and the directory server are parameters; a token is a text that
-- only the library reads, so that its type is one, too. Times are seconds, taken
-- as not negative and without the wrap-around of a duration.
pub mod Handlers
pub mod Laws
use goapp.Base.{
  ℕ, zero, suc, ◌+◌, ℤ, pos, negsuc, Bool, true, false, Option, none, some, String, str_eq,
  if◌then◌else◌, ◌||◌, not, is_pos,
}
use goapp.Errors.{
  Failure, new_typed, with_cause_typed, http_auth_jwt_invalid_error, http_auth_jwt_expired_error,
  Result, ok, failed,
}

-- `Claims`, of whose standard part only the expiry time is set; 0 is "not set".
pub record Claims : Type 0 where
  pub username : String
  pub expires_at : ℕ

-- What `jwt.ParseWithClaims` gives: the claims and whether the token is valid, `ErrSignatureInvalid`,
-- or another error.
pub data Parsed : Type 0 where
  parsed : Claims → Bool → Parsed
  bad_signature : Parsed
  parse_error : Failure → Parsed

-- What `SignedString` gives.
pub data Signed (Token : Type 0) : Type 0 where
  signed : Token → Signed Token
  sign_error : Failure → Signed Token

-- The cookie "token". `expires` is not set for a cookie of the session.
pub record Cookie (Token : Type 0) : Type 0 where
  pub value : Token
  pub expires : Option ℕ

unfoldable pub checked_valid : ℕ → Claims → Bool → Result Claims
checked_valid req_id c true = ok c
checked_valid req_id c false = failed (new_typed http_auth_jwt_expired_error req_id)

unfoldable pub checked : ℕ → Parsed → Result Claims
unfolding checked_valid
checked req_id (parsed c v) = checked_valid req_id c v
checked req_id bad_signature = failed (new_typed http_auth_jwt_invalid_error req_id)
checked req_id (parse_error e) = failed (with_cause_typed http_auth_jwt_expired_error req_id e)

-- `parse now token key` and `sign claims key`.
module _ {Token : Type 0} (parse : ℕ → Token → String → Parsed)
    (sign : Claims → String → Signed Token) where
  -- `CheckJWT`
  unfoldable pub check_jwt : ℕ → ℕ → Token → String → Result Claims
  unfolding checked
  check_jwt now req_id token key = checked req_id (parse now token key)

  -- `CreateJWT`
  unfoldable pub create_jwt : Claims → Option ℕ → String → Signed Token
  create_jwt claims none key = sign claims key
  create_jwt claims (some t) key = sign (record claims { expires_at = t }) key

  cookie_of : Option ℕ → Signed Token → Result (Cookie Token)
  cookie_of expires (signed token) = ok (record { value = token; expires = expires })
  cookie_of expires (sign_error e) = failed e

  -- `CreateJWTCookie`, at the time `now`.
  unfoldable pub create_jwt_cookie : ℕ → Claims → ℤ → String → Result (Cookie Token)
  unfolding cookie_of create_jwt
  create_jwt_cookie now claims (pos (suc n)) key =
      cookie_of (some (now + suc n)) (create_jwt claims (some (now + suc n)) key)
  create_jwt_cookie now claims (pos zero) key = cookie_of none (create_jwt claims (some now) key)
  create_jwt_cookie now claims (negsuc n) key = cookie_of none (create_jwt claims (some now) key)
