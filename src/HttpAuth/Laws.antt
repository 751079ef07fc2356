-- ===== src/HttpAuth/Laws.antt =====
-- Who gets a token, and how long it can be renewed.
use goapp.Base.{
  ℕ, zero, suc, ◌+◌, ◌≤◌, ◌<◌, ℤ, pos, negsuc, true, Option, none, some, String, ◌≡◌, refl, arith,
  ◌∙◌, ap, Bool-cases, inl, inr,
}
use goapp.Errors.{Failure, http_auth_jwt_expired_error, with_cause_typed, ok}
use goapp.HttpAuth.{
  Claims, Parsed, parsed, parse_error, Signed, signed, sign_error, Cookie, check_jwt, create_jwt,
  create_jwt_cookie, cookie_of, checked, checked_valid,
}
use goapp.HttpAuth.Handlers.{
  AuthConfig, Directory, cookie_sent, error_sent, check_authentication, singing_handler,
  jwt_refresh_handler, signed_in, refreshed, token_refreshed, sent,
}

-- What the token library promises of the tokens that it has signed.
pub record ReadsItsTokens {Token : Type 0} (parse : ℕ → Token → String → Parsed)
    (sign : Claims → String → Signed Token) : Type 0 where
  pub reads_valid :
      (now : ℕ) (c : Claims) (t : Token) (key : String)
      → sign c key ≡ signed t
      → now ≤ c.expires_at
      → parse now t key ≡ parsed c true
  pub refuses_old :
      (now : ℕ) (c : Claims) (t : Token) (key : String)
      → sign c key ≡ signed t
      → 0 < c.expires_at
      → c.expires_at < now
      → (e : Failure) × (parse now t key ≡ parse_error e)

-- How long a token lives: not at all, if no time is set.
abbrev pub lifetime : ℤ → ℕ
lifetime (pos n) = n
lifetime (negsuc n) = 0

module _ {Token : Type 0} (parse : ℕ → Token → String → Parsed)
    (sign : Claims → String → Signed Token) (authenticate : String → String → Directory)
    (cfg : AuthConfig) where
  cookie_signed :
      (o : Signed Token) (expires : Option ℕ) (c : Cookie Token)
      → sent (cookie_of parse sign expires o) ≡ cookie_sent c
      → o ≡ signed c.value
  unfolding sent cookie_of
  cookie_signed (signed t) expires c e = ground arith
  cookie_signed (sign_error f) expires c e = cc

  create-signed :
      (life : ℤ) (now : ℕ) (claims : Claims) (key : String) (c : Cookie Token)
      → sent (create_jwt_cookie parse sign now claims life key) ≡ cookie_sent c
      → sign (record claims { expires_at = now + lifetime life }) key ≡ signed c.value
  unfolding create_jwt_cookie create_jwt
  create-signed (pos zero) now claims key c e =
      ap (λ x. sign (record claims { expires_at = x }) key) (omega arith)
      ∙ cookie_signed (sign (record claims { expires_at = now }) key) none c e
  create-signed (pos (suc n)) now claims key c e = cookie_signed _ (some (now + suc n)) c e
  create-signed (negsuc n) now claims key c e =
      ap (λ x. sign (record claims { expires_at = x }) key) (omega arith)
      ∙ cookie_signed (sign (record claims { expires_at = now }) key) none c e

  abbrev pub claims_of : ℕ → String → Claims
  claims_of now username = record {
    username = username;
    expires_at = now + lifetime cfg.jwt_expires_at;
  }

  signed_in-cookie :
      (now : ℕ) (username : String) (o : Option Failure) (c : Cookie Token)
      → signed_in parse sign authenticate cfg now username o ≡ cookie_sent c
      → (o ≡ none)
        × (cfg.use_jwt ≡ true)
        × (sign (claims_of now username) cfg.jwt_key ≡ signed c.value)
  unfolding signed_in
  signed_in-cookie now username (some e) c h = cc
  signed_in-cookie now username none c h = elim (Bool-cases cfg.use_jwt) [
    | inl u ↦ (
      refl,
      u,
      create-signed cfg.jwt_expires_at now (record { username = username; expires_at = 0 })
          cfg.jwt_key c (rw u at h),
    )
    | inr n ↦ cc (rw n at h)
  ]

  -- Who gets a token from `SingingHandler` gave a user and a password that the authentication accepts,
  -- and the token is signed for this user and for the lifetime of the configuration.
  pub singing_handler-cookie :
      (now req_id : ℕ) (basic : Option (String × String)) (c : Cookie Token)
      → singing_handler parse sign authenticate cfg now req_id basic ≡ cookie_sent c
      → (u : String) × (p : String) × (basic ≡ some (u, p))
        × (check_authentication parse sign authenticate cfg req_id u p ≡ none)
        × (sign (claims_of now u) cfg.jwt_key ≡ signed c.value)
  unfolding singing_handler
  singing_handler-cookie now req_id none c h = cc
  singing_handler-cookie now req_id (some (u, p)) c h =
      let (a, b, s) =
        signed_in-cookie now u (check_authentication parse sign authenticate cfg req_id u p) c h in
      (u, p, refl, a, s)

  uses_jwt :
      (now req_id : ℕ) (u p : String) (c : Cookie Token)
      → singing_handler parse sign authenticate cfg now req_id (some (u, p)) ≡ cookie_sent c
      → (cfg.use_jwt ≡ true) × (sign (claims_of now u) cfg.jwt_key ≡ signed c.value)
  unfolding singing_handler
  uses_jwt now req_id u p c h =
      let (a, b, s) =
        signed_in-cookie now u (check_authentication parse sign authenticate cfg req_id u p) c h in
      (b, s)

  refresh_valid :
      (now req_id : ℕ) (token : Token) (claims : Claims)
      → cfg.use_jwt ≡ true
      → parse now token cfg.jwt_key ≡ parsed claims true
      → jwt_refresh_handler parse sign authenticate cfg now req_id (ok token)
        ≡ sent (create_jwt_cookie parse sign now claims cfg.jwt_expires_at cfg.jwt_key)
  unfolding jwt_refresh_handler token_refreshed refreshed check_jwt checked checked_valid
  refresh_valid now req_id token claims u e = rw (u, e) refl

  refresh_old :
      (now req_id : ℕ) (token : Token) (f : Failure)
      → cfg.use_jwt ≡ true
      → parse now token cfg.jwt_key ≡ parse_error f
      → jwt_refresh_handler parse sign authenticate cfg now req_id (ok token)
        ≡ error_sent 401 (with_cause_typed http_auth_jwt_expired_error req_id f)
  unfolding jwt_refresh_handler token_refreshed refreshed check_jwt checked checked_valid
  refresh_old now req_id token f u e = rw (u, e) refl

  -- If the library reads its tokens, a token that `SingingHandler` gave out can be renewed by
  -- `JWTRefreshHandler` until its lifetime is over, for the same user and for another lifetime.
  pub jwt_refresh_handler-renews :
      (now later req_id next_id : ℕ) (u p : String) (c : Cookie Token)
      → ReadsItsTokens parse sign
      → singing_handler parse sign authenticate cfg now req_id (some (u, p)) ≡ cookie_sent c
      → later ≤ now + lifetime cfg.jwt_expires_at
      → jwt_refresh_handler parse sign authenticate cfg later next_id (ok c.value)
        ≡ sent (create_jwt_cookie parse sign later (claims_of now u) cfg.jwt_expires_at cfg.jwt_key)
  jwt_refresh_handler-renews now later req_id next_id u p c lib h l =
      let (j, s) = uses_jwt now req_id u p c h in
      refresh_valid later next_id c.value (claims_of now u) j
        (lib.reads_valid later (claims_of now u) c.value cfg.jwt_key s l)

  -- If the library reads its tokens, a token that `SingingHandler` gave out behind the time 0 is refused
  -- as expired as soon as the clock is behind its lifetime, which is 0 if the configuration has none.
  pub jwt_refresh_handler-refuses :
      (now later req_id next_id : ℕ) (u p : String) (c : Cookie Token)
      → ReadsItsTokens parse sign
      → singing_handler parse sign authenticate cfg now req_id (some (u, p)) ≡ cookie_sent c
      → 0 < now
      → now + lifetime cfg.jwt_expires_at < later
      → (e : Failure) × (jwt_refresh_handler parse sign authenticate cfg later next_id (ok c.value)
          ≡ error_sent 401 (with_cause_typed http_auth_jwt_expired_error next_id e))
  jwt_refresh_handler-refuses now later req_id next_id u p c lib h z l =
      let (j, s) = uses_jwt now req_id u p c h in
      let (e, r) = lib.refuses_old later (claims_of now u) c.value cfg.jwt_key s (omega arith) l in
      (e, refresh_old later next_id c.value e j r)
