-- ===== src/HttpService/Guarded.antt =====
-- Which requests reach the function of a handler.
use goapp.Base.{
  ℕ, ◌+◌, ◌%◌, ◌^◌, Bool, true, false, Option, none, some, String, str_eq, eq_iff, ◌&&◌, ◌||◌, not,
  if◌then◌else◌, ◌≡◌, refl, ◌⊎◌, inl, inr, Bool-cases, Option-cases, arith,
}
use goapp.Errors.{Failure, Result, ok, failed}
use goapp.HttpAuth.{
  Claims, Parsed, parsed, bad_signature, parse_error, Signed, check_jwt, checked, checked_valid,
}
use goapp.HttpAuth.Handlers.{
  AuthConfig, Directory, status, directory_error, check_authentication, directory_checked,
}
use goapp.HttpService.{Service}
use goapp.HttpService.Errors.{Printing}
use goapp.HttpService.Process.{
  Request, Fn, first, method_refusal, unauthorized, token_failure, user_refusal, basic_refusal,
  cookie_refusal, jwt_refusal, refusal, after_checks, process,
}

module _ {Token : Type 0} (parse : ℕ → Token → String → Parsed)
    (sign : Claims → String → Signed Token) (authenticate : String → String → Directory)
    (pr : Printing) (cfg : AuthConfig) where
  -- The user and the password of the request are the ones of the configuration, or the directory
  -- server accepts them.
  abbrev pub KnownUser : Option (String × String) → Type 0
  KnownUser basic =
      (u : String) × (p : String) × (basic ≡ some (u, p))
      × (((cfg.auth_type ≡ "INTERNAL") × (cfg.http_user ≡ u) × (cfg.http_pass ≡ p))
          ⊎ ((cfg.auth_type ≡ "MSAD") × (authenticate u p ≡ status true)))

  -- The token in the cookie of the request is valid.
  abbrev pub ValidToken : ℕ → Result Token → Type 0
  ValidToken now cookie =
      (t : Token) × (c : Claims) × (cookie ≡ ok t) × (parse now t cfg.jwt_key ≡ parsed c true)

  -- A request that has the method of the handler and shows what the configuration asks for: a token, if
  -- tokens are in use, and else a user, if there is an authentication.
  abbrev pub Authorized : ℕ → String → Request Token → Type 0
  Authorized now allowed r =
      (r.method ≡ allowed)
      × (cfg.use_jwt ≡ true → ValidToken now r.cookie)
      × (cfg.use_jwt ≡ false
          → (cfg.auth_type ≡ "INTERNAL") ⊎ (cfg.auth_type ≡ "MSAD")
          → KnownUser r.basic_auth)

  first-none : (a b : Option (ℕ × Failure)) → first a b ≡ none → (a ≡ none) × (b ≡ none)
  first-none none b e = (refl, e)
  first-none (some a) b e = cc

  method_none :
      (asked allowed : String) (id : ℕ) → method_refusal asked allowed id ≡ none → asked ≡ allowed
  method_none asked allowed id e = elim (Bool-cases (str_eq asked allowed)) [
    | inl t ↦ (eq_iff asked allowed).0 t
    | inr f ↦ cc (rw f at e)
  ]

  unauthorized-none : (o : Option Failure) → unauthorized o ≡ none → o ≡ none
  unauthorized-none none e = refl
  unauthorized-none (some x) e = cc

  token_none : (r : Result Claims) → token_failure r ≡ none → (c : Claims) × (r ≡ ok c)
  token_none (ok c) e = (c, refl)
  token_none (failed x) e = cc

  checked_ok : (id : ℕ) (p : Parsed) (c : Claims) → checked id p ≡ ok c → p ≡ parsed c true
  unfolding checked checked_valid
  checked_ok id (parsed c true) d e = cc
  checked_ok id (parsed c false) d e = cc
  checked_ok id bad_signature d e = cc
  checked_ok id (parse_error x) d e = cc

  cookie_none :
      (now id : ℕ) (cookie : Result Token)
      → cookie_refusal parse sign authenticate pr cfg now id cookie ≡ none
      → ValidToken now cookie
  unfolding cookie_refusal check_jwt
  cookie_none now id (failed x) e = cc
  cookie_none now id (ok t) e =
      let (c, f) = token_none (check_jwt parse sign now id t cfg.jwt_key) e in
      (t, c, refl, checked_ok id (parse now t cfg.jwt_key) c f)

  directory_ok : (id : ℕ) (d : Directory) → directory_checked id d ≡ none → d ≡ status true
  unfolding directory_checked
  directory_ok id (status true) e = refl
  directory_ok id (status false) e = cc
  directory_ok id (directory_error x) e = cc

  internal_ok :
      (id : ℕ) (u p : String)
      → str_eq cfg.auth_type "INTERNAL" ≡ true
      → check_authentication parse sign authenticate cfg id u p ≡ none
      → (cfg.http_user ≡ u) × (cfg.http_pass ≡ p)
  unfolding check_authentication
  internal_ok id u p t e = ground (arith, rw t at e, eq_iff cfg.http_user u, eq_iff cfg.http_pass p)

  msad_ok :
      (id : ℕ) (u p : String)
      → str_eq cfg.auth_type "INTERNAL" ≡ false
      → check_authentication parse sign authenticate cfg id u p ≡ none
      → (cfg.auth_type ≡ "MSAD") × (authenticate u p ≡ status true)
  unfolding check_authentication
  msad_ok id u p f e = elim (Bool-cases (str_eq cfg.auth_type "MSAD")) [
    | inl t ↦
        ((eq_iff cfg.auth_type "MSAD").0 t, directory_ok id (authenticate u p) (rw (f, t) at e))
    | inr n ↦ cc (rw (f, n) at e)
  ]

  user_none :
      (id : ℕ) (basic : Option (String × String))
      → user_refusal parse sign authenticate pr cfg id basic ≡ none
      → KnownUser basic
  unfolding user_refusal
  user_none id none e = cc
  user_none id (some (u, p)) e =
      let a = unauthorized-none (check_authentication parse sign authenticate cfg id u p) e in
      elim (Bool-cases (str_eq cfg.auth_type "INTERNAL")) [
        | inl t ↦
            let (x, y) = internal_ok id u p t a in
            (u, p, refl, inl ((eq_iff cfg.auth_type "INTERNAL").0 t, x, y))
        | inr f ↦ (u, p, refl, inr (msad_ok id u p f a))
      ]

  branch_none :
      (b : Bool) (o : Option (ℕ × Failure)) → b ≡ true → (if b then o else none) ≡ none → o ≡ none
  branch_none true o t e = e
  branch_none false o t e = cc

  asks_user : (i m j : Bool) → (i ≡ true) ⊎ (m ≡ true) → j ≡ false → (i || m) && not j ≡ true
  asks_user i m j (inl t) f = rw (t, f) refl
  asks_user true m j (inr t) f = rw f refl
  asks_user false m j (inr t) f = rw (t, f) refl

  basic_none :
      (id : ℕ) (basic : Option (String × String))
      → basic_refusal parse sign authenticate pr cfg id basic ≡ none
      → cfg.use_jwt ≡ false
      → (cfg.auth_type ≡ "INTERNAL") ⊎ (cfg.auth_type ≡ "MSAD")
      → KnownUser basic
  basic_none id basic e j (inl t) = user_none id basic (
      branch_none _ _
        (asks_user (str_eq cfg.auth_type "INTERNAL") (str_eq cfg.auth_type "MSAD") cfg.use_jwt
          (inl ((eq_iff cfg.auth_type "INTERNAL").1 t)) j)
        e)
  basic_none id basic e j (inr t) = user_none id basic (
      branch_none _ _
        (asks_user (str_eq cfg.auth_type "INTERNAL") (str_eq cfg.auth_type "MSAD") cfg.use_jwt
          (inr ((eq_iff cfg.auth_type "MSAD").1 t)) j)
        e)

  jwt_none :
      (now id : ℕ) (cookie : Result Token)
      → jwt_refusal parse sign authenticate pr cfg now id cookie ≡ none
      → cfg.use_jwt ≡ true
      → ValidToken now cookie
  jwt_none now id cookie e j = cookie_none now id cookie (branch_none _ _ j e)

  refusal-none :
      (now id : ℕ) (allowed : String) (r : Request Token)
      → refusal parse sign authenticate pr cfg now id allowed r ≡ none
      → Authorized now allowed r
  unfolding refusal
  refusal-none now id allowed r e =
      let (m, f) = first-none (method_refusal r.method allowed id) _ e in
      let (b, j) = first-none (basic_refusal parse sign authenticate pr cfg id r.basic_auth) _ f in
      (method_none r.method allowed id m, jwt_none now id r.cookie j, basic_none id r.basic_auth b)

-- A request either is authorized, or the function of the handler is not called: whatever the function
-- would do, the answer and the state are the same.
pub process-Authorized :
    {Token : Type 0} (parse : ℕ → Token → String → Parsed) (sign : Claims → String → Signed Token)
    → (authenticate : String → String → Directory) (pr : Printing)
    → (ignore : Bool) (allowed : String) (now : ℕ) (r : Request Token) (s : Service)
    → ((fn fn' : Fn)
        → process parse sign authenticate pr ignore allowed now r fn s
          ≡ process parse sign authenticate pr ignore allowed now r fn' s)
      ⊎ Authorized parse sign authenticate pr s.cfg.auth now allowed r
unfolding process after_checks
process-Authorized parse sign authenticate pr ignore allowed now r s =
    elim (Option-cases (
      refusal parse sign authenticate pr s.cfg.auth now ((s.http_request_id + 1) % 2 ^ 64) allowed
        r)) [
          | inl n ↦ inr (refusal-none parse sign authenticate pr s.cfg.auth now _ allowed r n)
          | inr (x, e) ↦ inl (λ fn fn'. rw e refl)
        ]
