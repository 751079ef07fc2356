-- ===== src/AppConfig/Validity.antt =====
-- What the check of a configuration accepts.
use goapp.Base.{
  Bool, true, false, ◌&&◌, ◌||◌, none, String, str_eq, eq_iff, ◌≡◌, ◌≢◌, refl, ◌⊎◌, inl, inr, ◌↔◌,
  arith, Bool-cases,
}
use goapp.AppConfig.{AppSettings, validate_config, is_level, is_auth_type, is_empty_text}

-- A level and a way to authenticate that exist, a key on the command line where tokens are used, and a
-- user and a password there where the service checks them itself.
pub record IsValid (c : AppSettings) : Type 0 where
  pub level :
      (c.logger_cfg.global_level ≡ "DEBUG")
      ⊎ ((c.logger_cfg.global_level ≡ "ERROR") ⊎ (c.logger_cfg.global_level ≡ "INFO"))
  pub auth :
      (c.http_service_cfg.auth_type ≡ "NONE")
      ⊎ ((c.http_service_cfg.auth_type ≡ "MSAD") ⊎ (c.http_service_cfg.auth_type ≡ "INTERNAL"))
  pub key : c.http_service_cfg.use_jwt ≡ true → c.args.secret_key ≢ ""
  pub user_given : c.http_service_cfg.auth_type ≡ "INTERNAL" → c.args.user ≢ ""
  pub pass_given : c.http_service_cfg.auth_type ≡ "INTERNAL" → c.args.pass ≢ ""

clash : (b : Bool) → b ≡ true → b ≡ false → ⊥
clash true e f = cc
clash false e f = cc

three_of : (a b c : Bool) → a || b || c ≡ true → (a ≡ true) ⊎ ((b ≡ true) ⊎ (c ≡ true))
three_of true b c e = inl refl
three_of false true c e = inr (inl refl)
three_of false false true e = inr (inr refl)
three_of false false false e = cc

third_holds : (a b c : Bool) → (a ≡ true) ⊎ ((b ≡ true) ⊎ (c ≡ true)) → a || b || c ≡ true
third_holds a b c (inl e) = rw e refl
third_holds a b c (inr (inl e)) = ground arith
third_holds a b c (inr (inr e)) = ground arith

-- The test for one of three texts.
three_iff :
    (t x y z : String)
    → (str_eq t x || str_eq t y || str_eq t z ≡ true) ↔ ((t ≡ x) ⊎ ((t ≡ y) ⊎ (t ≡ z)))
three_iff t x y z = (
  λ e. elim (three_of (str_eq t x) (str_eq t y) (str_eq t z) e) [
    | inl h ↦ inl ((eq_iff t x).0 h)
    | inr (inl h) ↦ inr (inl ((eq_iff t y).0 h))
    | inr (inr h) ↦ inr (inr ((eq_iff t z).0 h))
  ],
  λ o. third_holds (str_eq t x) (str_eq t y) (str_eq t z) (elim o [
    | inl h ↦ inl ((eq_iff t x).1 h)
    | inr (inl h) ↦ inr (inl ((eq_iff t y).1 h))
    | inr (inr h) ↦ inr (inr ((eq_iff t z).1 h))
  ]),
)

-- The test that a text is missing where a condition asks for it.
missing_iff :
    (P : Type 0) (b : Bool) (t : String)
    → (b ≡ true) ↔ P
    → (b && is_empty_text t ≡ false) ↔ (P → t ≢ "")
missing_iff P true t h = (
  λ e p q. absurd (clash (str_eq t "") ((eq_iff t "").1 q) e),
  λ k. elim (Bool-cases (str_eq t "")) [
    | inl m ↦ absurd (k (h.0 refl) ((eq_iff t "").0 m))
    | inr m ↦ m
  ],
)
missing_iff P false t h = (λ e p q. absurd (clash false (h.1 p) refl), λ k. refl)

-- The same, by the tests of the code.
record Checks (c : AppSettings) : Type 0 where
  level_ok : is_level c.logger_cfg.global_level ≡ true
  auth_ok : is_auth_type c.http_service_cfg.auth_type ≡ true
  key_ok : (c.http_service_cfg.use_jwt && is_empty_text c.args.secret_key) ≡ false
  user_ok : (str_eq c.http_service_cfg.auth_type "INTERNAL" && is_empty_text c.args.user) ≡ false
  pass_ok : (str_eq c.http_service_cfg.auth_type "INTERNAL" && is_empty_text c.args.pass) ≡ false

validate_config-Checks : (c : AppSettings) → (validate_config c ≡ none) ↔ Checks c
unfolding validate_config
validate_config-Checks c = (λ e. ground arith, λ v. ground arith)

Checks-IsValid : (c : AppSettings) → Checks c ↔ IsValid c
Checks-IsValid c =
    let level = three_iff c.logger_cfg.global_level "DEBUG" "ERROR" "INFO" in
    let auth = three_iff c.http_service_cfg.auth_type "NONE" "MSAD" "INTERNAL" in
    let key =
      missing_iff (c.http_service_cfg.use_jwt ≡ true) c.http_service_cfg.use_jwt c.args.secret_key
        (λ e. e, λ e. e) in
    let user =
      missing_iff (c.http_service_cfg.auth_type ≡ "INTERNAL") _ c.args.user
        (eq_iff c.http_service_cfg.auth_type "INTERNAL") in
    let pass =
      missing_iff (c.http_service_cfg.auth_type ≡ "INTERNAL") _ c.args.pass
        (eq_iff c.http_service_cfg.auth_type "INTERNAL") in
    (
      λ v. record {
        level = level.0 v.level_ok;
        auth = auth.0 v.auth_ok;
        key = key.0 v.key_ok;
        user_given = user.0 v.user_ok;
        pass_given = pass.0 v.pass_ok;
      },
      λ v. record {
        level_ok = level.1 v.level;
        auth_ok = auth.1 v.auth;
        key_ok = key.1 v.key;
        user_ok = user.1 v.user_given;
        pass_ok = pass.1 v.pass_given;
      },
    )

-- `ValidateConfig` accepts a configuration exactly if its level is DEBUG, ERROR or INFO, its way to
-- authenticate is NONE, MSAD or INTERNAL, the command line gives a key where tokens are used, and the
-- command line gives a user and a password where the way to authenticate is INTERNAL.
pub validate_config-IsValid : (c : AppSettings) → (validate_config c ≡ none) ↔ IsValid c
validate_config-IsValid c =
    let a = validate_config-Checks c in
    let b = Checks-IsValid c in (λ e. b.0 (a.0 e), λ v. a.1 (b.1 v))
