-- ===== src/Examples/Settings.antt =====
-- The theorems about the configuration and the tokens at concrete ones.
use goapp.Base.{
  ℕ, pos, true, false, Option, none, some, String, ◌≡◌, refl, arith, ltb, if◌then◌else◌, ◌↔◌,
}
use goapp.Errors.{Failure, foreign, with_cause_typed, http_auth_jwt_expired_error, ok}
use goapp.AppConfig.{AppSettings, Settings, validate_config, replace_cfg_args_env}
use goapp.AppConfig.Load.{Decoded, load_yaml_config, replace_all}
use goapp.AppConfig.Validity.{IsValid, validate_config-IsValid}
use goapp.AppConfig.Precedence.{Loaded, load_yaml_config-Loaded}
use goapp.HttpAuth.{
  Claims, Parsed, parsed, parse_error, Signed, signed, Cookie, create_jwt_cookie, create_jwt,
}
use goapp.HttpAuth.Handlers.{
  AuthConfig, Directory, status, error_sent, singing_handler, jwt_refresh_handler,
  check_authentication, sent,
}
use goapp.HttpAuth.Laws.{
  ReadsItsTokens, singing_handler-cookie, jwt_refresh_handler-renews, jwt_refresh_handler-refuses,
}

abbrev given : Settings
given = record {
  config_file_name = "app.yaml";
  http_listen_spec = "";
  user = "john";
  pass = "secret";
  secret_key = "key";
  log_level = "INFO";
  log_file = "";
  pg_host = "";
  pg_port = "";
  pg_db_name = "";
  pg_user = "";
  pg_pass = "";
}

abbrev settings : AppSettings
settings = record {
  config_file = "";
  args = given;
  env = record given { http_listen_spec = "127.0.0.1:3000" };
  logger_cfg = record { global_level = "DEBUG"; global_filename = "app.log" };
  listen_spec = "";
  http_service_cfg = record {
    use_jwt = true;
    auth_type = "INTERNAL";
    http_user = "";
    http_pass = "";
    jwt_key_str = "";
    jwt_key = "";
  };
}

validate_config-IsValid_example : (validate_config settings ≡ none) ↔ IsValid settings
validate_config-IsValid_example = validate_config-IsValid settings

abbrev as_it_is : String → AppSettings → Decoded
as_it_is file_name c = record { decoded_cfg = c; decode_err = none }

abbrev named : AppSettings
named = record settings { config_file = "app.yaml" }

load_yaml_config-Loaded_example :
    Loaded given
      (record given { http_listen_spec = "127.0.0.1:3000" })
      (as_it_is "app.yaml" named)
      (replace_all named)
unfolding load_yaml_config validate_config replace_all replace_cfg_args_env
load_yaml_config-Loaded_example =
    load_yaml_config-Loaded (λ n. false) (λ n. none) as_it_is "app.yaml" settings
      (replace_all named) refl refl refl

-- A library whose tokens are the claims themselves.
abbrev plain_sign : Claims → String → Signed Claims
plain_sign c key = signed c

abbrev plain_parse : ℕ → Claims → String → Parsed
plain_parse now t key = if ltb t.expires_at now then parse_error (foreign 9) else parsed t true

same_claims : (c t : Claims) (key : String) → plain_sign c key ≡ signed t → c ≡ t
same_claims c t key e = cc

plain-ReadsItsTokens : ReadsItsTokens plain_parse plain_sign
plain-ReadsItsTokens = record {
  reads_valid = λ now c t key s l.
      let same = same_claims c t key s in
      let young : ltb t.expires_at now ≡ false = ground arith in rw (young, same) refl;
  refuses_old = λ now c t key s z l.
      let same = same_claims c t key s in
      let old : ltb t.expires_at now ≡ true = ground arith in (foreign 9, rw old refl);
}

abbrev everyone : String → String → Directory
everyone user pass = status true

abbrev auth_cfg : AuthConfig
auth_cfg = record {
  auth_type = "INTERNAL";
  http_user = "john";
  http_pass = "secret";
  use_jwt = true;
  jwt_expires_at = pos 60;
  jwt_key = "key";
}

abbrev cookie : Cookie Claims
cookie = record { value = record { username = "john"; expires_at = 160 }; expires = some 160 }

abbrev john : Option (String × String)
john = some ("john", "secret")

singing_handler-cookie_example :
    (u : String) × (p : String) × (john ≡ some (u, p))
    × (check_authentication plain_parse plain_sign everyone auth_cfg 5 u p ≡ none)
    × (plain_sign (record { username = u; expires_at = 160 }) "key" ≡ signed cookie.value)
unfolding singing_handler check_authentication create_jwt_cookie create_jwt
singing_handler-cookie_example =
    singing_handler-cookie plain_parse plain_sign everyone auth_cfg 100 5 john cookie refl

jwt_refresh_handler-renews_example :
    jwt_refresh_handler plain_parse plain_sign everyone auth_cfg 150 6 (ok cookie.value)
    ≡ sent (
        create_jwt_cookie plain_parse plain_sign 150
          (record { username = "john"; expires_at = 160 })
          (pos 60)
          "key")
unfolding singing_handler check_authentication create_jwt_cookie create_jwt
jwt_refresh_handler-renews_example =
    jwt_refresh_handler-renews plain_parse plain_sign everyone auth_cfg 100 150 5 6 "john" "secret"
      cookie plain-ReadsItsTokens refl (omega arith)

jwt_refresh_handler-refuses_example :
    (e : Failure) × (jwt_refresh_handler plain_parse plain_sign everyone auth_cfg 161 6
        (ok cookie.value)
      ≡ error_sent 401 (with_cause_typed http_auth_jwt_expired_error 6 e))
unfolding singing_handler check_authentication create_jwt_cookie create_jwt
jwt_refresh_handler-refuses_example =
    jwt_refresh_handler-refuses plain_parse plain_sign everyone auth_cfg 100 161 5 6 "john" "secret"
      cookie plain-ReadsItsTokens refl (omega arith) (omega arith)
