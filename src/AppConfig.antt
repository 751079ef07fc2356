-- ===== src/AppConfig.antt =====
-- pkg/app/config/config.go: the configuration of the daemon, its checks and its loading. The parts of
-- the services' configurations that this file does not touch are left out.
pub mod Load
pub mod Validity
pub mod Precedence
use goapp.Base.{
  ℕ, Bool, true, false, not, ◌&&◌, ◌||◌, Option, none, some, String, str_eq, if◌then◌else◌,
}
use goapp.Errors.{
  Failure, new_typed, incorrect_log_level, empty_jwt_key, empty_http_user, incorrect_auth_type,
}

pub record LoggerConfig : Type 0 where
  pub global_level : String
  pub global_filename : String

pub record HttpServiceConfig : Type 0 where
  pub use_jwt : Bool
  pub auth_type : String
  pub http_user : String
  pub http_pass : String
  pub jwt_key_str : String
  pub jwt_key : String  -- the bytes of a text

-- The values of the command line, and those of the environment.
pub record Settings : Type 0 where
  pub config_file_name : String
  pub http_listen_spec : String
  pub user : String
  pub pass : String
  pub secret_key : String
  pub log_level : String
  pub log_file : String
  pub pg_host : String
  pub pg_port : String
  pub pg_db_name : String
  pub pg_user : String
  pub pg_pass : String

-- `Config`
pub record AppSettings : Type 0 where
  pub config_file : String
  pub args : Settings
  pub env : Settings
  pub logger_cfg : LoggerConfig
  pub listen_spec : String  -- of the HTTP server's part
  pub http_service_cfg : HttpServiceConfig

abbrev pub is_empty_text : String → Bool
is_empty_text s = str_eq s ""

abbrev pub is_level : String → Bool
is_level l = str_eq l "DEBUG" || str_eq l "ERROR" || str_eq l "INFO"

abbrev pub is_auth_type : String → Bool
is_auth_type a = str_eq a "NONE" || str_eq a "MSAD" || str_eq a "INTERNAL"

-- `ValidateConfig`
unfoldable pub validate_config : AppSettings → Option Failure
validate_config cfg =
    if not (is_level cfg.logger_cfg.global_level)
    then some (new_typed incorrect_log_level 0)
    else if cfg.http_service_cfg.use_jwt && is_empty_text cfg.args.secret_key
    then some (new_typed empty_jwt_key 0)
    else if str_eq cfg.http_service_cfg.auth_type "INTERNAL"
        && (is_empty_text cfg.args.user || is_empty_text cfg.args.pass)
    then some (new_typed empty_http_user 0)
    else if not (is_auth_type cfg.http_service_cfg.auth_type)
    then some (new_typed incorrect_auth_type 0)
    else none

-- `replaceCfgArgsEnv`: the value that it leaves in the configuration.
unfoldable pub replace_cfg_args_env : String → String → String → String
replace_cfg_args_env cfg_param args_param env_param =
    if not (is_empty_text args_param)
    then args_param
    else if is_empty_text args_param && not (is_empty_text env_param)
    then env_param
    else cfg_param
