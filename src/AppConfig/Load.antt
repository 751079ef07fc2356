-- ===== src/AppConfig/Load.antt =====
-- pkg/app/config/config.go, `LoadYamlConfig`. The file system and the decoder are parameters.
use goapp.Base.{Bool, Option, none, some, String, if◌then◌else◌}
use goapp.Errors.{
  Failure, new_typed, with_cause_typed, empty_config_file, config_file_not_exists,
  config_file_load_error,
}
use goapp.AppConfig.{AppSettings, validate_config, replace_cfg_args_env, is_empty_text}

-- The configuration with its parameters replaced, in the order of the source.
unfoldable pub replace_all : AppSettings → AppSettings
replace_all c =
    let key =
      replace_cfg_args_env c.http_service_cfg.jwt_key_str c.args.secret_key c.env.secret_key in
    record c {
      listen_spec =
          replace_cfg_args_env c.listen_spec c.args.http_listen_spec c.env.http_listen_spec;
      http_service_cfg = record c.http_service_cfg {
        http_user = replace_cfg_args_env c.http_service_cfg.http_user c.args.user c.env.user;
        http_pass = replace_cfg_args_env c.http_service_cfg.http_pass c.args.pass c.env.pass;
        jwt_key_str = key;
        jwt_key = key;
      };
      logger_cfg = record {
        global_level =
            replace_cfg_args_env c.logger_cfg.global_level c.args.log_level c.env.log_level;
        global_filename =
            replace_cfg_args_env c.logger_cfg.global_filename c.args.log_file c.env.log_file;
      };
    }

-- What the decoder does to the configuration: it may fail halfway.
pub record Decoded : Type 0 where
  pub decoded_cfg : AppSettings
  pub decode_err : Option Failure

unfoldable pub decoded : Decoded → Option Failure → Option Failure × AppSettings
decoded d (some e) = (some (with_cause_typed config_file_load_error 0 e), d.decoded_cfg)
decoded d none = let c = replace_all d.decoded_cfg in (validate_config c, c)

unfoldable pub opened : AppSettings → Option Failure → Decoded → Option Failure × AppSettings
unfolding decoded
opened c (some e) d = (some e, c)
opened c none d = decoded d d.decode_err

-- Whether `os.Stat` says that there is no such file, the error of `os.Open`, and the decoder.
module _ (is_missing : String → Bool) (open_err : String → Option Failure)
    (decode : String → AppSettings → Decoded) where
  -- `LoadYamlConfig` at a pointer that is not nil: the error, and the configuration that it leaves.
  unfoldable pub load_yaml_config : String → AppSettings → Option Failure × AppSettings
  unfolding opened
  load_yaml_config file_name cfg =
      let c = record cfg { config_file = file_name } in
      if is_empty_text file_name
      then (some (new_typed empty_config_file 0), c)
      else if is_missing file_name
      then (some (new_typed config_file_not_exists 0), c)
      else opened c (open_err file_name) (decode file_name c)
