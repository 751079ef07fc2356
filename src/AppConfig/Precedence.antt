-- ===== src/AppConfig/Precedence.antt =====
-- Which value of a parameter wins: the command line, then the environment, then the file.
use goapp.Base.{
  Bool, Option, none, some, List, [], ◌∷◌, String, ◌≡◌, refl, arith, if◌then◌else◌, Bool-cases, inl,
  inr, ap, subst, subst,
}
use goapp.Errors.{Failure}
use goapp.AppConfig.{AppSettings, Settings, validate_config, replace_cfg_args_env, is_empty_text}
use goapp.AppConfig.Load.{Decoded, load_yaml_config, replace_all, opened, decoded}
use goapp.AppConfig.Validity.{IsValid, validate_config-IsValid}

-- The first text that is not empty, or the default.
abbrev pub first_given : List String → String → String
first_given [] d = d
first_given (s ∷ ss) d = if is_empty_text s then first_given ss d else s

replace-first_given :
    (cfg args env : String) → replace_cfg_args_env cfg args env ≡ first_given (args ∷ env ∷ []) cfg
unfolding replace_cfg_args_env
replace-first_given cfg args env = ground arith

-- The parameters of `c` are those of the command line `args`, the environment `env` and the file's
-- configuration `d` by this rule.
pub record Follows (args env : Settings) (d c : AppSettings) : Type 0 where
  pub listen_spec :
      c.listen_spec ≡ first_given (args.http_listen_spec ∷ env.http_listen_spec ∷ []) d.listen_spec
  pub http_user :
      c.http_service_cfg.http_user
      ≡ first_given (args.user ∷ env.user ∷ []) d.http_service_cfg.http_user
  pub http_pass :
      c.http_service_cfg.http_pass
      ≡ first_given (args.pass ∷ env.pass ∷ []) d.http_service_cfg.http_pass
  pub jwt_key_str :
      c.http_service_cfg.jwt_key_str
      ≡ first_given (args.secret_key ∷ env.secret_key ∷ []) d.http_service_cfg.jwt_key_str
  pub jwt_key : c.http_service_cfg.jwt_key ≡ c.http_service_cfg.jwt_key_str
  pub global_level :
      c.logger_cfg.global_level
      ≡ first_given (args.log_level ∷ env.log_level ∷ []) d.logger_cfg.global_level
  pub global_filename :
      c.logger_cfg.global_filename
      ≡ first_given (args.log_file ∷ env.log_file ∷ []) d.logger_cfg.global_filename
  pub other_http :
      (c.http_service_cfg.use_jwt ≡ d.http_service_cfg.use_jwt)
      × (c.http_service_cfg.auth_type ≡ d.http_service_cfg.auth_type)
  pub same_args : c.args ≡ args
  pub same_env : c.env ≡ env

replace_all-Follows : (d : AppSettings) → Follows d.args d.env d (replace_all d)
unfolding replace_all
replace_all-Follows d = record {
  listen_spec = replace-first_given d.listen_spec d.args.http_listen_spec d.env.http_listen_spec;
  http_user = replace-first_given d.http_service_cfg.http_user d.args.user d.env.user;
  http_pass = replace-first_given d.http_service_cfg.http_pass d.args.pass d.env.pass;
  jwt_key_str =
      replace-first_given d.http_service_cfg.jwt_key_str d.args.secret_key d.env.secret_key;
  jwt_key = refl;
  global_level = replace-first_given d.logger_cfg.global_level d.args.log_level d.env.log_level;
  global_filename = replace-first_given d.logger_cfg.global_filename d.args.log_file d.env.log_file;
  other_http = (refl, refl);
  same_args = refl;
  same_env = refl;
}

-- What a loading without an error gives.
abbrev pub Loaded : Settings → Settings → Decoded → AppSettings → Type 0
Loaded args env d c = (d.decode_err ≡ none) × Follows args env d.decoded_cfg c × IsValid c

decoded-Loaded :
    (d : Decoded) (e : Option Failure) (c : AppSettings)
    → d.decode_err ≡ e
    → decoded d e ≡ (none, c)
    → Loaded d.decoded_cfg.args d.decoded_cfg.env d c
unfolding decoded
decoded-Loaded d (some x) c h r = cc
decoded-Loaded d none c h r =
    let valid : validate_config (replace_all d.decoded_cfg) ≡ none = ap (λ p. p.0) r in
    let same : replace_all d.decoded_cfg ≡ c = ap (λ p. p.1) r in
    (
      h,
      rw (← same) (replace_all-Follows d.decoded_cfg),
      rw (← same) ((validate_config-IsValid (replace_all d.decoded_cfg)).0 valid),
    )

opened-Loaded :
    (c v : AppSettings) (e : Option Failure) (d : Decoded)
    → opened c e d ≡ (none, v)
    → Loaded d.decoded_cfg.args d.decoded_cfg.env d v
unfolding opened
opened-Loaded c v (some x) d r = cc (ap (λ p. p.0) r)
opened-Loaded c v none d r = decoded-Loaded d d.decode_err v refl r

module _ (is_missing : String → Bool) (open_err : String → Option Failure)
    (decode : String → AppSettings → Decoded) where
  Loaded-by_decoded :
      (file_name : String) (cfg c : AppSettings)
      → load_yaml_config is_missing open_err decode file_name cfg ≡ (none, c)
      → (let d = decode file_name (record cfg { config_file = file_name }) in
          Loaded d.decoded_cfg.args d.decoded_cfg.env d c)
  unfolding load_yaml_config
  Loaded-by_decoded file_name cfg c r = elim (Bool-cases (is_empty_text file_name)) [
    | inl e ↦ cc (ap (λ p. p.0) (rw e at r))
    | inr e ↦ elim (Bool-cases (is_missing file_name)) [
      | inl m ↦ cc (ap (λ p. p.0) (rw (e, m) at r))
      | inr m ↦
          opened-Loaded (record cfg { config_file = file_name }) c (open_err file_name)
            (decode file_name (record cfg { config_file = file_name })) (rw (e, m) at r)
    ]
  ]

  -- A loading that reports no error, of a file that gives none of the keys `args_*` and `env_*`, leaves a
  -- valid configuration, in which each parameter is the first one given by the command line and the
  -- environment of the call, and by the decoded file, in this order.
  pub load_yaml_config-Loaded :
      (file_name : String) (cfg c : AppSettings)
      → (decode file_name (record cfg { config_file = file_name })).decoded_cfg.args ≡ cfg.args
      → (decode file_name (record cfg { config_file = file_name })).decoded_cfg.env ≡ cfg.env
      → load_yaml_config is_missing open_err decode file_name cfg ≡ (none, c)
      → Loaded cfg.args cfg.env (decode file_name (record cfg { config_file = file_name })) c
  load_yaml_config-Loaded file_name cfg c a b r =
      let d = decode file_name (record cfg { config_file = file_name }) in
      subst (λ x. Loaded x cfg.env d c) a
        (subst (λ x. Loaded d.decoded_cfg.args x d c) b (Loaded-by_decoded file_name cfg c r))
