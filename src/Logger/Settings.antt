-- ===== src/Logger/Settings.antt =====
-- What `SetGlobalConfig` leaves behind.
use mathlib.Core.Bool.{false≢true}
use goapp.Base.{
  ℕ, Bool, true, false, ◌&&◌, Option, none, some, List, [], ◌∷◌, String, str_eq, leb, if◌then◌else◌,
  is_some, ◌≡◌, refl, sym, subst, ap, ◌∙◌, if_cases,
}
use goapp.Errors.{Failure, Result, ok, failed}
use goapp.Logger.{
  CoreConfig, LogSettings, Target, Core, Global, parse_zap_level, targets_of, new_file_logger,
  rolling, opened_file, opened_address, open_target, with_core, with_target, build, stack_level,
  built, after_options, new_zap_logger, close_logger, assigned, with_level, set_global_config,
  check_logger, check, cores_of, log, g_zap_def_logger, new_zap_core,
}
use goapp.Logger.Targets.{IsLevelOf, wanted, AreCores, build-AreCores, check_targets}

-- The level and the settings that a step leaves.
abbrev Has : ℕ → LogSettings → Global → Type 0
Has n c g = (g.g_zap_global_level ≡ n) × (g.g_log_cfg ≡ c)

module _ (parse_level : String → Result ℕ) (open_err : String → Option Failure)
    (level_of : List Core → ℕ) (n : ℕ) (c : LogSettings) where
  rolling-Has :
      (prefix : String) (f : Option String) (g : Global)
      → Has n c g
      → Has n c (rolling parse_level open_err level_of prefix f g).1
  unfolding rolling new_file_logger
  rolling-Has prefix none g h = h
  rolling-Has prefix (some f) g h = h

  opened_file-Has :
      (name : String) (e : Option Failure) (g : Global)
      → Has n c g
      → Has n c (opened_file parse_level open_err level_of name e g).1
  unfolding opened_file
  opened_file-Has name none g h = h
  opened_file-Has name (some e) g h = h

  opened_address-Has :
      (name : String) (e : Option Failure) (g : Global)
      → Has n c g
      → Has n c (opened_address parse_level open_err level_of name e g).1
  unfolding opened_address
  opened_address-Has name none g h = h
  opened_address-Has name (some e) g h = h

  open_target-Has :
      (prefix : String) (k : CoreConfig) (g : Global)
      → Has n c g
      → Has n c (open_target parse_level open_err level_of prefix k g).1
  unfolding open_target
  open_target-Has prefix k g h =
      let P = λ (o : Result Target × Global). Has n c o.1 in
      if_cases P (str_eq k.log_to "lumberjack") _ _ (λ _. rolling-Has prefix k.file_config g h)
        (λ _.
          if_cases P (str_eq k.log_to "file") _ _ (λ _. opened_file-Has _ (open_err _) g h)
            (λ _.
              if_cases P (str_eq k.log_to "stderr") _ _ (λ _. h)
                (λ _.
                  if_cases P (str_eq k.log_to "stdout") _ _ (λ _. h)
                    (λ _.
                      if_cases P (str_eq k.log_to "url") _ _
                        (λ _. opened_address-Has k.logging_path (open_err k.logging_path) g h)
                        (λ _. h)))))

  with_core-Has :
      (r : Result Core) (later : Result (List Core) × Global) (g : Global)
      → Has n c g
      → Has n c later.1
      → Has n c (with_core parse_level open_err level_of r later g).1
  unfolding with_core
  with_core-Has (failed e) later g h i = h
  with_core-Has (ok k) (failed e, m) g h i = i
  with_core-Has (ok k) (ok ks, m) g h i = i

  with_target-Has :
      (k : CoreConfig) (o : Result Target × Global) (later : Global → Result (List Core) × Global)
      → Has n c o.1
      → ((g : Global) → Has n c g → Has n c (later g).1)
      → Has n c (with_target parse_level open_err level_of k o later).1
  unfolding with_target
  with_target-Has k (failed e, g) later h i = h
  with_target-Has k (ok t, g) later h i =
      with_core-Has (new_zap_core parse_level open_err level_of k t) (later g) g h (i g h)

  build-Has :
      (prefix : String) (ks : List CoreConfig) (g : Global)
      → Has n c g
      → Has n c (build parse_level open_err level_of prefix ks g).1
  unfolding build
  build-Has prefix [] g h = h
  build-Has prefix (k ∷ ks) g h =
      if_cases (λ (o : Result (List Core) × Global). Has n c o.1) k.enable _ _
        (λ _.
          with_target-Has k (open_target parse_level open_err level_of prefix k g)
            (build parse_level open_err level_of prefix ks) (open_target-Has prefix k g h)
            (build-Has prefix ks))
        (λ _. build-Has prefix ks g h)

  -- The logger of a configuration: a new one, or nil with an error.
  abbrev Made : Option Failure × Global → Type 0
  Made (some e, g) = g.g_zap_logger ≡ none
  Made (none, g) =
      (ks : List Core) × (g.g_zap_logger ≡ some ks)
      × Has n c g
      × ((lvl : ℕ)
          → targets_of lvl ks
            ≡ wanted parse_level open_err level_of c.global_filename lvl
                c.zap_config.zap_core_config)

  built-Made :
      (o : Result (List Core) × Global)
      → AreCores parse_level open_err level_of c.global_filename c.zap_config.zap_core_config o
      → Has n c o.1
      → Made (assigned parse_level open_err level_of (built parse_level open_err level_of o))
  unfolding built assigned
  built-Made (failed e, g) a h = refl
  built-Made (ok ks, g) a h = (ks, refl, h, a)

  options-Made :
      (r : Result ℕ) (g : Global)
      → Has n c g
      → Made (
          assigned parse_level open_err level_of
            (after_options parse_level open_err level_of c.global_filename c.zap_config r g))
  unfolding after_options assigned
  options-Made (failed e) g h = refl
  options-Made (ok m) g h =
      built-Made
        (build parse_level open_err level_of c.global_filename c.zap_config.zap_core_config g)
        (build-AreCores parse_level open_err level_of c.global_filename c.zap_config.zap_core_config
          g)
        (build-Has c.global_filename c.zap_config.zap_core_config g h)

  new_logger-Made :
      (g : Global)
      → c.zap_config.enable ≡ true
      → Has n c g
      → Made (
          assigned parse_level open_err level_of
            (new_zap_logger parse_level open_err level_of c.zap_config c.global_filename g))
  unfolding new_zap_logger
  new_logger-Made g z h =
      if_cases
        (λ (o : Result (Option (List Core)) × Global).
          Made (assigned parse_level open_err level_of o))
        c.zap_config.enable _ _
        (λ _. options-Made (stack_level parse_level open_err level_of c.zap_config) g h)
        (λ f. absurd (false≢true (sym f ∙ z)))

  set_global_config-Made :
      (g : Global)
      → parse_level c.global_level ≡ ok n
      → c.enable ≡ true
      → c.zap_config.enable ≡ true
      → Made (set_global_config parse_level open_err level_of c g)
  unfolding set_global_config with_level close_logger
  set_global_config-Made g p e z =
      subst
        (λ r. Made (
          with_level parse_level open_err level_of c r
            (record (close_logger parse_level open_err level_of g) { g_log_cfg = c })))
        (sym p)
        (if_cases Made c.enable _ _ (λ _. new_logger-Made _ z (refl, refl))
          (λ f. absurd (false≢true (sym f ∙ e))))

  -- `Log`, from what it reads of the global variables.
  abbrev log_value : String → Bool → ℕ → Option (List Core) → List Target
  log_value level b g o =
      if b
        && is_some o
        && (b && check_logger parse_level open_err level_of (parse_zap_level level) g o)
      then targets_of (parse_zap_level level) (cores_of parse_level open_err level_of o)
      else []

  log-log_value :
      (h : Global) (level : String)
      → log parse_level open_err level_of level h
        ≡ log_value level h.g_log_cfg.zap_config.enable h.g_zap_global_level h.g_zap_logger
  unfolding log check
  log-log_value h level = refl

  log_value-none : (level : String) (b : Bool) (g : ℕ) → log_value level b g none ≡ []
  log_value-none level true g = refl
  log_value-none level false g = refl

  made_log :
      (ks : List Core) (h : Global) (level : String)
      → IsLevelOf level_of
      → c.zap_config.enable ≡ true
      → h.g_zap_logger ≡ some ks
      → Has n c h
      → log parse_level open_err level_of level h
        ≡ (if leb n (parse_zap_level level) then targets_of (parse_zap_level level) ks else [])
  made_log ks h level law z e (m, s) =
      log-log_value h level
      ∙ ap (λ b. log_value level b h.g_zap_global_level h.g_zap_logger)
          (ap (λ x. x.zap_config.enable) s ∙ z)
      ∙ ap (λ g. log_value level true g h.g_zap_logger) m
      ∙ ap (log_value level true n) e
      ∙ check_targets parse_level open_err level_of (parse_zap_level level) n ks _ law refl

  -- Behind a `SetGlobalConfig` that gave no error, with the log and its cores switched on, a message is written
  -- exactly to the targets that the configuration names for its level: those of the enabled cores whose
  -- bounds, with DEBUG and FATAL for empty ones, the level is between, if it is not below the global level.
  -- The library is taken to report the lowest level of a logger.
  pub set_global_config-log :
      (g h : Global)
      → IsLevelOf level_of
      → parse_level c.global_level ≡ ok n
      → c.enable ≡ true
      → c.zap_config.enable ≡ true
      → set_global_config parse_level open_err level_of c g ≡ (none, h)
      → (level : String)
      → log parse_level open_err level_of level h ≡ (
          if leb n (parse_zap_level level)
          then wanted parse_level open_err level_of c.global_filename
              (parse_zap_level level)
              c.zap_config.zap_core_config
          else [])
  set_global_config-log g h law p e z q level =
      let (ks, k, hs, w) = subst Made q (set_global_config-Made g p e z) in
      made_log ks h level law z k hs
      ∙ ap (λ ts. if leb n (parse_zap_level level) then ts else []) (w (parse_zap_level level))

  no_logger :
      (h : Global) (level : String)
      → h.g_zap_logger ≡ none
      → log parse_level open_err level_of level h ≡ []
  no_logger h level e =
      log-log_value h level
      ∙ ap (log_value level h.g_log_cfg.zap_config.enable h.g_zap_global_level) e
      ∙ log_value-none level h.g_log_cfg.zap_config.enable h.g_zap_global_level

  -- If `SetGlobalConfig` fails behind the global level, because a core cannot be made or a level cannot
  -- be read, the program has no logger any more: no message of any level is written from then on, although
  -- the logger from before, or the one from the start, could go on.
  pub set_global_config-silent :
      (g h : Global) (x : Failure)
      → parse_level c.global_level ≡ ok n
      → c.enable ≡ true
      → c.zap_config.enable ≡ true
      → set_global_config parse_level open_err level_of c g ≡ (some x, h)
      → (level : String) → log parse_level open_err level_of level h ≡ []
  set_global_config-silent g h x p e z q level =
      no_logger h level (subst Made q (set_global_config-Made g p e z))

  -- With `enable` off, `SetGlobalConfig` does not switch the log off: if the cores are switched on and the
  -- global level can be read, every message from level info and the global level on is written to
  -- the standard output.
  pub set_global_config-off :
      (g : Global)
      → IsLevelOf level_of
      → parse_level c.global_level ≡ ok n
      → c.enable ≡ false
      → c.zap_config.enable ≡ true
      → (level : String)
      → log parse_level open_err level_of level
          (set_global_config parse_level open_err level_of c g).1
        ≡ (if leb n (parse_zap_level level)
            then targets_of (parse_zap_level level) g_zap_def_logger
            else [])
  unfolding set_global_config with_level close_logger
  set_global_config-off g law p e z level =
      ap
        (λ r.
          log parse_level open_err level_of level
            (with_level parse_level open_err level_of c r
              (record (close_logger parse_level open_err level_of g) { g_log_cfg = c })).1)
        p
      ∙ if_cases
          (λ (o : Option Failure × Global). log parse_level open_err level_of level o.1 ≡ (
            if leb n (parse_zap_level level)
            then targets_of (parse_zap_level level) g_zap_def_logger
            else []))
          c.enable _ _ (λ t. absurd (false≢true (sym e ∙ t)))
          (λ _. made_log g_zap_def_logger _ level law z refl (refl, refl))
