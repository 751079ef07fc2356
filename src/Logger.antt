-- ===== src/Logger.antt =====
-- pkg/common/logger/logger.go: the global logger. The logging library is a parameter: it parses a level,
-- opens a file or an address, and says from which level on some part of a logger is open. A level is the
-- library's number plus one: 0 for debug, 1 for info, up to 6 for fatal. The encoders, the options
-- and the texts of messages are left out.
pub mod Settings
pub mod Targets
use Prim.Native.String.{◌++◌ as str_append}
use goapp.Base.{
  ℕ, Bool, true, false, ◌&&◌, Option, none, some, List, [], ◌∷◌, ◌++◌, String, str_eq, leb,
  if◌then◌else◌, is_some,
}
use goapp.Errors.{Failure, Result, ok, failed, foreign}

-- `ZapCoreConfig`; of `FileConfig` only the name.
pub record CoreConfig : Type 0 where
  pub enable : Bool
  pub min_level : String
  pub max_level : String
  pub log_to : String
  pub logging_path : String
  pub file_config : Option String

pub record ZapConfig : Type 0 where
  pub enable : Bool
  pub disable_stacktrace : Bool
  pub stacktrace_level : String
  pub zap_core_config : List CoreConfig

-- `Config`
pub record LogSettings : Type 0 where
  pub enable : Bool
  pub global_level : String
  pub global_filename : String
  pub zap_config : ZapConfig

-- Where a core writes.
pub data Target : Type 0 where
  file : String → Target
  address : String → Target
  stderr stdout : Target

-- `zapcore.Core`, with the bounds of its `levelEnabler`.
pub record Core : Type 0 where
  pub min_zap_level : ℕ
  pub max_zap_level : ℕ
  pub target : Target

-- The global variables; a logger is its cores, and a function that closes a file is the file's name.
pub record Global : Type 0 where
  pub g_log_cfg : LogSettings
  pub g_zap_logger : Option (List Core)
  pub g_zap_global_level : ℕ
  pub g_closers : List String

-- The logger that is there at the start.
abbrev pub g_zap_def_logger : List Core
g_zap_def_logger = record { min_zap_level = 1; max_zap_level = 6; target = stdout } ∷ []

-- `parseZapLevel`
unfoldable pub parse_zap_level : String → ℕ
parse_zap_level level =
    if str_eq level "DEBUG"
    then 0
    else if str_eq level "INFO"
    then 1
    else if str_eq level "WARNING"
    then 2
    else if str_eq level "ERROR"
    then 3
    else if str_eq level "DPANIC"
    then 4
    else if str_eq level "PANIC"
    then 5
    else if str_eq level "FATAL"
    then 6
    else 1

abbrev pub is_enabled : ℕ → Core → Bool
is_enabled lvl c = leb c.min_zap_level lvl && leb lvl c.max_zap_level

abbrev pub targets_of : ℕ → List Core → List Target
targets_of lvl [] = []
targets_of lvl (c ∷ cs) =
    let rest = targets_of lvl cs in if is_enabled lvl c then c.target ∷ rest else rest

abbrev pub or_text : String → String → String
or_text default t = if str_eq t "" then default else t

-- `NewFileLogger`: the file, and the function that closes it.
unfoldable pub new_file_logger : String → String → Global → String × Global
new_file_logger global_file_name name g =
    let file_name = or_text "./log/default.log" (str_append global_file_name name) in
    (file_name, record g { g_closers = g.g_closers ++ (file_name ∷ []) })

-- `level_of` is `Level()` of a logger, `open_err` the error of `zap.Open`, if it gives one.
module _ (parse_level : String → Result ℕ) (open_err : String → Option Failure)
    (level_of : List Core → ℕ) where
  unfoldable pub core_up_to : Target → ℕ → Result ℕ → Result Core
  core_up_to t lo (failed e) = failed e
  core_up_to t lo (ok hi) = ok (record { min_zap_level = lo; max_zap_level = hi; target = t })

  unfoldable pub core_from : CoreConfig → Target → Result ℕ → Result Core
  unfolding core_up_to
  core_from c t (failed e) = failed e
  core_from c t (ok lo) = core_up_to t lo (parse_level (or_text "FATAL" c.max_level))

  -- `newZapCore`
  unfoldable pub new_zap_core : CoreConfig → Target → Result Core
  unfolding core_from
  new_zap_core c t = core_from c t (parse_level (or_text "DEBUG" c.min_level))

  unfoldable pub rolling : String → Option String → Global → Result Target × Global
  rolling global_file_name none g = (failed (foreign 6), g)
  rolling global_file_name (some name) g =
      let (f, h) = new_file_logger global_file_name name g in (ok (file f), h)

  unfoldable pub opened_file : String → Option Failure → Global → Result Target × Global
  opened_file name none g = (ok (file name), record g { g_closers = g.g_closers ++ (name ∷ []) })
  opened_file name (some e) g = (failed e, g)

  unfoldable pub opened_address : String → Option Failure → Global → Result Target × Global
  opened_address name none g = (ok (address name), g)
  opened_address name (some e) g = (failed e, g)

  -- The `switch` over `LogTo`. `gClose`, which an error calls, closes the files and keeps their list.
  unfoldable pub open_target : String → CoreConfig → Global → Result Target × Global
  unfolding new_file_logger rolling opened_file opened_address
  open_target global_file_name c g =
      if str_eq c.log_to "lumberjack"
      then rolling global_file_name c.file_config g
      else if str_eq c.log_to "file"
      then (let name = str_append global_file_name c.logging_path in
          opened_file name (open_err name) g)
      else if str_eq c.log_to "stderr"
      then (ok stderr, g)
      else if str_eq c.log_to "stdout"
      then (ok stdout, g)
      else if str_eq c.log_to "url"
      then opened_address c.logging_path (open_err c.logging_path) g
      else (ok stdout, g)

  unfoldable pub with_core :
      Result Core → Result (List Core) × Global → Global → Result (List Core) × Global
  with_core (failed e) later g = (failed e, g)
  with_core (ok c) (failed e, h) g = (failed e, h)
  with_core (ok c) (ok cs, h) g = (ok (c ∷ cs), h)

  unfoldable pub with_target :
      CoreConfig
      → Result Target × Global
      → (Global → Result (List Core) × Global)
      → Result (List Core) × Global
  unfolding with_core
  with_target c (failed e, g) later = (failed e, g)
  with_target c (ok t, g) later = with_core (new_zap_core c t) (later g) g

  -- The loop of `newZapLogger` over the cores.
  unfoldable pub build : String → List CoreConfig → Global → Result (List Core) × Global
  unfolding with_target
  build global_file_name [] g = (ok [], g)
  build global_file_name (c ∷ cs) g =
      let later = build global_file_name cs in
      if c.enable then with_target c (open_target global_file_name c g) later else later g

  unfoldable pub stack_level : ZapConfig → Result ℕ
  stack_level z = if z.disable_stacktrace then ok 0 else parse_level z.stacktrace_level

  unfoldable pub built : Result (List Core) × Global → Result (Option (List Core)) × Global
  built (failed e, g) = (failed e, g)
  built (ok cs, g) = (ok (some cs), g)

  unfoldable pub after_options :
      String → ZapConfig → Result ℕ → Global → Result (Option (List Core)) × Global
  unfolding built
  after_options global_file_name z (failed e) g = (failed e, g)
  after_options global_file_name z (ok n) g = built (build global_file_name z.zap_core_config g)

  -- `newZapLogger`; `ok none` is a nil logger without an error.
  unfoldable pub new_zap_logger : ZapConfig → String → Global → Result (Option (List Core)) × Global
  unfolding stack_level after_options
  new_zap_logger z global_file_name g =
      if z.enable then after_options global_file_name z (stack_level z) g else (ok none, g)

  -- `CloseLogger`
  unfoldable pub close_logger : Global → Global
  close_logger g = record g {
    g_closers = [];
    g_zap_logger = some g_zap_def_logger;
    g_zap_global_level = 1;
  }

  -- `gZapLogger, err = newZapLogger(...)`: with an error the logger is nil.
  unfoldable pub assigned : Result (Option (List Core)) × Global → Option Failure × Global
  assigned (failed e, g) = (some e, record g { g_zap_logger = none })
  assigned (ok l, g) = (none, record g { g_zap_logger = l })

  unfoldable pub with_level : LogSettings → Result ℕ → Global → Option Failure × Global
  unfolding assigned
  with_level c (failed e) g = (some e, g)
  with_level c (ok n) g =
      let h = record g { g_zap_global_level = n } in
      if c.enable then assigned (new_zap_logger c.zap_config c.global_filename h) else (none, h)

  -- `SetGlobalConfig`
  unfoldable pub set_global_config : LogSettings → Global → Option Failure × Global
  unfolding close_logger with_level
  set_global_config c g =
      with_level c (parse_level c.global_level) (record (close_logger g) { g_log_cfg = c })

  unfoldable pub check_logger : ℕ → ℕ → Option (List Core) → Bool
  check_logger lvl global none = false
  check_logger lvl global (some cs) = leb global lvl && leb (level_of cs) lvl

  -- `Check`
  unfoldable pub check : String → Global → Bool
  unfolding check_logger
  check level g =
      g.g_log_cfg.zap_config.enable
      && check_logger (parse_zap_level level) g.g_zap_global_level g.g_zap_logger

  abbrev pub cores_of : Option (List Core) → List Core
  cores_of none = []
  cores_of (some cs) = cs

  -- `Log`: where the message is written.
  unfoldable pub log : String → Global → List Target
  unfolding check
  log level g =
      if g.g_log_cfg.zap_config.enable && is_some g.g_zap_logger && check level g
      then targets_of (parse_zap_level level) (cores_of g.g_zap_logger)
      else []
