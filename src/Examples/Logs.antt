-- ===== src/Examples/Logs.antt =====
-- The theorems about the two loggers at concrete configurations.
use goapp.Base.{
  ℕ, ◌≤◌, true, false, Option, none, some, List, [], ◌∷◌, ◌++◌, String, str_eq, leb, if◌then◌else◌,
  ◌≡◌, refl, arith, ◌&&◌, Bool-cases, inl, inr,
}
use goapp.GoRuntime.{returns}
use goapp.Errors.{Failure, Result, ok, failed, foreign}
use goapp.HttpLog.{LogConfig, HttpLogger, set_config, in_response}
use goapp.HttpLog.Logged.{log_http, asked, set_config-log_http}
use goapp.Logger.{
  LogSettings, Core, Global, Target, parse_zap_level, targets_of, is_enabled, g_zap_def_logger,
  set_global_config, log, file, new_zap_logger, build, open_target, opened_file, new_zap_core,
  with_target, with_core,
}
use goapp.Logger.Targets.{wanted}
use goapp.Logger.Settings.{set_global_config-log, set_global_config-silent}

abbrev traffic : LogConfig
traffic = record {
  enable = true;
  log_in_req = true;
  log_out_req = false;
  log_in_resp = true;
  log_out_resp = false;
  log_body = true;
  file_config = some "";
}

abbrev logger : HttpLogger
logger = record { file_logger = some "old.log"; cfg = none; entries = [] }

abbrev logger_after : HttpLogger
logger_after = record {
  file_logger = some "./httplog/http.log";
  cfg = some (record traffic { file_config = some "./httplog/http.log" });
  entries = [];
}

set : set_config none (some traffic) logger ≡ returns none logger_after
unfolding set_config
set = refl

set_config-log_http_example :
    log_http in_response 4 logger_after
    ≡ returns none (record logger_after { entries = [] ++ asked in_response traffic })
set_config-log_http_example = set_config-log_http none traffic logger logger_after set in_response 4

-- A library that knows two levels.
abbrev parse_two : String → Result ℕ
parse_two t =
    if str_eq t "INFO" then ok 1 else if str_eq t "FATAL" then ok 6 else failed (foreign 2)

abbrev no_error : String → Option Failure
no_error t = none

-- The lowest level that some core takes.
abbrev lowest : List Core → ℕ
lowest [] = 7
lowest (c ∷ cs) =
    let l = lowest cs in
    if leb c.min_zap_level c.max_zap_level && leb c.min_zap_level l then c.min_zap_level else l

lowest_le :
    (cs : List Core) (lvl : ℕ) (t : Target) (ts : List Target)
    → targets_of lvl cs ≡ t ∷ ts
    → lowest cs ≤ lvl
lowest_le [] lvl t ts e = cc
lowest_le (c ∷ cs) lvl t ts e = elim (Bool-cases (is_enabled lvl c)) [
  | inl b ↦ ground (arith, b)
  | inr n ↦ ground (arith, lowest_le cs lvl t ts (rw n at e))
]

abbrev settings : LogSettings
settings = record {
  enable = true;
  global_level = "INFO";
  global_filename = "./log/";
  zap_config = record {
    enable = true;
    disable_stacktrace = true;
    stacktrace_level = "";
    zap_core_config =
        record {
          enable = true;
          min_level = "INFO";
          max_level = "";
          log_to = "file";
          logging_path = "app.log";
          file_config = none;
        }
        ∷ [];
  };
}

abbrev global : Global
global = record {
  g_log_cfg = settings;
  g_zap_logger = some g_zap_def_logger;
  g_zap_global_level = 1;
  g_closers = [];
}

abbrev global_after : Global
global_after = record global {
  g_zap_logger =
      some (record { min_zap_level = 1; max_zap_level = 6; target = file "./log/app.log" } ∷ []);
  g_closers = "./log/app.log" ∷ [];
}

applied : set_global_config parse_two no_error lowest settings global ≡ (none, global_after)
unfolding set_global_config new_zap_logger build open_target opened_file new_zap_core with_target
    with_core
applied = refl

set_global_config-log_example : log parse_two no_error lowest "ERROR" global_after ≡ (
    if leb 1 (parse_zap_level "ERROR")
    then wanted parse_two no_error lowest "./log/"
        (parse_zap_level "ERROR")
        settings.zap_config.zap_core_config
    else [])
set_global_config-log_example =
    set_global_config-log parse_two no_error lowest 1 settings global global_after lowest_le refl
      refl refl applied "ERROR"

-- A logger whose level for stack traces cannot be read.
abbrev wrong : LogSettings
wrong = record settings { zap_config = record settings.zap_config { disable_stacktrace = false } }

abbrev global_silent : Global
global_silent = record global { g_log_cfg = wrong; g_zap_logger = none }

failed_setting :
    set_global_config parse_two no_error lowest wrong global ≡ (some (foreign 2), global_silent)
unfolding set_global_config new_zap_logger
failed_setting = refl

set_global_config-silent_example : log parse_two no_error lowest "ERROR" global_silent ≡ []
set_global_config-silent_example =
    set_global_config-silent parse_two no_error lowest 1 wrong global global_silent (foreign 2) refl
      refl refl failed_setting "ERROR"
