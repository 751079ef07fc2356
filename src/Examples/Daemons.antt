-- ===== src/Examples/Daemons.antt =====
-- The theorems about the daemon at a concrete daemon.
use goapp.Base.{ℕ, pos, true, false, none, some, List, [], ◌∷◌, ◌≡◌, refl, String}
use goapp.GoRuntime.{make_chan, does_block, state_of}
use goapp.Errors.{foreign}
use goapp.Pool.{System}
use goapp.Pool.Shutdown.{Poll}
use goapp.PoolService.{Service, shutdown_service}
use goapp.HttpLog.{HttpLogger, LogConfig}
use goapp.HttpService.Config.{Method, handler_method}
use goapp.Daemon.Create.{DaemonConfig}
use goapp.Daemon.Fresh.{Fresh}
use goapp.HttpServer.{HttpServer}
use goapp.Daemon.{Daemon, Turn, Meets, signal, from_http, from_pool, run}
use goapp.Daemon.Ends.{run_hangs}
use goapp.Examples.Data.{bg_system, new_system, worker_0}

abbrev looks : List Poll
looks = record { elapsed = 8; workers = worker_0 ∷ [] } ∷ []

abbrev service : System → Service
service s = record {
  cfg = record {
    total_timeout = pos 60;
    shutdown_timeout = 5;
    wp_cfg = record {
      task_queue_size = 2;
      task_timeout = pos 0;
      worker_concurrency = 1;
      worker_timeout = pos 0;
    };
  };
  name = "pool";
  ctx_closed = false;
  system = s;
}

abbrev no_log : HttpLogger
no_log = record { file_logger = none; cfg = none; entries = [] }

abbrev server : HttpServer ℕ
server = record {
  cfg = record {
    listen_spec = "127.0.0.1:3000";
    max_header_bytes = pos 0;
    use_profile = false;
    use_tls = true;
  };
  ctx_closed = false;
  stop_ch = make_chan 1;
  max_header_bytes = none;
  routes = [];
}

abbrev running : Daemon ℕ
running = record {
  shutdown_timeout = 30;
  ctx_closed = false;
  wp_service = service bg_system;
  http_service_closed = false;
  http_server = server;
  http_logger = no_log;
}

abbrev meets : Meets
meets = record { polls = looks; server_err = none; close_err = none }

abbrev quiet : Turn
quiet = record { wp_service = service bg_system; http_logger = no_log; event = from_pool none }

abbrev asked : Turn
asked = record quiet { event = signal }

abbrev stopped : Service
stopped = state_of (shutdown_service false 30 looks (service bg_system))

-- The server has no certificate, and the pool did not begin yet.
abbrev too_soon : Turn
too_soon = record {
  wp_service = service new_system;
  http_logger = no_log;
  event = from_http (some (foreign 3));
}

run_hangs_example : does_block (run meets (too_soon ∷ []) running) ≡ true
run_hangs_example = run_hangs meets too_soon [] running true (some (foreign 3)) refl refl refl refl

abbrev log_off : LogConfig
log_off = record {
  enable = false;
  log_in_req = false;
  log_out_req = false;
  log_in_resp = false;
  log_out_resp = false;
  log_body = false;
  file_config = none;
}

-- One handler of the configuration, and one that is not enabled.
abbrev daemon_cfg : DaemonConfig
daemon_cfg = record {
  worker_pool_service_cfg = (service bg_system).cfg;
  http_logger_cfg = log_off;
  handlers =
      (
        "health",
        record {
          enabled = true;
          full_path = "/app/system/health";
          params = "";
          method = "GET";
          handler_name = "HealthHandler";
        },
      )
      ∷ (
        "off",
        record {
          enabled = false;
          full_path = "/off";
          params = "";
          method = "GET";
          handler_name = "ReadyHandler";
        },
      )
      ∷ [];
  http_server_cfg = server.cfg;
  shutdown_timeout = 30;
}

abbrev method : String → Method ℕ
method name = handler_method 7
