-- ===== src/Daemon/Create.antt =====
-- pkg/app/daemon/daemon.go: `New`, which makes the services of the daemon one after the other.
use goapp.Base.{ℕ, true, false, Option, none, some, List, String}
use goapp.GoRuntime.{M, returns, bind}
use goapp.Errors.{Failure, Result, ok, failed, new_typed, incorrect_call_error}
use goapp.Worker.{Shared}
use goapp.PoolService.{
  Service, ServiceConfig, CreatedService, service_created, service_refused, new_service,
}
use goapp.HttpLog
use goapp.HttpLog.{HttpLogger, LogConfig}
use goapp.HttpService.Config
use goapp.HttpService.Config.{HandlerConfig, Handler, Method, set_http_handler}
use goapp.HttpHandler.{new_refusal}
use goapp.HttpServer
use goapp.HttpServer.{HttpServer, ServerConfig}
use goapp.Daemon.{Daemon}

-- The parts of the configuration that `New` gives to the services.
pub record DaemonConfig : Type 0 where
  pub worker_pool_service_cfg : ServiceConfig
  pub http_logger_cfg : LogConfig
  pub handlers : List (String × HandlerConfig)
  pub http_server_cfg : ServerConfig
  pub shutdown_timeout : ℕ

-- The functions of the system's handlers, the methods that reflection finds, and the error of listening.
module _ {F : Type 0} (f : String → F) (methods : String → Method F)
    (listen_err : Option Failure) where
  unfoldable pub with_server :
      DaemonConfig → Service → Result (HttpServer F) → M HttpLogger (Result (Daemon F))
  with_server cfg v (failed e) l = returns (failed e) l
  with_server cfg v (ok s) l =
      returns
        (ok (record {
          shutdown_timeout = cfg.shutdown_timeout;
          ctx_closed = false;
          wp_service = v;
          http_service_closed = false;
          http_server = s;
          http_logger = l;
        }))
        l

  unfoldable pub with_routes :
      DaemonConfig
      → Service
      → List (String × Handler F) × Option Failure
      → M HttpLogger (Result (Daemon F))
  unfolding with_server
  with_routes cfg v (table, some e) l = returns (failed e) l
  with_routes cfg v (table, none) l =
      with_server cfg v (HttpServer.new (some cfg.http_server_cfg) (some table) listen_err) l

  unfoldable pub with_handlers :
      DaemonConfig
      → Service
      → List (String × Handler F)
      → Option Failure
      → M HttpLogger (Result (Daemon F))
  unfolding with_routes
  with_handlers cfg v table (some e) l = returns (failed e) l
  with_handlers cfg v table none l =
      with_routes cfg v (set_http_handler 0 (some methods) cfg.handlers table) l

  unfoldable pub with_http :
      DaemonConfig → Service → Result (List (String × Handler F)) → M HttpLogger (Result (Daemon F))
  unfolding with_handlers
  with_http cfg v (failed e) l = returns (failed e) l
  with_http cfg v (ok table) l = with_handlers cfg v table (new_refusal 0 true true true) l

  unfoldable pub with_log :
      DaemonConfig → Service → Option Failure → M HttpLogger (Result (Daemon F))
  unfolding with_http
  with_log cfg v (some e) l = returns (failed e) l
  with_log cfg v none l = with_http cfg v (Config.new 0 true true f) l

  unfoldable pub with_pool : DaemonConfig → CreatedService → M HttpLogger (Result (Daemon F))
  unfolding with_log
  with_pool cfg (service_refused e) l = returns (failed e) l
  with_pool cfg (service_created v) l =
      bind (HttpLog.new 0 (some cfg.http_logger_cfg) l) (with_log cfg v)

  -- `New`, on a machine with `num_cpu` processors, with its own context `ctx`.
  unfoldable pub new : ℕ → ℕ → Shared → Option DaemonConfig → M HttpLogger (Result (Daemon F))
  unfolding with_pool
  new num_cpu ctx shared none l = returns (failed (new_typed incorrect_call_error 0)) l
  new num_cpu ctx shared (some cfg) l =
      with_pool cfg
        (new_service num_cpu (some ctx) "WorkerPool - background" (some cfg.worker_pool_service_cfg)
          shared)
        l
