-- ===== src/Daemon/Fresh.antt =====
-- What `New` of pkg/app/daemon/daemon.go gives.
use goapp.Base.{true, false, Option, none, some, List, String, ◌≡◌, str_eq, is_some, ◌⊎◌}
use goapp.GoRuntime.{Out, returns, panics, blocks, make_chan}
use goapp.Errors.{Failure, Result, ok, failed}
use goapp.Pool.{pool_new}
use goapp.PoolService.{CreatedService, service_created, service_refused}
use goapp.HttpLog
use goapp.HttpLog.{HttpLogger}
use goapp.HttpService.Config
use goapp.HttpService.Config.{Handler, Method, set_http_handler, system_handlers}
use goapp.HttpServer
use goapp.HttpServer.{HttpServer}
use goapp.HttpServer.Routes.{RegistersAll}
use goapp.Daemon.{Daemon}
use goapp.Daemon.Create.{DaemonConfig}

module _ {F : Type 0} (f : String → F) (methods : String → Method F) (listen_err : Option Failure)
    (cfg : DaemonConfig) where
  -- The table of the handlers: the system's own, and those of the configuration.
  abbrev pub registered : List (String × Handler F) × Option Failure
  registered = set_http_handler 0 (some methods) cfg.handlers (system_handlers f)

  -- A pool that did not begin, and a server that is open and registers the handlers.
  pub record IsFresh (d : Daemon F) : Type 0 where
    pub pool : d.wp_service.system.pool.state ≡ pool_new
    pub not_made : d.wp_service.system.pool.made ≡ false
    pub not_background : d.wp_service.system.pool.is_background ≡ false
    pub root : d.ctx_closed ≡ false
    pub server : d.http_server.ctx_closed ≡ false
    pub confirmation : d.http_server.stop_ch ≡ make_chan 1
    pub registration : registered.1 ≡ none
    pub routes : RegistersAll registered.0 d.http_server.routes

  -- What keeps the server from listening.
  abbrev pub NoListener : Type 0
  NoListener = (str_eq cfg.http_server_cfg.listen_spec "" ≡ true) ⊎ (is_some listen_err ≡ true)

  abbrev pub Fresh : Out HttpLogger (Result (Daemon F)) → Type 0
  Fresh (returns (ok d) l) = IsFresh d
  Fresh (returns (failed e) l) = NoListener ⊎ (is_some registered.1 ≡ true)
  Fresh (panics p l) = cfg.http_logger_cfg.file_config ≡ none
  Fresh (blocks l) = ⊥

  -- A service whose pool did not begin.
  abbrev IsNewService : CreatedService → Type 0
  IsNewService (service_created v) =
      (v.system.pool.state ≡ pool_new)
      × (v.system.pool.made ≡ false)
      × (v.system.pool.is_background ≡ false)
  IsNewService (service_refused e) = ⊥

  abbrev IsNewServer : List (String × Handler F) → Result (HttpServer F) → Type 0
  IsNewServer table (failed e) = NoListener
  IsNewServer table (ok s) =
      (s.ctx_closed ≡ false) × (s.stop_ch ≡ make_chan 1) × RegistersAll table s.routes

  -- How the log of the traffic is made: with no error, but with a panic where it has no file.
  abbrev Opens : Out HttpLogger (Option Failure) → Type 0
  Opens (returns none l) = Unit
  Opens (returns (some e) l) = ⊥
  Opens (panics p l) = cfg.http_logger_cfg.file_config ≡ none
  Opens (blocks l) = ⊥
