-- ===== src/Daemon.antt =====
-- pkg/app/daemon/daemon.go: the loop of the daemon and its shutdown. What its goroutines do meanwhile is in
-- the list of turns, one for each round of the loop.
pub mod Create
pub mod Ends
pub mod Fresh
use goapp.Base.{ℕ, Bool, true, false, Option, none, some, List, [], ◌∷◌}
use goapp.GoRuntime.{M, Out, returns, panics, blocks, ◌>>=◌, ◌>>◌, pure, defer, modify}
use goapp.Errors.{Failure}
use goapp.Pool.Shutdown.{Poll}
use goapp.PoolService
use goapp.PoolService.{shutdown_service}
use goapp.HttpLog
use goapp.HttpLog.{HttpLogger}
use goapp.HttpServer
use goapp.HttpServer.{HttpServer}

-- What the loop of `Run` receives: a signal of the system, or what one of the services gives back.
pub data Event : Type 0 where
  signal : Event
  from_http from_pool : Option Failure → Event

-- One round of the loop: the services of the pool and of the log as they are by then, and the event.
pub record Turn : Type 0 where
  pub wp_service : PoolService.Service
  pub http_logger : HttpLogger
  pub event : Event

-- What a shutdown meets: the looks of the pool at its workers, and the errors of the HTTP library's
-- shutdown and of closing the log file.
pub record Meets : Type 0 where
  pub polls : List Poll
  pub server_err : Option Failure
  pub close_err : Option Failure

-- `Daemon`; of its HTTP service only whether its context is closed.
pub record Daemon (F : Type 0) : Type 0 where
  pub shutdown_timeout : ℕ
  pub ctx_closed : Bool
  pub wp_service : PoolService.Service
  pub http_service_closed : Bool
  pub http_server : HttpServer F
  pub http_logger : HttpLogger

module _ {F : Type 0} where
  abbrev pub with_pool :
      {A : Type 0} → Daemon F → Out PoolService.Service A → Out (Daemon F) (Unit {0})
  with_pool d (returns a v) = returns tt (record d { wp_service = v })
  with_pool d (panics p v) = panics p (record d { wp_service = v })
  with_pool d (blocks v) = blocks (record d { wp_service = v })

  abbrev with_server : {A : Type 0} → Daemon F → Out (HttpServer F) A → Out (Daemon F) (Unit {0})
  with_server d (returns a v) = returns tt (record d { http_server = v })
  with_server d (panics p v) = panics p (record d { http_server = v })
  with_server d (blocks v) = blocks (record d { http_server = v })

  abbrev with_logger : {A : Type 0} → Daemon F → Out HttpLogger A → Out (Daemon F) (Unit {0})
  with_logger d (returns a v) = returns tt (record d { http_logger = v })
  with_logger d (panics p v) = panics p (record d { http_logger = v })
  with_logger d (blocks v) = blocks (record d { http_logger = v })

  -- The four services, whose errors are only logged.
  abbrev pub stop_pool : Bool → List Poll → M (Daemon F) (Unit {0})
  stop_pool hard polls d = with_pool d (shutdown_service hard d.shutdown_timeout polls d.wp_service)

  abbrev pub stop_server : Option Failure → M (Daemon F) (Unit {0})
  stop_server err d = with_server d (HttpServer.shutdown err d.http_server)

  abbrev pub stop_logger : Option Failure → M (Daemon F) (Unit {0})
  stop_logger err d = with_logger d (HttpLog.shutdown err d.http_logger)

  -- `Shutdown`
  unfoldable pub shutdown : Bool → Meets → M (Daemon F) (Unit {0})
  shutdown hard m = defer (modify (λ d. record d { ctx_closed = true })) (
      stop_pool hard m.polls
      >> modify (λ d. record d { http_service_closed = true })
      >> stop_server m.server_err
      >> stop_logger m.close_err)

  -- What follows the `select` in `Run`; an empty error goes on with the loop.
  unfoldable pub react :
      Event → Meets → M (Daemon F) (Option Failure) → M (Daemon F) (Option Failure)
  react signal m later = shutdown false m >> pure none
  react (from_http (some e)) m later = shutdown true m >> pure (some e)
  react (from_pool (some e)) m later = shutdown true m >> pure (some e)
  react (from_http none) m later = later
  react (from_pool none) m later = later

  abbrev pub met : Turn → Daemon F → Daemon F
  met t d = record d { wp_service = t.wp_service; http_logger = t.http_logger }

  -- The loop of `Run`. Where the list of turns ends, it waits.
  unfoldable pub run : Meets → List Turn → M (Daemon F) (Option Failure)
  unfolding react
  run m [] d = blocks d
  run m (t ∷ rest) d = react t.event m (run m rest) (met t d)
