-- ===== src/PoolService.antt =====
-- pkg/common/workerpoolservice/workerpool_service.go: the service around one pool.
-- The timeout of a shutdown is taken as not negative.
pub mod Group
pub mod Counter
pub mod GroupLaws
pub mod CounterLaws
use goapp.Base.{ℕ, ℤ, Bool, true, false, Option, none, some, List, String, if◌then◌else◌, ltb}
use goapp.GoRuntime.{M, Out, returns, panics, blocks, catch_out, after_out}
use goapp.Errors.{
  Failure, new_typed, with_cause_typed, incorrect_call_error, error_key, get_recover_error,
}
use goapp.Worker.{Shared, PoolShutdownMode, shutdown_hard, shutdown_soft}
use goapp.Pool.{Config, Created, created, refused, System, add_task, new_pool}
use goapp.Pool.Shutdown
use goapp.Pool.Shutdown.{Poll}
use goapp.Pool.Background.{BgTurn, run_bg}

-- `Config`
pub record ServiceConfig : Type 0 where
  pub total_timeout : ℤ
  pub shutdown_timeout : ℕ
  pub wp_cfg : Config

-- `Service`, without the two channels that it does not use.
pub record Service : Type 0 where
  pub cfg : ServiceConfig
  pub name : String
  pub ctx_closed : Bool
  pub system : System

pub data CreatedService : Type 0 where
  service_created : Service → CreatedService
  service_refused : Failure → CreatedService

service_of : ServiceConfig → String → Shared → Created → CreatedService
service_of cfg name shared (created p) = service_created (record {
  cfg = cfg;
  name = name;
  ctx_closed = false;
  system = record { pool = p; shared = shared };
})
service_of cfg name shared (refused e) = service_refused e

-- `New`, on a machine with `num_cpu` processors and over the tasks that are there.
unfoldable pub new_service : ℕ → Option ℕ → String → Option ServiceConfig → Shared → CreatedService
unfolding service_of
new_service num_cpu parent_ctx name none shared = service_refused (new_typed incorrect_call_error 0)
new_service num_cpu parent_ctx name (some cfg) shared =
    service_of cfg name shared (new_pool num_cpu parent_ctx 0 name (some cfg.wp_cfg))

abbrev add_error : ℕ → Option Failure → Option Failure
add_error external_id none = none
add_error external_id (some e) = some (with_cause_typed error_key external_id e)

added : ℕ → Out System (Option Failure) → Out System (Option Failure)
added external_id (returns e s) = returns (add_error external_id e) s
added external_id (panics p s) = panics p s
added external_id (blocks s) = blocks s

-- `AddTask`
unfoldable pub service_add_task : Option ℕ → M System (Option Failure)
unfolding added
service_add_task none s = returns (some (new_typed incorrect_call_error 0)) s
service_add_task (some h) s = added (s.shared.tasks h).external_id (add_task (some h) s)

abbrev pub min_timeout : ℕ → ℕ → ℕ
min_timeout limit t = if ltb limit t then limit else t

abbrev pub mode_of : Bool → PoolShutdownMode
mode_of true = shutdown_hard
mode_of false = shutdown_soft

unfoldable pub closed_service : Service → Out System (Option Failure) → Out Service (Option Failure)
closed_service v (returns e s) = returns e (record v { system = s; ctx_closed = true })
closed_service v (panics p s) = panics p (record v { system = s; ctx_closed = true })
closed_service v (blocks s) = blocks (record v { system = s })

-- `Shutdown`
unfoldable pub shutdown_service : Bool → ℕ → List Poll → M Service (Option Failure)
unfolding closed_service
shutdown_service hard timeout polls v =
    closed_service v
      (Shutdown.stop (mode_of hard) (min_timeout v.cfg.shutdown_timeout timeout) polls v.system)

ran_service : Service → Out System (Option Failure) → Out Service (Option Failure)
ran_service v (returns e s) = returns e (record v { system = s })
ran_service v (panics p s) = panics p (record v { system = s })
ran_service v (blocks s) = blocks (record v { system = s })

-- `Run`. Its recovery is left out, as the one of `RunBG`: a panic here is one of another goroutine.
unfoldable pub run_service : List BgTurn → M Service (Option Failure)
unfolding ran_service
run_service turns v = ran_service v (run_bg 0 v.cfg.shutdown_timeout turns v.system)
