-- ===== src/Pool.antt =====
-- pkg/common/workerpool/pool.go: the pool, `NewPool` and `AddTask`.
pub mod Start
pub mod AddLaws
pub mod Shutdown
pub mod ShutdownLaws
pub mod Online
pub mod Background
use goapp.Base.{
  ℕ, suc, ◌+◌, ◌*◌, ℤ, Bool, true, false, Option, none, some, List, [], ◌∷◌, String, ◌==◌,
  if◌then◌else◌,
}
use goapp.GoRuntime.{Chan, M, Out, returns, panics, blocks, bind, send, ◌>>=◌, ◌>>◌, catch_out}
use goapp.Errors.{
  Failure, new_typed, get_recover_error, incorrect_call_error, worker_pool_add_task_incorrect_state,
}
use goapp.Task.{Task}
use goapp.Task.World.{World, update}
use goapp.Worker.{Worker, Shared}

-- `PoolState`
pub data PoolState : Type 0 where
  pool_new online_running online_done incomplete_done pool_recover_err bg_running : PoolState
  shutting_down terminate_timeout shutdown : PoolState

-- `Config`; the sizes are taken as not negative.
pub record Config : Type 0 where
  pub task_queue_size : ℕ
  pub task_timeout : ℤ
  pub worker_concurrency : ℕ
  pub worker_timeout : ℤ

-- `Pool`. `made` says that `RunOnline` or `RunBG` has made the channels and the context; before
-- that `taskQueueCh`, `workerErrCh`, `stopCh` and `cancel` are nil and the map of workers is empty.
-- `stop_ch` is the channel once it is made; the other two channels are in the shared part.
pub record Pool : Type 0 where
  pub external_id : ℕ
  pub name : String
  pub state : PoolState
  pub made : Bool
  pub stop_ch : Chan (Unit {0})
  pub is_background : Bool
  pub workers : List Worker
  pub worker_concurrency : ℕ
  pub worker_timeout : ℤ
  pub task_queue_size : ℕ
  pub ctx_closed : Bool

-- The pool and what it shares with its workers.
pub record System : Type 0 where
  pub pool : Pool
  pub shared : Shared

abbrev pub set_state_unsafe : PoolState → Pool → Pool
set_state_unsafe s p = record p { state = s }

abbrev pub or_default : ℕ → ℕ → ℕ
or_default n d = if n == 0 then d else n

abbrev pub no_chan : Chan (Unit {0})
no_chan = record { cap = 0; buf = []; closed = false }

pub data Created : Type 0 where
  created : Pool → Created
  refused : Failure → Created

-- `NewPool`, on a machine with `num_cpu` processors. `parent_ctx` and `cfg` may be nil.
unfoldable pub new_pool : ℕ → Option ℕ → ℕ → String → Option Config → Created
new_pool num_cpu none external_id name cfg = refused (new_typed incorrect_call_error external_id)
new_pool num_cpu (some ctx) external_id name none =
    refused (new_typed incorrect_call_error external_id)
new_pool num_cpu (some ctx) external_id name (some cfg) =
    let concurrency = or_default cfg.worker_concurrency (num_cpu * 2) in
    created (record {
      external_id = external_id;
      name = name;
      state = pool_new;
      made = false;
      stop_ch = no_chan;
      is_background = false;
      workers = [];
      worker_concurrency = concurrency;
      worker_timeout = cfg.worker_timeout;
      task_queue_size = or_default cfg.task_queue_size (concurrency * 1000);
      ctx_closed = false;
    })

abbrev pub accepts_tasks : PoolState → Bool
accepts_tasks bg_running = true
accepts_tasks _ = false

abbrev on_shared : (Shared → Shared) → System → System
on_shared g s = record s { shared = g s.shared }

-- `if task.wg != nil { task.wg.Add(1) }`
abbrev pub add_wg : Option ℕ → World → World
add_wg none w = w
add_wg (some g) w = record w { wgs = update w.wgs g (w.wgs g + 1) }

sent_task : System → Out (Chan (Option ℕ)) (Unit {0}) → Out System (Option Failure)
sent_task s (returns a c) = returns none (on_shared (λ h. record h { task_queue_ch = c }) s)
sent_task s (panics p c) = returns (some (get_recover_error p s.pool.external_id)) s
sent_task s (blocks c) = blocks s

-- `AddTask` behind its check: what other goroutines do in between is done to its state.
unfoldable pub send_task : ℕ → M System (Option Failure)
unfolding sent_task
send_task h s =
    let t = on_shared (λ x. record x { world = add_wg (x.tasks h).wg x.world }) s in
    if s.pool.made then sent_task t (send (some h) t.shared.task_queue_ch) else blocks t

-- `AddTask`, at a pool that is not nil, with nothing in between.
unfoldable pub add_task : Option ℕ → M System (Option Failure)
unfolding send_task
add_task none s = returns none s
add_task (some h) s =
    if accepts_tasks s.pool.state
    then send_task h s
    else returns (some (new_typed worker_pool_add_task_incorrect_state s.pool.external_id)) s
