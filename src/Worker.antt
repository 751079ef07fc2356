-- ===== src/Worker.antt =====
-- pkg/common/workerpool/worker.go: the worker, its start, the steps of its loop, and `Stop`.
-- A worker and a task are pointers: tasks are numbers into the heap `tasks`, shared by all workers.
pub mod Steps
pub mod Loop
pub mod Drain
pub mod StopSignal
use goapp.Base.{ℕ, ℤ, Bool, true, false, Option, none, some, List, [], ◌∷◌, if◌then◌else◌}
use goapp.GoRuntime.{Chan, M, Out, returns, panics, blocks, bind, make_chan, send, close}
use goapp.Errors.{Failure, new_typed, worker_pool_already_locked, worker_pool_run_incorrect_state}
use goapp.Task.{Task}
use goapp.Task.World.{World, update}
use goapp.Task.Run

-- `WorkerState`
pub data WorkerState : Type 0 where
  worker_new working idle terminating_parent_ctx_closed terminating_stop_signal : WorkerState
  terminating_task_ch_closed terminated worker_recover_err : WorkerState

-- `PoolShutdownMode`
pub data PoolShutdownMode : Type 0 where
  shutdown_light shutdown_soft shutdown_hard : PoolShutdownMode

-- Where the goroutine of a worker stands: not started, before the first `select` of its loop, before
-- the second one, in `task.process`, behind the loop, or gone.
pub data Place : Type 0 where
  not_started at_check at_select leaving gone : Place
  processing : ℕ → Place

-- `Worker`, without the pointer to the pool, which serves for metrics; `place` is the goroutine.
pub record Worker : Type 0 where
  pub id : ℕ
  pub external_id : ℕ
  pub state : WorkerState
  pub stop_ch : Option (Chan (Unit {0}))
  pub timeout : ℤ
  pub task_in_process : Option ℕ
  pub locked : Bool
  pub place : Place

-- `WorkerError`
pub record WorkerError : Type 0 where
  pub err : Failure
  pub worker : ℕ

-- What the workers of a pool share.
pub record Shared : Type 0 where
  pub tasks : ℕ → Task
  pub task_queue_ch : Chan (Option ℕ)
  pub ctx_done : Bool
  pub err_ch : Chan WorkerError
  pub run_wg : Option ℕ  -- the counter of the wait group that `run` is given
  pub world : World

pub record WorkerRun : Type 0 where
  pub worker : Worker
  pub shared : Shared

-- `newWorker`
unfoldable pub new_worker : ℕ → ℕ → ℤ → Worker
new_worker id external_id timeout = record {
  id = id;
  external_id = external_id;
  state = worker_new;
  stop_ch = none;
  timeout = timeout;
  task_in_process = none;
  locked = false;
  place = not_started;
}

abbrev pub set_state_unsafe : WorkerState → Worker → Worker
set_state_unsafe s w = record w { state = s }

abbrev pub store_err : WorkerRun → Out (Chan WorkerError) (Unit {0}) → Out WorkerRun (Unit {0})
store_err r (returns a c) = returns tt (record r { shared = record r.shared { err_ch = c } })
store_err r (panics p c) = panics p r
store_err r (blocks c) = blocks r

-- `wr.errCh <- &WorkerError{err: err, worker: wr}`
abbrev pub report : Failure → M WorkerRun (Unit {0})
report e r = store_err r (send (record { err = e; worker = r.worker.id }) r.shared.err_ch)

-- `run` may start a new worker, or one that a panic ended.
abbrev pub is_startable : WorkerState → Bool
is_startable worker_new = true
is_startable worker_recover_err = true
is_startable _ = false

-- `run` up to its loop.
unfoldable pub start : M WorkerRun (Unit {0})
start r =
    if r.worker.locked
    then report (new_typed worker_pool_already_locked r.worker.external_id) r
    else if is_startable r.worker.state
    then returns tt (record r {
      worker = record r.worker {
        state = idle;
        locked = true;
        stop_ch = some (make_chan 1);
        place = at_check;
      };
    })
    else report (new_typed worker_pool_run_incorrect_state r.worker.external_id) r

-- The states in which `Stop` sends its signal.
abbrev pub is_stoppable : WorkerState → Bool
is_stoppable worker_new = true
is_stoppable working = true
is_stoppable idle = true
is_stoppable _ = false

store_signal : WorkerRun → Out (Chan (Unit {0})) (Unit {0}) → Out WorkerRun (Unit {0})
store_signal r (returns a c) =
    returns tt (record r { worker = record r.worker { stop_ch = some c } })
store_signal r (panics p c) = panics p (record r { worker = record r.worker { stop_ch = some c } })
store_signal r (blocks c) = blocks (record r { worker = record r.worker { stop_ch = some c } })

-- `if wr.stopCh != nil { wr.stopCh <- true; close(wr.stopCh) }`
unfoldable pub signal_stop : Option (Chan (Unit {0})) → M WorkerRun (Unit {0})
unfolding store_signal
signal_stop none r = returns tt r
signal_stop (some c) r = store_signal r (bind (send tt c) (λ _. close))

store_task : ℕ → WorkerRun → Out Task (Unit {0}) → Out WorkerRun (Unit {0})
store_task h r (returns a t) =
    returns tt (record r { shared = record r.shared { tasks = update r.shared.tasks h t } })
store_task h r (panics p t) =
    panics p (record r { shared = record r.shared { tasks = update r.shared.tasks h t } })
store_task h r (blocks t) =
    blocks (record r { shared = record r.shared { tasks = update r.shared.tasks h t } })

unfoldable pub stop_task : PoolShutdownMode → Option ℕ → M WorkerRun (Unit {0})
unfolding store_task
stop_task shutdown_hard (some h) r = store_task h r (Run.stop (r.shared.tasks h))
stop_task shutdown_hard none r = returns tt r
stop_task shutdown_soft h r = returns tt r
stop_task shutdown_light h r = returns tt r

-- `Stop`, at a pointer that is not nil.
unfoldable pub stop : PoolShutdownMode → M WorkerRun (Unit {0})
stop mode r =
    if is_stoppable r.worker.state
    then bind (signal_stop r.worker.stop_ch r) (λ _ s. stop_task mode s.worker.task_in_process s)
    else returns tt r
