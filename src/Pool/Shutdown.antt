-- ===== src/Pool/Shutdown.antt =====
-- pkg/common/workerpool/pool.go: `Stop`, `shutdownUnsafe` and `stopWorkersUnsafe`. The timeout is
-- taken as not negative; 0 is "no limit".
use goapp.Base.{
  ℕ, Bool, true, false, not, ◌&&◌, ◌||◌, Option, none, some, List, [], ◌∷◌, ltb, ◌==◌,
  if◌then◌else◌,
}
use goapp.GoRuntime.{
  Chan, M, Out, returns, panics, blocks, bind, close, send, close_of_nil, ◌>>◌, modify,
}
use goapp.Errors.{Failure, with_cause_typed, get_recover_error, worker_pool_worker_error}
use goapp.Task.{Task}
use goapp.Task.World.{update}
use goapp.Task.Run
use goapp.Worker.{
  Worker, WorkerRun, WorkerState, WorkerError, Shared, PoolShutdownMode, shutdown_light,
  shutdown_soft, shutdown_hard, terminated,
}
use goapp.Worker
use goapp.Pool.{
  Pool, PoolState, System, shutting_down, shutdown, terminate_timeout, set_state_unsafe,
}

-- One look of the loop of `stopWorkersUnsafe` at the clock and at the workers, which go on meanwhile.
pub record Poll : Type 0 where
  pub elapsed : ℕ
  pub workers : List Worker

abbrev pub is_terminated : WorkerState → Bool
is_terminated terminated = true
is_terminated _ = false

-- The loop over the workers that computes `anyNonStoppedWorker`.
abbrev pub any_non_stopped : List Worker → Bool
any_non_stopped [] = false
any_non_stopped (w ∷ ws) = not (is_terminated w.state) || any_non_stopped ws

abbrev pub on_pool : (Pool → Pool) → System → System
on_pool g s = record s { pool = g s.pool }

-- The waiting loop. Where the list of looks ends, the loop goes on.
unfoldable pub wait_workers : ℕ → List Poll → M System (Unit {0})
wait_workers timeout [] s = blocks s
wait_workers timeout (p ∷ ps) s =
    let later = wait_workers timeout ps (on_pool (λ q. record q { workers = p.workers }) s) in
    if not (timeout == 0) && ltb timeout p.elapsed
    then returns tt (on_pool (set_state_unsafe terminate_timeout) s)
    else (if any_non_stopped p.workers
        then later
        else returns tt (on_pool (λ q. record q { workers = p.workers }) s))

unfoldable pub stopped_worker : System → Out WorkerRun (Unit {0}) → Out System Worker
stopped_worker s (returns a r) = returns r.worker (record s { shared = r.shared })
stopped_worker s (panics p r) = panics p (record s { shared = r.shared })
stopped_worker s (blocks r) = blocks (record s { shared = r.shared })

unfoldable pub stop_one : PoolShutdownMode → Worker → M System Worker
unfolding stopped_worker
stop_one mode w s = stopped_worker s (Worker.stop mode (record { worker = w; shared = s.shared }))

-- `for _, worker := range p.workers { worker.Stop(shutdownMode) }`: the workers after the calls.
unfoldable pub stop_all : PoolShutdownMode → List Worker → M System (List Worker)
stop_all mode [] s = returns [] s
stop_all mode (w ∷ ws) s =
    bind (stop_one mode w s) (λ v t. bind (stop_all mode ws t) (λ vs u. returns (v ∷ vs) u))

-- `stopWorkersUnsafe`
unfoldable pub stop_workers_unsafe : PoolShutdownMode → ℕ → List Poll → M System (Unit {0})
stop_workers_unsafe mode timeout polls s =
    bind (stop_all mode s.pool.workers s)
      (λ ws t. wait_workers timeout polls (on_pool (λ q. record q { workers = ws }) t))

unfoldable pub closed_queue : System → Out (Chan (Option ℕ)) (Unit {0}) → Out System (Unit {0})
closed_queue s (returns a c) =
    returns tt (record s { shared = record s.shared { task_queue_ch = c } })
closed_queue s (panics p c) = panics p s
closed_queue s (blocks c) = blocks s

-- `if p.isBackground { close(p.taskQueueCh) }`
unfoldable pub close_queue : M System (Unit {0})
unfolding closed_queue
close_queue s =
    if s.pool.is_background
    then (if s.pool.made
        then closed_queue s (close s.shared.task_queue_ch)
        else panics close_of_nil s)
    else returns tt s

stopped_task : ℕ → Shared → Out Task (Unit {0}) → Out Shared (Unit {0})
stopped_task k h (returns a t) = returns tt (record h { tasks = update h.tasks k t })
stopped_task k h (panics p t) = panics p (record h { tasks = update h.tasks k t })
stopped_task k h (blocks t) = blocks (record h { tasks = update h.tasks k t })

-- `if task != nil { task.Stop() }`
unfoldable pub stop_queued : Option ℕ → Shared → Out Shared (Unit {0})
unfolding stopped_task
stop_queued none h = returns tt h
stop_queued (some k) h = stopped_task k h (Run.stop (h.tasks k))

abbrev pub with_queue : List (Option ℕ) → Shared → Shared
with_queue b h = record h { task_queue_ch = record h.task_queue_ch { buf = b } }

-- `for task := range p.taskQueueCh { if task != nil { task.Stop() } }`, over what is in the queue:
-- each task is taken out and then stopped; behind the last one the loop waits until it is closed.
unfoldable pub drain_queue : List (Option ℕ) → Shared → Out Shared (Unit {0})
drain_queue [] h =
    if h.task_queue_ch.closed then returns tt (with_queue [] h) else blocks (with_queue [] h)
drain_queue (t ∷ ts) h = bind (stop_queued t (with_queue ts h)) (λ _. drain_queue ts)

unfoldable pub drained : Pool → Out Shared (Unit {0}) → Out System (Unit {0})
drained p (returns a h) = returns tt (record { pool = p; shared = h })
drained p (panics q h) = panics q (record { pool = p; shared = h })
drained p (blocks h) = blocks (record { pool = p; shared = h })

abbrev pub empties_queue : PoolShutdownMode → Bool
empties_queue shutdown_light = false
empties_queue shutdown_soft = true
empties_queue shutdown_hard = true

-- The reading of the queue in the modes "hard" and "soft". A receive from a nil channel never ends.
unfoldable pub stop_queue : PoolShutdownMode → M System (Unit {0})
unfolding drained
stop_queue mode s =
    if empties_queue mode
    then (if s.pool.made
        then drained s.pool (drain_queue s.shared.task_queue_ch.buf s.shared)
        else blocks s)
    else returns tt s

last_error : ℕ → Option Failure → List WorkerError → Option Failure
last_error external_id err [] = err
last_error external_id err (e ∷ es) =
    last_error external_id (some (with_cause_typed worker_pool_worker_error external_id e.err)) es

unfoldable pub closed_errors :
    System → Out (Chan WorkerError) (Unit {0}) → Out System (Option Failure)
unfolding last_error
closed_errors s (returns a c) =
    returns (last_error s.pool.external_id none c.buf)
      (record s { shared = record s.shared { err_ch = record c { buf = [] } } })
closed_errors s (panics p c) = panics p s
closed_errors s (blocks c) = blocks s

-- `close(p.workerErrCh)` and the errors that have gathered in it, of which the last one is returned.
unfoldable pub close_errors : M System (Option Failure)
unfolding closed_errors
close_errors s =
    if s.pool.made then closed_errors s (close s.shared.err_ch) else panics close_of_nil s

abbrev pub is_down : PoolState → Bool
is_down shutdown = true
is_down shutting_down = true
is_down _ = false

-- The deferred function of `shutdownUnsafe`.
abbrev pub shut : Out System (Option Failure) → Out System (Option Failure)
shut (returns e s) = returns e (on_pool (set_state_unsafe shutdown) s)
shut (panics p s) =
    returns (some (get_recover_error p s.pool.external_id)) (on_pool (set_state_unsafe shutdown) s)
shut (blocks s) = blocks s

-- The body of `shutdownUnsafe` behind the check of the state.
unfoldable pub shutdown_body : PoolShutdownMode → ℕ → List Poll → M System (Option Failure)
shutdown_body mode timeout polls = do
  modify (on_pool (set_state_unsafe shutting_down))
  close_queue
  stop_queue mode
  stop_workers_unsafe mode timeout polls
  close_errors

-- `shutdownUnsafe`
unfoldable pub shutdown_unsafe : PoolShutdownMode → ℕ → List Poll → M System (Option Failure)
shutdown_unsafe mode timeout polls s =
    if is_down s.pool.state then returns none s else shut (shutdown_body mode timeout polls s)

unfoldable pub sent_stop :
    Option Failure → System → Out (Chan (Unit {0})) (Unit {0}) → Out System (Option Failure)
sent_stop e s (returns a c) = returns e (on_pool (λ q. record q { stop_ch = c }) s)
sent_stop e s (panics p c) = panics p (on_pool (λ q. record q { stop_ch = c }) s)
sent_stop e s (blocks c) = blocks (on_pool (λ q. record q { stop_ch = c }) s)

-- `if p.stopCh != nil { p.stopCh <- true; close(p.stopCh) }`
unfoldable pub signal_stop : Option Failure → M System (Option Failure)
unfolding sent_stop
signal_stop e s =
    if s.pool.made then sent_stop e s (bind (send tt s.pool.stop_ch) (λ _. close)) else returns e s

-- `Stop`, at a pointer that is not nil.
unfoldable pub stop : PoolShutdownMode → ℕ → List Poll → M System (Option Failure)
stop mode timeout polls s =
    if is_down s.pool.state
    then returns none s
    else bind (shutdown_unsafe mode timeout polls s) signal_stop
