-- ===== src/Task/Process.antt =====
-- pkg/common/workerpool/task.go, `process`: from the lock to the deferred functions, with the wait
-- of a long task as one `select` over the events that come before it.
use goapp.Base.{
  ℕ, ℤ, pos, negsuc, zero, suc, is_neg, Bool, true, false, Option, none, some, List, if◌then◌else◌,
}
use goapp.GoRuntime.{
  Chan, M, Out, returns, panics, blocks, ◌>>◌, defer, defer_recover, modify, recv, close, can_recv,
  Panic, timer_stop, timer_reset,
}
use goapp.Errors.{
  new_typed, get_recover_error, worker_pool_task_already_locked, worker_pool_task_incorrect_state,
  worker_pool_stop_signal, worker_pool_timeout_error,
}
use goapp.Task.{
  Task, Handler, HandlerOut, returned, panicked, in_process, done_success, recover_err,
  terminated_stop_signal, terminated_timeout, is_ready, set_state_unsafe, set_error,
}
use goapp.Task.World.{World, notify}
use goapp.Task.Run.{Event, happen_all}

-- The state that a call of `process` reads and writes.
pub record TaskRun : Type 0 where
  pub task : Task
  pub world : World

-- The cases of the `select`.
pub data Branch : Type 0 where
  on_done on_stop on_timer : Branch

-- What the scheduler and the clock decide for one call: the events before the `select`, the case
-- that is taken where several are ready, and the time that the task took.
pub record Env : Type 0 where
  pub events : List Event
  pub pick : Branch
  pub elapsed : ℕ

abbrev pub on_task : (Task → Task) → M TaskRun (Unit {0})
on_task g r = returns tt (record r { task = g r.task })

abbrev lift_task : World → Out Task (Unit {0}) → Out TaskRun (Unit {0})
lift_task w (returns a t) = returns tt (record { task = t; world = w })
lift_task w (panics p t) = panics p (record { task = t; world = w })
lift_task w (blocks t) = blocks (record { task = t; world = w })

abbrev lift_world : Task → Out World (Unit {0}) → Out TaskRun (Unit {0})
lift_world t (returns a w) = returns tt (record { task = t; world = w })
lift_world t (panics p w) = panics p (record { task = t; world = w })
lift_world t (blocks w) = blocks (record { task = t; world = w })

-- The task's own timeout has priority over that of the worker; 0 is "no limit".
unfoldable pub effective_timeout : ℤ → ℤ → ℕ
effective_timeout (pos (suc n)) worker_timeout = suc n
effective_timeout (pos zero) (pos n) = n
effective_timeout (negsuc k) (pos n) = n
effective_timeout (pos zero) (negsuc m) = 0
effective_timeout (negsuc k) (negsuc m) = 0

unfoldable pub arm : ℕ → Task → Task
arm zero t = t
arm (suc d) t = record t { timer = timer_reset (suc d) t.timer }

-- `if !ts.timer.Stop() { <-ts.timer.C }`
stop_timer : M Task (Unit {0})
stop_timer t =
    let (timer, stopped) = timer_stop t.timer in
    if stopped
    then returns tt (record t { timer = timer })
    else if timer.fired
    then returns tt (record t { timer = record timer { fired = false } })
    else blocks (record t { timer = timer })

done_case : ℕ → M Task (Unit {0})
unfolding stop_timer
done_case elapsed = do
  stop_timer
  modify (λ t. set_state_unsafe done_success (record t { duration = elapsed }))

store_closed : Task → Out (Chan (Unit {0})) (Unit {0}) → Out Task (Unit {0})
store_closed t (returns a c) = returns tt (record t { local_done_ch = c })
store_closed t (panics p c) = panics p t
store_closed t (blocks c) = blocks t

-- `ts.cancel(); close(ts.localDoneCh)`
interrupt : M Task (Unit {0})
unfolding store_closed
interrupt t = let u = record t { ctx_closed = true } in store_closed u (close u.local_done_ch)

stop_case : Option (Unit {0}) → M Task (Unit {0})
unfolding interrupt
stop_case (some _) = do
  modify (λ t. set_error (some (new_typed worker_pool_stop_signal t.external_id)) t)
  modify (set_state_unsafe terminated_stop_signal)
  interrupt
stop_case none = interrupt

timer_case : M Task (Unit {0})
unfolding interrupt
timer_case = do
  modify (λ t. record t { timer = record t.timer { fired = false } })
  modify (λ t. set_error (some (new_typed worker_pool_timeout_error t.external_id)) t)
  modify (set_state_unsafe terminated_timeout)
  interrupt

take_done : ℕ → Task → Out (Chan (Unit {0})) (Option (Unit {0})) → Out Task (Unit {0})
unfolding done_case
take_done elapsed t (returns a c) = done_case elapsed (record t { local_done_ch = c })
take_done elapsed t (panics p c) = panics p t
take_done elapsed t (blocks c) = blocks t

take_stop : Task → Out (Chan (Unit {0})) (Option (Unit {0})) → Out Task (Unit {0})
unfolding stop_case
take_stop t (returns a c) = stop_case a (record t { stop_ch = c })
take_stop t (panics p c) = panics p t
take_stop t (blocks c) = blocks t

-- A case of the `select` that the scheduler takes.
unfoldable pub take_case : ℕ → Branch → M Task (Unit {0})
unfolding take_done take_stop timer_case
take_case elapsed on_done t = take_done elapsed t (recv t.local_done_ch)
take_case elapsed on_stop t = take_stop t (recv t.stop_ch)
take_case elapsed on_timer t = timer_case t

abbrev pub is_ready_case : Task → Branch → Bool
is_ready_case t on_done = can_recv t.local_done_ch
is_ready_case t on_stop = can_recv t.stop_ch
is_ready_case t on_timer = t.timer.fired

-- The `select`: the preferred case if it is ready, else one that is, else the task waits for good.
unfoldable pub select : ℕ → Branch → M Task (Unit {0})
select elapsed pick t =
    if is_ready_case t pick
    then take_case elapsed pick t
    else if is_ready_case t on_done
    then take_case elapsed on_done t
    else if is_ready_case t on_stop
    then take_case elapsed on_stop t
    else if is_ready_case t on_timer
    then take_case elapsed on_timer t
    else blocks t

-- The handler of a short task, in the goroutine of the worker.
unfoldable pub short_task : HandlerOut → M Task (Unit {0})
short_task (returned e rs) t =
    returns tt (set_state_unsafe done_success (record t { err = e; responses = rs }))
short_task (panicked p) t = panics p t

-- The task with its timer set.
abbrev pub armed : ℤ → Task → Task
armed worker_timeout t = arm (effective_timeout t.timeout worker_timeout) t

-- The task as the `select` of a long task finds it, in a program that no event has ended.
unfoldable pub waiting : Handler → ℤ → Env → Task → Task
unfolding arm
waiting f worker_timeout env t = happen_all f env.events (armed worker_timeout t)

unfoldable pub body : Handler → ℤ → Env → M Task (Unit {0})
unfolding short_task
body f worker_timeout env t =
    if is_neg t.timeout
    then short_task (f none t.requests) t
    else select env.elapsed env.pick (waiting f worker_timeout env t)

abbrev pub recovered : Panic → M TaskRun (Unit {0})
recovered p =
    on_task
      λ t. set_state_unsafe recover_err (set_error (some (get_recover_error p t.external_id)) t)

abbrev pub signal : M TaskRun (Unit {0})
signal r = lift_world r.task (notify r.task.done_ch r.task.wg r.world)

-- From the check of the state on, with the two deferred functions that are set up behind it.
unfoldable pub process_locked : Handler → ℤ → Env → M TaskRun (Unit {0})
process_locked f worker_timeout env r =
    if is_ready r.task.state
    then defer_recover recovered
        (defer signal (λ s. lift_task s.world (body f worker_timeout env s.task)))
        (record r { task = set_state_unsafe in_process r.task })
    else on_task
        (λ t. set_error (some (new_typed worker_pool_task_incorrect_state t.external_id)) t) r

unfoldable pub process_f : Option Handler → ℤ → Env → M TaskRun (Unit {0})
unfolding process_locked
process_f none worker_timeout env r = returns tt r
process_f (some f) worker_timeout env r =
    if r.task.locked
    then on_task (λ t. set_error (some (new_typed worker_pool_task_already_locked t.external_id)) t)
        r
    else defer (on_task λ t. record t { locked = false }) (process_locked f worker_timeout env)
        (record r { task = record r.task { locked = true } })

-- `process` at a pointer that is not nil.
unfoldable pub process : ℤ → Env → M TaskRun (Unit {0})
unfolding process_f
process worker_timeout env r = process_f r.task.f worker_timeout env r
