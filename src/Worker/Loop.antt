-- ===== src/Worker/Loop.antt =====
-- What holds of a worker at each place of its loop.
use goapp.Base.{
  ℕ, ℤ, true, false, Option, none, some, ◌≡◌, refl, ◌⊎◌, is_some, arith, ◌≢◌, ◌∙◌, sym, subst,
}
use goapp.GoRuntime.{Chan, Out, returns, panics, blocks, does_panic, Panic, catch_out}
use goapp.Task.Outcomes.{process-does_not_panic}
use goapp.Worker.{
  Worker, WorkerRun, Place, PoolShutdownMode, at_check, at_select, processing, leaving, gone,
  not_started, idle, working, worker_new, terminated, worker_recover_err, start, stop, new_worker,
  signal_stop, stop_task, shutdown_light, shutdown_soft, shutdown_hard,
}
use goapp.Worker.Steps.{Choice, step, step_at, check, choose, work, leave, leave_panicked}

-- The state, the task in process, the stop channel and the lock that belong to a place.
abbrev pub IsConsistentAt : Place → Worker → Type 0
IsConsistentAt not_started w =
    ((w.state ≡ worker_new) ⊎ (w.state ≡ worker_recover_err)) × (w.task_in_process ≡ none)
IsConsistentAt at_check w =
    (w.state ≡ idle) × (w.task_in_process ≡ none) × (is_some w.stop_ch ≡ true) × (w.locked ≡ true)
IsConsistentAt at_select w =
    (w.state ≡ idle) × (w.task_in_process ≡ none) × (is_some w.stop_ch ≡ true) × (w.locked ≡ true)
IsConsistentAt (processing h) w =
    (w.state ≡ working)
    × (w.task_in_process ≡ some h)
    × (is_some w.stop_ch ≡ true)
    × (w.locked ≡ true)
IsConsistentAt leaving w =
    (w.state ≢ working)
    × (w.task_in_process ≡ none)
    × (is_some w.stop_ch ≡ true)
    × (w.locked ≡ true)
IsConsistentAt gone w = (w.state ≡ terminated) × (w.task_in_process ≡ none) × (w.locked ≡ false)

abbrev pub IsConsistent : Worker → Type 0
IsConsistent w = IsConsistentAt w.place w

new_worker-IsConsistent :
    (id external_id : ℕ) (timeout : ℤ) → IsConsistent (new_worker id external_id timeout)
unfolding new_worker
new_worker-IsConsistent id external_id timeout = ground arith

start-IsConsistent :
    (r s : WorkerRun) → IsConsistent r.worker → start r ≡ returns tt s → IsConsistent s.worker
unfolding start
start-IsConsistent r s c e = ground arith

check-IsConsistent :
    (ch : Choice) (r s : WorkerRun)
    → IsConsistentAt at_check r.worker
    → check ch r ≡ returns tt s
    → IsConsistent s.worker
unfolding check
check-IsConsistent ch r s c e = ground arith

choose-IsConsistent :
    (ch : Choice) (r s : WorkerRun)
    → IsConsistentAt at_select r.worker
    → choose ch r ≡ returns tt s
    → IsConsistent s.worker
unfolding choose
choose-IsConsistent ch r s c e = ground arith

work-IsConsistent :
    (h : ℕ) (ch : Choice) (r s : WorkerRun)
    → IsConsistentAt (processing h) r.worker
    → work h ch r ≡ returns tt s
    → IsConsistent s.worker
unfolding work
work-IsConsistent h ch r s c e = ground arith

leave-IsConsistent :
    (r s : WorkerRun)
    → IsConsistentAt leaving r.worker
    → leave r ≡ returns tt s
    → IsConsistent s.worker
unfolding leave
leave-IsConsistent r s c e = ground arith

pub check-does_not_panic : (ch : Choice) (r : WorkerRun) → does_panic (check ch r) ≡ false
unfolding check
check-does_not_panic ch r = ground arith

pub choose-does_not_panic : (ch : Choice) (r : WorkerRun) → does_panic (choose ch r) ≡ false
unfolding choose
choose-does_not_panic ch r = ground arith

pub work-does_not_panic : (h : ℕ) (ch : Choice) (r : WorkerRun) → does_panic (work h ch r) ≡ false
unfolding work
work-does_not_panic h ch r = ground (
  arith,
  process-does_not_panic r.worker.timeout ch.env
      (record { task = r.shared.tasks h; world = r.shared.world }),
)

pub catch_none :
    (o : Out WorkerRun (Unit {0})) (h : Panic → WorkerRun → Out WorkerRun (Unit {0}))
    → does_panic o ≡ false
    → catch_out o h ≡ o
catch_none (returns a s) h e = refl
catch_none (panics p s) h e = cc
catch_none (blocks s) h e = refl

step_at-IsConsistent :
    (p : Place) (ch : Choice) (r s : WorkerRun)
    → IsConsistentAt p r.worker
    → step_at p ch r ≡ returns tt s
    → IsConsistent s.worker
unfolding step_at
step_at-IsConsistent not_started ch r s c e = cc
step_at-IsConsistent at_check ch r s c e =
    check-IsConsistent ch r s c (rw (catch_none _ leave_panicked (check-does_not_panic ch r)) at e)
step_at-IsConsistent at_select ch r s c e =
    choose-IsConsistent ch r s c
      (rw (catch_none _ leave_panicked (choose-does_not_panic ch r)) at e)
step_at-IsConsistent (processing h) ch r s c e =
    work-IsConsistent h ch r s c
      (rw (catch_none _ leave_panicked (work-does_not_panic h ch r)) at e)
step_at-IsConsistent leaving ch r s c e = leave-IsConsistent r s c e
step_at-IsConsistent gone ch r s c e = cc

-- Every step of a worker keeps its state, its task in process and its lock in line with its place.
pub step-IsConsistent :
    (ch : Choice) (r s : WorkerRun)
    → IsConsistent r.worker
    → step ch r ≡ returns tt s
    → IsConsistent s.worker
unfolding step
step-IsConsistent ch r s c e = step_at-IsConsistent r.worker.place ch r s c e

abbrev with_stop_ch : Option (Chan (Unit {0})) → Worker → Worker
with_stop_ch c w = record w { stop_ch = c }

-- `Stop` changes the stop channel of a worker, and nothing else of it.
pub stop-worker :
    (mode : PoolShutdownMode) (r s : WorkerRun)
    → stop mode r ≡ returns tt s
    → (s.worker ≡ record r.worker { stop_ch = s.worker.stop_ch })
      × (is_some s.worker.stop_ch ≡ is_some r.worker.stop_ch)
unfolding stop signal_stop stop_task
stop-worker shutdown_light r s e = ground arith
stop-worker shutdown_soft r s e = ground arith
stop-worker shutdown_hard r s e = ground arith

with_stop_ch-IsConsistent :
    (p : Place) (w : Worker) (c : Option (Chan (Unit {0})))
    → is_some c ≡ is_some w.stop_ch
    → IsConsistentAt p w
    → IsConsistentAt p (with_stop_ch c w)
with_stop_ch-IsConsistent not_started w c e h = h
with_stop_ch-IsConsistent at_check w c e h = (h.0, h.1, e ∙ h.2, h.3)
with_stop_ch-IsConsistent at_select w c e h = (h.0, h.1, e ∙ h.2, h.3)
with_stop_ch-IsConsistent (processing t) w c e h = (h.0, h.1, e ∙ h.2, h.3)
with_stop_ch-IsConsistent leaving w c e h = (h.0, h.1, e ∙ h.2, h.3)
with_stop_ch-IsConsistent gone w c e h = h

-- A call of `Stop`, from any goroutine, keeps the state, the task in process and the lock of a worker in
-- line with its place.
pub stop-IsConsistent :
    (mode : PoolShutdownMode) (r s : WorkerRun)
    → IsConsistent r.worker
    → stop mode r ≡ returns tt s
    → IsConsistent s.worker
stop-IsConsistent mode r s c e =
    let (same, kept) = stop-worker mode r s e in
    subst IsConsistent (sym same)
      (with_stop_ch-IsConsistent r.worker.place r.worker s.worker.stop_ch kept c)
