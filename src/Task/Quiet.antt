-- ===== src/Task/Quiet.antt =====
-- What `process` leaves of a task on every way back: it is never ready again, and a short task that
-- signals through a wait group alone always comes back.
use goapp.Base.{ℕ, ℤ, true, false, Option, none, some, ◌≡◌, refl, is_neg, is_some, arith}
use goapp.GoRuntime.{returns, does_block, state_of}
use goapp.Task.{Task, TaskState, Handler, is_ready}
use goapp.Task.World.{World, notify}
use goapp.Task.Process.{TaskRun, Env, body, process, process_locked, process_f}
use goapp.Task.Outcomes.{started}
use goapp.Task.Signals.{body-Keeps, body_begun, is_begun}

-- A task that can be given to a worker: unlocked and with a handler.
pub record IsGiven (t : Task) : Type 0 where
  pub unlocked : t.locked ≡ false
  pub has_f : is_some t.f ≡ true

-- A task that never makes a worker wait: short, and without a channel for its end.
pub record IsQuiet (t : Task) : Type 0 where
  pub is_given : IsGiven t
  pub is_short : is_neg t.timeout ≡ true
  pub no_done_ch : t.done_ch ≡ none

ready_or_not : (s : TaskState) → is_begun s ≡ true → is_ready s ≡ false
ready_or_not s h = ground arith

notify-none-does_not_block : (g : Option ℕ) (w : World) → does_block (notify none g w) ≡ false
unfolding notify
notify-none-does_not_block none w = ground arith
notify-none-does_not_block (some h) w = ground arith

process_f-not_ready :
    (g : Option Handler) (worker_timeout : ℤ) (env : Env) (r s : TaskRun)
    → is_some g ≡ true
    → r.task.locked ≡ false
    → process_f g worker_timeout env r ≡ returns tt s
    → is_ready s.task.state ≡ false
unfolding process_f process_locked
process_f-not_ready none worker_timeout env r s g l e = cc
process_f-not_ready (some f) worker_timeout env r s g l e = ground (
  arith,
  body_begun f worker_timeout env (started r.task) refl,
  ready_or_not (state_of (body f worker_timeout env (started r.task))).state,
)

-- An unlocked task with a handler that comes back from `process` is not ready any more, however it
-- ended.
pub process-not_ready :
    (worker_timeout : ℤ) (env : Env) (r s : TaskRun)
    → IsGiven r.task
    → process worker_timeout env r ≡ returns tt s
    → is_ready s.task.state ≡ false
unfolding process
process-not_ready worker_timeout env r s g e =
    process_f-not_ready r.task.f worker_timeout env r s g.has_f g.unlocked e

process_f-quiet :
    (g : Option Handler) (worker_timeout : ℤ) (env : Env) (r : TaskRun)
    → IsQuiet r.task
    → does_block (process_f g worker_timeout env r) ≡ false
unfolding process_f process_locked body
process_f-quiet none worker_timeout env r q = refl
process_f-quiet (some f) worker_timeout env r q =
    ground (arith, notify-none-does_not_block r.task.wg r.world)

process_f-IsQuiet :
    (g : Option Handler) (worker_timeout : ℤ) (env : Env) (r s : TaskRun)
    → IsQuiet r.task
    → process_f g worker_timeout env r ≡ returns tt s
    → IsQuiet s.task
unfolding process_f process_locked body
process_f-IsQuiet none worker_timeout env r s q e = ground arith
process_f-IsQuiet (some f) worker_timeout env r s q e = ground arith

-- A quiet task comes back from `process`, and is quiet then.
pub process-does_not_block :
    (worker_timeout : ℤ) (env : Env) (r : TaskRun)
    → IsQuiet r.task
    → does_block (process worker_timeout env r) ≡ false
unfolding process
process-does_not_block worker_timeout env r q = process_f-quiet r.task.f worker_timeout env r q

pub process-IsQuiet :
    (worker_timeout : ℤ) (env : Env) (r s : TaskRun)
    → IsQuiet r.task
    → process worker_timeout env r ≡ returns tt s
    → IsQuiet s.task
unfolding process
process-IsQuiet worker_timeout env r s q e = process_f-IsQuiet r.task.f worker_timeout env r s q e

process_f-IsGiven :
    (g : Option Handler) (worker_timeout : ℤ) (env : Env) (r s : TaskRun)
    → IsGiven r.task
    → process_f g worker_timeout env r ≡ returns tt s
    → IsGiven s.task
unfolding process_f process_locked
process_f-IsGiven none worker_timeout env r s g e = ground arith
process_f-IsGiven (some f) worker_timeout env r s g e =
    ground (arith, body-Keeps f worker_timeout env (started r.task))

-- A task that comes back from `process` can be given to a worker again.
pub process-IsGiven :
    (worker_timeout : ℤ) (env : Env) (r s : TaskRun)
    → IsGiven r.task
    → process worker_timeout env r ≡ returns tt s
    → IsGiven s.task
unfolding process
process-IsGiven worker_timeout env r s g e = process_f-IsGiven r.task.f worker_timeout env r s g e
