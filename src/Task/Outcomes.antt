-- ===== src/Task/Outcomes.antt =====
-- How `process` ends: on every branch of its guards, and of a short task.
use goapp.Base.{ℤ, true, false, Option, none, some, ◌≡◌, refl, inl, inr, arith, is_some, Bool-cases}
use goapp.GoRuntime.{M, Panic, returns, panics, does_panic, does_panic-after, does_panic-catch}
use goapp.Errors.{
  new_typed, get_recover_error, worker_pool_task_already_locked, worker_pool_task_incorrect_state,
}
use goapp.Task.{Task, Handler, in_process, recover_err, is_ready, set_state_unsafe, set_error}
use goapp.Task.World.{World, notify}
use goapp.Task.Process.{TaskRun, Env, process, process_locked, process_f, body, recovered, on_task}

process_locked-does_not_panic :
    (f : Handler) (worker_timeout : ℤ) (env : Env) (r : TaskRun)
    → does_panic (process_locked f worker_timeout env r) ≡ false
unfolding process_locked
process_locked-does_not_panic f worker_timeout env r = elim (Bool-cases (is_ready r.task.state)) [
  | inl e ↦ rw e (does_panic-catch _ recovered (λ _ _. refl))
  | inr e ↦ rw e
]

unlock : M TaskRun (Unit {0})
unlock = on_task λ t. record t { locked = false }

process_f-does_not_panic :
    (f : Option Handler) (worker_timeout : ℤ) (env : Env) (r : TaskRun)
    → does_panic (process_f f worker_timeout env r) ≡ false
unfolding process_f unlock
process_f-does_not_panic none worker_timeout env r = refl
process_f-does_not_panic (some f) worker_timeout env r = elim (Bool-cases r.task.locked) [
  | inl e ↦ rw e
  | inr e ↦
      let s = record r { task = record r.task { locked = true } } in
      rw e (
        does_panic-after (process_locked f worker_timeout env s) unlock
          (process_locked-does_not_panic f worker_timeout env s) (λ _. refl))
]

-- `process` never panics, whatever the handler, the channels and the wait group do.
pub process-does_not_panic :
    (worker_timeout : ℤ) (env : Env) (r : TaskRun)
    → does_panic (process worker_timeout env r) ≡ false
unfolding process
process-does_not_panic worker_timeout env r = process_f-does_not_panic r.task.f worker_timeout env r

pub process_not_ready :
    (worker_timeout : ℤ) (env : Env) (r : TaskRun)
    → r.task.locked ≡ false
    → is_some r.task.f ≡ true
    → is_ready r.task.state ≡ false
    → process worker_timeout env r
      ≡ returns tt (record r {
        task =
            set_error (some (new_typed worker_pool_task_incorrect_state r.task.external_id)) r.task;
      })
unfolding process
process_not_ready worker_timeout env r l f s = ground arith

pub process_locked_elsewhere :
    (worker_timeout : ℤ) (env : Env) (r : TaskRun)
    → r.task.locked ≡ true
    → is_some r.task.f ≡ true
    → process worker_timeout env r
      ≡ returns tt (record r {
        task =
            set_error (some (new_typed worker_pool_task_already_locked r.task.external_id)) r.task;
      })
unfolding process
process_locked_elsewhere worker_timeout env r l f = ground arith

-- The task as `process` hands it to its body.
abbrev pub started : Task → Task
started t = set_state_unsafe in_process (record t { locked = true })

-- A ready task whose body returns, and whose signal goes through, ends as the body leaves it.
pub process_of_body :
    (worker_timeout : ℤ) (env : Env) (r : TaskRun) (f : Handler) (u : Task) (w : World)
    → r.task.locked ≡ false
    → r.task.f ≡ some f
    → is_ready r.task.state ≡ true
    → body f worker_timeout env (started r.task) ≡ returns tt u
    → notify u.done_ch u.wg r.world ≡ returns tt w
    → process worker_timeout env r
      ≡ returns tt (record { task = record u { locked = false }; world = w })
unfolding process process_locked
process_of_body worker_timeout env r f u w l e s b n = ground arith

-- A panic of the body is recovered, after the signal: it ends in the task's error and state.
pub process_of_panic :
    (worker_timeout : ℤ) (env : Env) (r : TaskRun) (f : Handler) (p : Panic) (u : Task) (w : World)
    → r.task.locked ≡ false
    → r.task.f ≡ some f
    → is_ready r.task.state ≡ true
    → body f worker_timeout env (started r.task) ≡ panics p u
    → notify u.done_ch u.wg r.world ≡ returns tt w
    → process worker_timeout env r
      ≡ returns tt (record {
        task = record u {
          locked = false;
          prev_state = u.state;
          state = recover_err;
          err = some (get_recover_error p u.external_id);
        };
        world = w;
      })
unfolding process process_locked
process_of_panic worker_timeout env r f p u w l e s b n = ground arith
