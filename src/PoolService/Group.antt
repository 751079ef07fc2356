-- ===== src/PoolService/Group.antt =====
-- pkg/common/workerpoolservice/workerpool_service.go, `RunTasksGroupWG`, and the part of
-- `RunTasksGroupCh` that sends the tasks. No other goroutine acts between two tasks that are sent.
use goapp.Base.{
  ℕ, zero, suc, ℤ, pos, negsuc, Bool, false, Option, none, some, List, [], ◌∷◌, ltb, ◌==◌,
  if◌then◌else◌,
}
use goapp.GoRuntime.{M, Out, returns, blocks, bind, catch_out}
use goapp.Errors.{Failure, new_typed, worker_pool_timeout_error, get_recover_error}
use goapp.Task.{Task, set_wg_unsafe, set_done_ch_unsafe}
use goapp.Task.World.{update}
use goapp.Pool.{System}
use goapp.PoolService.{service_add_task}

-- How a group learns of the ends of its tasks: by a wait group, or by a channel.
pub data Signal : Type 0 where
  by_wg by_ch : ℕ → Signal

abbrev pub mark : Signal → Task → Task
mark (by_wg g) t = set_wg_unsafe (some g) t
mark (by_ch c) t = set_done_ch_unsafe (some c) t

abbrev pub mark_at : Signal → ℕ → System → System
mark_at g h s = record s {
  shared = record s.shared { tasks = update s.shared.tasks h (mark g (s.shared.tasks h)) };
}

-- `s.cfg.TotalTimeout > 0 && time.Now().After(startTime.Add(s.cfg.TotalTimeout))`
abbrev pub is_late : ℤ → ℕ → Bool
is_late (pos zero) elapsed = false
is_late (pos (suc n)) elapsed = ltb (suc n) elapsed
is_late (negsuc n) elapsed = false

-- The body of the loop over the tasks, at a task that is not nil.
unfoldable pub submit : Signal → ℕ → ℤ → ℕ → ℕ → M System (Option Failure)
submit g external_id total elapsed h s =
    if is_late total elapsed
    then returns (some (new_typed worker_pool_timeout_error external_id)) s
    else service_add_task (some h) (mark_at g h s)

-- `if err != nil { return err }`
abbrev pub unless_failed : M System (Option Failure) → Option Failure → M System (Option Failure)
unless_failed m none = m
unless_failed m (some e) = returns (some e)

-- The loop over the tasks; `clock i` is the time since the start at its round `i`.
unfoldable pub submit_all : Signal → ℕ → ℤ → (ℕ → ℕ) → List (Option ℕ) → M System (Option Failure)
submit_all g external_id total clock [] s = returns none s
submit_all g external_id total clock (none ∷ ts) s =
    submit_all g external_id total (λ i. clock (suc i)) ts s
submit_all g external_id total clock (some h ∷ ts) s =
    bind (submit g external_id total (clock 0) h s)
      (unless_failed (submit_all g external_id total (λ i. clock (suc i)) ts))

-- `wg.Wait()`, where `others` is what the workers do until then.
unfoldable pub wait_group : ℕ → (System → System) → M System (Option Failure)
wait_group g others s =
    let t = others s in if t.shared.world.wgs g == 0 then returns none t else blocks t

-- The wait group is a local variable: its counter is 0 before the first task.
abbrev pub with_new_wg : ℕ → System → System
with_new_wg g s = record s {
  shared = record s.shared {
    world = record s.shared.world { wgs = update s.shared.world.wgs g 0 };
  };
}

group_recovered : ℕ → Out System (Option Failure) → Out System (Option Failure)
group_recovered external_id o = catch_out o (λ p. returns (some (get_recover_error p external_id)))

-- `RunTasksGroupWG`
unfoldable pub run_tasks_group_wg :
    ℕ → ℕ → ℤ → (ℕ → ℕ) → List (Option ℕ) → (System → System) → M System (Option Failure)
unfolding group_recovered
run_tasks_group_wg g external_id total clock tasks others s = group_recovered external_id (
    bind (submit_all (by_wg g) external_id total clock tasks (with_new_wg g s))
      (unless_failed (wait_group g others)))
