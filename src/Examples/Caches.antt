-- ===== src/Examples/Caches.antt =====
-- The theorems about the cache of tasks at concrete caches.
use goapp.Base.{pos, true, false, some, [], ◌∷◌, ◌≡◌, refl, arith}
use goapp.GoRuntime.{state_of}
use goapp.Task.{Task}
use goapp.Task.Run
use goapp.Task.Process.{body, take_case, select, waiting, effective_timeout}
use goapp.TaskPool.{TaskPool, new_task, put_task}
use goapp.TaskPool.Clean.{IsClean, NewFrom, new_task-IsNew}
use goapp.TaskPool.Recycle.{body-IsClean}
use goapp.TaskPool.Poison.{stopped_task_is_reused, signalled}
use goapp.Examples.Data.{running_task, done_task, echo_handler, ended, empty_cache, args_0}

done_task-IsClean : IsClean done_task
done_task-IsClean = record {
  stop_ch_empty = refl;
  local_done_ch_empty = refl;
  timer_stopped = refl;
  ctx_open = refl;
  unlocked = refl;
}

abbrev full_cache : TaskPool
full_cache = record empty_cache { cache = done_task ∷ [] }

new_task-IsNew_example : NewFrom args_0 (new_task (some 0) args_0 full_cache)
new_task-IsNew_example = new_task-IsNew (some 0) args_0 full_cache refl refl (done_task-IsClean, tt)

abbrev locked_task : Task
locked_task = record running_task { locked = true }

abbrev after_body : Task
after_body = state_of (body echo_handler (pos 0) ended locked_task)

body-IsClean_example : IsClean (record after_body { locked = false })
unfolding body select waiting Run.happen_all Run.happen effective_timeout take_case
body-IsClean_example =
    body-IsClean echo_handler (pos 0) ended locked_task after_body
      (record {
        stop_ch_empty = refl;
        local_done_ch_empty = refl;
        timer_stopped = refl;
        ctx_open = refl;
        unlocked = refl;
      })
      refl refl (omega arith) refl refl

abbrev stopped_task : Task
stopped_task = state_of (Run.stop done_task)

abbrev poisoned : TaskPool
poisoned = state_of (put_task stopped_task empty_cache)

stopped_task_is_reused_example :
    (v : Task) × ((new_task (some 0) args_0 poisoned).0 ≡ some v) × (v.stop_ch ≡ signalled)
unfolding Run.stop put_task
stopped_task_is_reused_example =
    stopped_task_is_reused done_task stopped_task empty_cache poisoned args_0 refl refl refl refl
      refl refl refl
