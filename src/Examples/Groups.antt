-- ===== src/Examples/Groups.antt =====
-- The theorems about groups of tasks at concrete groups.
use goapp.Base.{ℕ, pos, Option, none, some, List, [], ◌∷◌, refl}
use goapp.GoRuntime.{state_of}
use goapp.Pool.{System}
use goapp.PoolService.Group.{by_wg, submit_all}
use goapp.PoolService.Counter.{CounterEvent, task_done, timer_fired, counter_run, new_counter}
use goapp.PoolService.CounterLaws.{counter_run-frees, Freed}
use goapp.Examples.Data.{bg_system}

abbrev tasks : List (Option ℕ)
tasks = some 4 ∷ none ∷ some 5 ∷ []

abbrev sent : System
sent = state_of (submit_all (by_wg 0) 7 (pos 10) (λ i. i) tasks bg_system)

abbrev cases : List CounterEvent
cases = task_done ∷ timer_fired ∷ task_done ∷ []

counter_run-frees_example : Freed (counter_run cases (new_counter 7 3))
counter_run-frees_example = counter_run-frees 7 3 cases refl
