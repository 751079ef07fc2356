-- ===== src/Examples/Workers.antt =====
-- The theorems about workers at concrete workers.
use goapp.Base.{refl}
use goapp.GoRuntime.{state_of}
use goapp.Worker.Steps.{step, check}
use goapp.Worker.Loop.{IsConsistent, step-IsConsistent}
use goapp.Examples.Data.{worker_run_0, choice_0}

step-IsConsistent_example : IsConsistent (state_of (step choice_0 worker_run_0)).worker
unfolding step check
step-IsConsistent_example =
    step-IsConsistent choice_0 worker_run_0 (state_of (step choice_0 worker_run_0))
      (refl, refl, refl, refl) refl
