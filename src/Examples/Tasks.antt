-- ===== src/Examples/Tasks.antt =====
-- The theorems about tasks at concrete tasks.
use goapp.Base.{pos, true, false, [], ◌∷◌, ◌≡◌, refl, arith}
use goapp.GoRuntime.{does_block}
use goapp.Task.Run.{ends_program, event_out}
use goapp.Task.World.{World, notify, update}
use goapp.Task.Process.{TaskRun, process, body, effective_timeout}
use goapp.Task.Signals.{process-Ends, process-Ends_in_time, Ends}
use goapp.Task.Select.{body_hangs_untimed}
use goapp.Examples.Data.{
  short_task_0, long_task_0, unlimited_task, echo_handler, world_0, calm, slow, ended,
}

abbrev short_run : TaskRun
short_run = record { task = short_task_0; world = world_0 }

abbrev long_run : TaskRun
long_run = record { task = long_task_0; world = world_0 }

abbrev after_signal : World
after_signal = record world_0 { wgs = update world_0.wgs 0 0 }

abbrev after_both : World
after_both = record {
  chans = update world_0.chans 0 (record { cap = 2; buf = tt ∷ []; closed = false });
  wgs = update world_0.wgs 0 0;
}

process-Ends_example : Ends after_signal (process (pos 0) calm short_run)
unfolding body notify ends_program event_out
process-Ends_example =
    process-Ends (pos 0) calm short_run echo_handler after_signal refl refl refl refl refl refl refl

process-Ends_in_time_example : Ends after_both (process (pos 0) slow long_run)
unfolding body notify effective_timeout ends_program event_out
process-Ends_in_time_example =
    process-Ends_in_time (pos 0) slow long_run echo_handler after_both refl refl refl refl refl refl
      (ground arith) refl refl

body_hangs_untimed_example : does_block (body echo_handler (pos 0) ended unlimited_task) ≡ true
unfolding effective_timeout
body_hangs_untimed_example =
    body_hangs_untimed echo_handler (pos 0) ended unlimited_task refl refl refl (refl, refl, refl)
