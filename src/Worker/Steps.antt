-- ===== src/Worker/Steps.antt =====
-- pkg/common/workerpool/worker.go, the loop of `run`: one function for each place at which the
-- goroutine of a worker may be interrupted, and the deferred function behind the loop.
use goapp.Base.{ℕ, Bool, false, Option, none, some, not, ◌&&◌, ◌||◌, if◌then◌else◌}
use goapp.GoRuntime.{
  Chan, M, Out, returns, panics, blocks, bind, recv, can_recv, wg_done, Panic, catch_out,
}
use goapp.Errors.{get_recover_error}
use goapp.Task.World.{update}
use goapp.Task.Process.{Env, TaskRun, process}
use goapp.Worker.{
  WorkerRun, WorkerState, Place, at_check, at_select, processing, leaving, gone, not_started, idle,
  working, terminated, worker_recover_err, terminating_stop_signal, terminating_parent_ctx_closed,
  terminating_task_ch_closed, set_state_unsafe, report,
}

-- What the runtime decides for a step: which ready case of a `select` it takes, and the events of a
-- call of `process`.
pub record Choice : Type 0 where
  pub stop_first : Bool
  pub env : Env

abbrev pub go_to : Place → WorkerRun → WorkerRun
go_to p r = record r { worker = record r.worker { place = p } }

abbrev pub leave_as : WorkerState → WorkerRun → WorkerRun
leave_as s r = record r { worker = record r.worker { state = s; place = leaving } }

abbrev stop_ready : Option (Chan (Unit {0})) → Bool
stop_ready none = false
stop_ready (some c) = can_recv c

-- A command to stop, or the closed channel, which is only logged.
took_stop : WorkerRun → Out (Chan (Unit {0})) (Option (Unit {0})) → Out WorkerRun (Unit {0})
took_stop r (returns (some _) c) =
    returns tt (
      leave_as terminating_stop_signal (record r { worker = record r.worker { stop_ch = some c } }))
took_stop r (returns none c) = returns tt (go_to leaving r)
took_stop r (panics p c) = panics p r
took_stop r (blocks c) = blocks r

take_stop : Option (Chan (Unit {0})) → M WorkerRun (Unit {0})
unfolding took_stop
take_stop none r = blocks r
take_stop (some c) r = took_stop r (recv c)

-- The first `select`, with its `default`.
unfoldable pub check : Choice → M WorkerRun (Unit {0})
unfolding take_stop
check ch r =
    if stop_ready r.worker.stop_ch && (not r.shared.ctx_done || ch.stop_first)
    then take_stop r.worker.stop_ch r
    else (if r.shared.ctx_done
        then returns tt (leave_as terminating_parent_ctx_closed r)
        else returns tt (go_to at_select r))

took_task : WorkerRun → Out (Chan (Option ℕ)) (Option (Option ℕ)) → Out WorkerRun (Unit {0})
took_task r (returns (some (some h)) c) = returns tt (record {
  worker = record r.worker { state = working; task_in_process = some h; place = processing h };
  shared = record r.shared { task_queue_ch = c };
})
took_task r (returns (some none) c) =
    returns tt (go_to at_check (record r { shared = record r.shared { task_queue_ch = c } }))
took_task r (returns none c) = returns tt (leave_as terminating_task_ch_closed r)
took_task r (panics p c) = panics p r
took_task r (blocks c) = blocks r

-- The second `select`.
unfoldable pub choose : Choice → M WorkerRun (Unit {0})
unfolding took_task take_stop
choose ch r =
    if stop_ready r.worker.stop_ch && (not (can_recv r.shared.task_queue_ch) || ch.stop_first)
    then take_stop r.worker.stop_ch r
    else took_task r (recv r.shared.task_queue_ch)

processed : ℕ → WorkerRun → Out TaskRun (Unit {0}) → Out WorkerRun (Unit {0})
processed h r (returns a s) = returns tt (record {
  worker = record r.worker { state = idle; task_in_process = none; place = at_check };
  shared = record r.shared { tasks = update r.shared.tasks h s.task; world = s.world };
})
processed h r (panics p s) = panics p (record r {
  shared = record r.shared { tasks = update r.shared.tasks h s.task; world = s.world };
})
processed h r (blocks s) = blocks r

-- `task.process(wr.id, wr.timeout)` and what follows it in the loop.
unfoldable pub work : ℕ → Choice → M WorkerRun (Unit {0})
unfolding processed
work h ch r =
    processed h r
      (process r.worker.timeout ch.env (record { task = r.shared.tasks h; world = r.shared.world }))

lowered : WorkerRun → Out ℕ (Unit {0}) → Out WorkerRun (Unit {0})
lowered r (returns a n) = returns tt (
    go_to gone (record {
      worker = record r.worker { locked = false };
      shared = record r.shared { run_wg = some n };
    }))
lowered r (panics p n) = panics p r
lowered r (blocks n) = blocks r

done_wg : Option ℕ → M WorkerRun (Unit {0})
unfolding lowered
done_wg none r = returns tt (go_to gone (record r { worker = record r.worker { locked = false } }))
done_wg (some n) r = lowered r (wg_done n)

-- The deferred functions behind the loop, where no panic came, and where one did.
unfoldable pub leave : M WorkerRun (Unit {0})
unfolding done_wg
leave r = done_wg r.shared.run_wg (record r { worker = set_state_unsafe terminated r.worker })

unfoldable pub leave_panicked : Panic → M WorkerRun (Unit {0})
unfolding done_wg
leave_panicked p r =
    bind
      (report (get_recover_error p r.worker.external_id)
        (record r { worker = set_state_unsafe worker_recover_err r.worker }))
      (λ _ s. done_wg s.shared.run_wg s)

-- The deferred function recovers a panic of the loop; nothing recovers one of its own.
unfoldable pub step_at : Place → Choice → M WorkerRun (Unit {0})
step_at not_started ch r = blocks r
step_at at_check ch r = catch_out (check ch r) leave_panicked
step_at at_select ch r = catch_out (choose ch r) leave_panicked
step_at (processing h) ch r = catch_out (work h ch r) leave_panicked
step_at leaving ch r = leave r
step_at gone ch r = blocks r

-- One step of a worker's goroutine. `blocks` is a step that cannot be made yet.
unfoldable pub step : Choice → M WorkerRun (Unit {0})
unfolding step_at
step ch r = step_at r.worker.place ch r
