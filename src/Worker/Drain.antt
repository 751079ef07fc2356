-- ===== src/Worker/Drain.antt =====
-- A worker empties a closed queue: it processes every task in it, in order, and terminates.
use goapp.Base.{
  ℕ, zero, suc, true, false, Option, none, some, List, [], ◌∷◌, ◌≡◌, refl, arith, map, All, ◌==◌,
  Bool-cases, inl, inr,
}
use goapp.GoRuntime.{Chan, Out, returns, panics, blocks, make_chan, does_block, does_panic}
use goapp.Task.{Task, is_ready}
use goapp.Task.World.{update}
use goapp.Task.Process.{TaskRun, process}
use goapp.Task.Outcomes.{process-does_not_panic}
use goapp.Task.Quiet.{IsQuiet, process-does_not_block, process-IsQuiet, process-not_ready}
use goapp.Worker.{
  WorkerRun, at_check, at_select, processing, gone, idle, working, terminated,
  terminating_task_ch_closed,
}
use goapp.Worker.Steps.{Choice, step, check, choose, work, go_to, leave_as}

-- The state after a step; one that cannot be made yet changes nothing.
abbrev after : WorkerRun → Out WorkerRun (Unit {0}) → WorkerRun
after r (returns a s) = s
after r (panics p s) = s
after r (blocks s) = r

-- A number of steps of one worker, with the runtime's choice for each.
unfoldable pub run_steps : ℕ → (ℕ → Choice) → WorkerRun → WorkerRun
run_steps zero ch r = r
run_steps (suc n) ch r = run_steps n (λ i. ch (suc i)) (after r (step (ch zero) r))

-- Three steps for each task, and three to leave.
abbrev pub steps_for : List ℕ → ℕ
steps_for [] = 3
steps_for (h ∷ hs) = suc (suc (suc (steps_for hs)))

-- A worker before its loop, over the closed queue `hs`, that nobody stops.
pub record IsDraining (hs : List ℕ) (r : WorkerRun) : Type 0 where
  pub place_check : r.worker.place ≡ at_check
  pub not_stopped : r.worker.stop_ch ≡ some (make_chan 1)
  pub ctx_open : r.shared.ctx_done ≡ false
  pub queue_closed : r.shared.task_queue_ch.closed ≡ true
  pub queue_items : r.shared.task_queue_ch.buf ≡ map some hs
  pub no_wg : r.shared.run_wg ≡ none
  pub quiet : (k : ℕ) → IsQuiet (r.shared.tasks k)

-- What the worker has done: it is gone, the queue is empty, no task of the list is ready, and none
-- has become so.
pub record HasDrained (hs : List ℕ) (r s : WorkerRun) : Type 0 where
  pub place_gone : s.worker.place ≡ gone
  pub state_terminated : s.worker.state ≡ terminated
  pub queue_empty : s.shared.task_queue_ch.buf ≡ []
  pub handled : All (λ h. is_ready (s.shared.tasks h).state ≡ false) hs
  pub kept :
      (k : ℕ)
      → is_ready (r.shared.tasks k).state ≡ false
      → is_ready (s.shared.tasks k).state ≡ false

pub step_check :
    (ch : Choice) (r : WorkerRun)
    → r.worker.place ≡ at_check
    → r.worker.stop_ch ≡ some (make_chan 1)
    → r.shared.ctx_done ≡ false
    → step ch r ≡ returns tt (go_to at_select r)
unfolding step check
step_check ch r p n o = ground arith

pub step_closed :
    (ch : Choice) (r : WorkerRun)
    → r.worker.place ≡ at_select
    → r.worker.stop_ch ≡ some (make_chan 1)
    → r.shared.task_queue_ch.buf ≡ []
    → r.shared.task_queue_ch.closed ≡ true
    → step ch r ≡ returns tt (leave_as terminating_task_ch_closed r)
unfolding step choose
step_closed ch r p n b c = ground arith

abbrev pub with_queue : List (Option ℕ) → Chan (Option ℕ) → Chan (Option ℕ)
with_queue b c = record c { buf = b }

pub step_take :
    (ch : Choice) (r : WorkerRun) (h : ℕ) (rest : List (Option ℕ))
    → r.worker.place ≡ at_select
    → r.worker.stop_ch ≡ some (make_chan 1)
    → r.shared.task_queue_ch.buf ≡ some h ∷ rest
    → step ch r
      ≡ returns tt (record {
        worker = record r.worker {
          state = working;
          task_in_process = some h;
          place = processing h;
        };
        shared = record r.shared { task_queue_ch = with_queue rest r.shared.task_queue_ch };
      })
unfolding step choose
step_take ch r h rest p n b = ground arith

process-returns :
    (o : Out TaskRun (Unit {0}))
    → does_panic o ≡ false
    → does_block o ≡ false
    → (s : TaskRun) × (o ≡ returns tt s)
process-returns (returns tt s) p b = (s, refl)
process-returns (panics q s) p b = cc
process-returns (blocks s) p b = cc

abbrev pub after_work : ℕ → WorkerRun → TaskRun → WorkerRun
after_work h r s = record {
  worker = record r.worker { state = idle; task_in_process = none; place = at_check };
  shared = record r.shared { tasks = update r.shared.tasks h s.task; world = s.world };
}

-- What a call of `process` for a quiet task gives.
abbrev pub Worked : ℕ → WorkerRun → Choice → Type 0
Worked h r ch =
    (s : TaskRun) × (step ch r ≡ returns tt (after_work h r s))
    × IsQuiet s.task
    × (is_ready s.task.state ≡ false)

pub step_work :
    (ch : Choice) (r : WorkerRun) (h : ℕ)
    → r.worker.place ≡ processing h
    → IsQuiet (r.shared.tasks h)
    → Worked h r ch
unfolding step work
step_work ch r h p q =
    let before : TaskRun = record { task = r.shared.tasks h; world = r.shared.world } in
    let (s, e) =
      process-returns (process r.worker.timeout ch.env before)
        (process-does_not_panic r.worker.timeout ch.env before)
        (process-does_not_block r.worker.timeout ch.env before q) in
    (
      s,
      ground arith,
      process-IsQuiet r.worker.timeout ch.env before s q e,
      process-not_ready r.worker.timeout ch.env before s q.is_given e,
    )

-- The worker after one round of its loop.
abbrev after_round : ℕ → List ℕ → WorkerRun → TaskRun → WorkerRun
after_round h hs r s =
    after_work h
      (record {
        worker = record r.worker {
          state = working;
          task_in_process = some h;
          place = processing h;
        };
        shared = record r.shared {
          task_queue_ch = with_queue (map some hs) r.shared.task_queue_ch;
        };
      })
      s

pub update-IsQuiet :
    (tasks : ℕ → Task) (h : ℕ) (t : Task)
    → IsQuiet t
    → ((k : ℕ) → IsQuiet (tasks k))
    → (k : ℕ) → IsQuiet (update tasks h t k)
update-IsQuiet tasks h t q all k = elim (Bool-cases (k == h)) [
  | inl e ↦ rw e q
  | inr e ↦ rw e (all k)
]

after_take : ℕ → List ℕ → WorkerRun → WorkerRun
after_take h hs r = record {
  worker = record r.worker { state = working; task_in_process = some h; place = processing h };
  shared = record r.shared { task_queue_ch = with_queue (map some hs) r.shared.task_queue_ch };
}
