-- ===== src/Pool/Online/Moves.antt =====
-- What one step of a worker's goroutine does to the tasks, the queue and the wait group of a run.
use goapp.Base.{
  ℕ, zero, suc, Bool, true, false, Option, none, some, List, [], ◌∷◌, ◌≡◌, refl, ◌⊎◌, arith,
}
use goapp.GoRuntime.{Out, returns, panics, blocks}
use goapp.Task.{Task, is_ready}
use goapp.Task.World.{update}
use goapp.Task.Process.{TaskRun, process}
use goapp.Task.Quiet.{IsGiven}
use goapp.Worker.{WorkerRun, Place, not_started, at_check, at_select, processing, gone, start}
use goapp.Worker.Steps.{Choice, check, choose, work, leave}

abbrev pub is_processing : Place → Bool
is_processing (processing h) = true
is_processing _ = false

abbrev pub is_gone : Place → Bool
is_gone gone = true
is_gone _ = false

abbrev pub TookAs : Option ℕ → Place → Type 0
TookAs none p = Unit
TookAs (some h) p = p ≡ processing h

-- The tasks and the queue are as they were; or a pointer was taken from the queue; or a task was
-- processed.
pub data Moved (r s : WorkerRun) : Type 0 where
  moved_idle :
      s.shared.tasks ≡ r.shared.tasks
      → s.shared.task_queue_ch.buf ≡ r.shared.task_queue_ch.buf
      → is_processing r.worker.place ≡ false
      → Moved r s
  moved_took :
      (q : Option ℕ)
      → s.shared.tasks ≡ r.shared.tasks
      → r.shared.task_queue_ch.buf ≡ q ∷ s.shared.task_queue_ch.buf
      → is_processing r.worker.place ≡ false
      → TookAs q s.worker.place
      → Moved r s
  moved_worked :
      (h : ℕ) (t : Task)
      → s.shared.tasks ≡ update r.shared.tasks h t
      → IsGiven t
      → is_ready t.state ≡ false
      → s.shared.task_queue_ch.buf ≡ r.shared.task_queue_ch.buf
      → r.worker.place ≡ processing h
      → Moved r s

-- The wait group is lowered by the worker that goes, and by no other step.
abbrev pub Counted : WorkerRun → WorkerRun → Type 0
Counted r s =
    ((s.shared.run_wg ≡ r.shared.run_wg) × (is_gone s.worker.place ≡ is_gone r.worker.place))
    ⊎ ((n : ℕ) × (r.shared.run_wg ≡ some (suc n))
        × (s.shared.run_wg ≡ some n)
        × (is_gone s.worker.place ≡ true)
        × (is_gone r.worker.place ≡ false))

abbrev pub SameTasks : WorkerRun → WorkerRun → Type 0
SameTasks r s =
    (s.shared.tasks ≡ r.shared.tasks) × (s.shared.task_queue_ch.buf ≡ r.shared.task_queue_ch.buf)

abbrev pub SameCount : WorkerRun → WorkerRun → Type 0
SameCount r s =
    (s.shared.run_wg ≡ r.shared.run_wg) × (is_gone s.worker.place ≡ is_gone r.worker.place)

pub start_same :
    (r s : WorkerRun)
    → r.worker.place ≡ not_started
    → start r ≡ returns tt s
    → SameTasks r s × SameCount r s
unfolding start
start_same r s p e = ground arith

pub check_same :
    (ch : Choice) (r s : WorkerRun)
    → r.worker.place ≡ at_check
    → check ch r ≡ returns tt s
    → SameTasks r s × SameCount r s
unfolding check
check_same ch r s p e = ground arith

pub choose_count :
    (ch : Choice) (r s : WorkerRun)
    → r.worker.place ≡ at_select
    → choose ch r ≡ returns tt s
    → SameCount r s
unfolding choose
choose_count ch r s p e = ground arith

pub choose_empty :
    (ch : Choice) (r s : WorkerRun)
    → r.shared.task_queue_ch.buf ≡ []
    → choose ch r ≡ returns tt s
    → SameTasks r s
unfolding choose
choose_empty ch r s b e = ground arith

pub choose_full :
    (ch : Choice) (r s : WorkerRun) (q : Option ℕ) (rest : List (Option ℕ))
    → r.shared.task_queue_ch.buf ≡ q ∷ rest
    → choose ch r ≡ returns tt s
    → SameTasks r s
      ⊎ ((s.shared.tasks ≡ r.shared.tasks)
          × (s.shared.task_queue_ch.buf ≡ rest)
          × TookAs q s.worker.place)
unfolding choose
choose_full ch r s none rest b e = ground arith
choose_full ch r s (some h) rest b e = ground arith

-- What is left of the task `h` when `process` has come back with `u`.
abbrev pub Worked : ℕ → TaskRun → WorkerRun → WorkerRun → Type 0
Worked h u r s =
    (s.shared.tasks ≡ update r.shared.tasks h u.task)
    × (s.shared.task_queue_ch.buf ≡ r.shared.task_queue_ch.buf)
    × (s.shared.run_wg ≡ r.shared.run_wg)
    × (is_gone s.worker.place ≡ false)

abbrev pub run_of : ℕ → WorkerRun → TaskRun
run_of h r = record { task = r.shared.tasks h; world = r.shared.world }

pub work_done :
    (h : ℕ) (ch : Choice) (r s : WorkerRun) (o : Out TaskRun (Unit {0}))
    → process r.worker.timeout ch.env (run_of h r) ≡ o
    → work h ch r ≡ returns tt s
    → (u : TaskRun) × (o ≡ returns tt u) × Worked h u r s
unfolding work
work_done h ch r s (returns tt u) p e = (u, refl, ground arith)
work_done h ch r s (panics q u) p e = ground arith
work_done h ch r s (blocks u) p e = ground arith

pub leave_same : (r s : WorkerRun) → leave r ≡ returns tt s → SameTasks r s
unfolding leave
leave_same r s e = ground arith

pub leave_count :
    (n : ℕ) (r s : WorkerRun)
    → r.shared.run_wg ≡ some n
    → leave r ≡ returns tt s
    → (m : ℕ) × (n ≡ suc m) × (s.shared.run_wg ≡ some m) × (is_gone s.worker.place ≡ true)
unfolding leave
leave_count zero r s w e = ground arith
leave_count (suc n) r s w e = (n, refl, ground arith, ground arith)
