-- ===== src/Pool/AddLaws.antt =====
-- What `AddTask` does to the queue and to the wait group of the task.
use goapp.Base.{ℕ, ◌+◌, true, false, none, some, [], ◌∷◌, ◌++◌, ◌≡◌, refl, arith}
use goapp.GoRuntime.{returns, send_on_closed, does_panic}
use goapp.Errors.{Failure, get_recover_error}
use goapp.Pool.{System, accepts_tasks, add_wg, add_task, send_task}

-- `AddTask` behind its check of the state never panics, also when the queue was closed meanwhile.
pub send_task-does_not_panic : (h : ℕ) (s : System) → does_panic (send_task h s) ≡ false
unfolding send_task
send_task-does_not_panic h s = ground arith

-- A task that is added with no error stands last in the queue, its wait group counts it, the pool is
-- running in the background and is what it was.
pub add_task_success :
    (h : ℕ) (s t : System)
    → add_task (some h) s ≡ returns none t
    → (accepts_tasks s.pool.state ≡ true)
      × (t.shared.task_queue_ch.buf ≡ s.shared.task_queue_ch.buf ++ some h ∷ [])
      × (t.shared.world ≡ add_wg (s.shared.tasks h).wg s.shared.world)
      × (t.pool ≡ s.pool)
unfolding add_task
add_task_success h s t e = ground arith

-- Where `AddTask` gives an error, the queue and the pool are what they were.
pub add_task_refused :
    (h : ℕ) (s t : System) (err : Failure)
    → add_task (some h) s ≡ returns (some err) t
    → (t.shared.task_queue_ch ≡ s.shared.task_queue_ch) × (t.pool ≡ s.pool)
unfolding add_task
add_task_refused h s t err e = ground arith

-- If the queue was closed after the check, the error comes back, but the wait group counts a task
-- that no worker will ever see.
pub send_task_closed :
    (h g : ℕ) (s : System)
    → s.pool.made ≡ true
    → s.shared.task_queue_ch.closed ≡ true
    → (s.shared.tasks h).wg ≡ some g
    → (t : System) × (send_task h s
        ≡ returns (some (get_recover_error send_on_closed s.pool.external_id)) t)
      × (t.shared.task_queue_ch ≡ s.shared.task_queue_ch)
      × (t.shared.world.wgs g ≡ s.shared.world.wgs g + 1)
unfolding send_task
send_task_closed h g s m c w = (
  record s { shared = record s.shared { world = add_wg (some g) s.shared.world } },
  ground arith,
  refl,
  ground arith,
)
