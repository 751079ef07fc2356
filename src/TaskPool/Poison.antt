-- ===== src/TaskPool/Poison.antt =====
-- `Stop` reaches a short task too, which never looks at its stop channel: it ends well, and goes
-- back into the cache with the signal in it.
use goapp.Base.{ℕ, true, false, Option, none, some, [], ◌∷◌, ◌≡◌, refl, is_some, arith}
use goapp.GoRuntime.{Chan, returns, make_chan}
use goapp.Task.{Task, Handler, done_success, pool_put, set_state_unsafe, is_stoppable}
use goapp.Task.Run.{stop}
use goapp.TaskPool.{
  TaskPool, TaskArgs, add_one, put_task, get_task, pool_take, new_task, new_task_of,
}

-- The stop channel that `Stop` leaves: the signal is in it, and it is closed.
abbrev pub signalled : Chan (Unit {0})
signalled = record { cap = 1; buf = tt ∷ []; closed = true }

-- The first `Stop` of a task that runs or has ended well.
pub stop_signals :
    (t : Task)
    → t.stop_ch ≡ make_chan 1
    → is_stoppable t.state ≡ true
    → stop t ≡ returns tt (record t { stop_ch = signalled })
unfolding stop
stop_signals t c s = ground arith

put_back : Task → TaskPool → TaskPool
put_back t p = record p {
  cache = set_state_unsafe pool_put (record t { requests = []; responses = [] }) ∷ p.cache;
  count_put = add_one p.count_put;
}

put_task_done :
    (t : Task) (p : TaskPool)
    → t.locked ≡ false
    → t.state ≡ done_success
    → put_task t p ≡ returns tt (put_back t p)
unfolding put_task put_back
put_task_done t p l s = ground arith

new_task_of-put_back :
    (f : Option Handler) (c : Option ℕ) (a : TaskArgs) (t : Task) (p : TaskPool)
    → is_some f ≡ true
    → is_some c ≡ true
    → (v : Task) × ((new_task_of f c (some 0) a (put_back t p)).0 ≡ some v)
      × (v.stop_ch ≡ t.stop_ch)
unfolding new_task_of get_task pool_take put_back
new_task_of-put_back none c a t p g b = cc
new_task_of-put_back (some f) none a t p g b = cc
new_task_of-put_back (some f) (some c) a t p g b = (_, refl, refl)

-- A task that ended well after a `Stop` is taken into the cache with its channel as it is, and the
-- next `NewTask` may give it out: the stop channel of the new task is signalled before it starts.
pub stopped_task_is_reused :
    (t u : Task) (p q : TaskPool) (a : TaskArgs)
    → t.locked ≡ false
    → t.state ≡ done_success
    → t.stop_ch ≡ make_chan 1
    → stop t ≡ returns tt u
    → put_task u p ≡ returns tt q
    → is_some a.f ≡ true
    → is_some a.parent_ctx ≡ true
    → (v : Task) × ((new_task (some 0) a q).0 ≡ some v) × (v.stop_ch ≡ signalled)
unfolding new_task
stopped_task_is_reused t u p q a l s c e k g b =
    let u' = record t { stop_ch = signalled } in
    let same : u' ≡ u = cc (stop_signals t c (ground arith)) in
    let put : put_back u' p ≡ q = ground (arith, put_task_done u' p l s) in
    rw (← put) (new_task_of-put_back a.f a.parent_ctx a u' p g b)
