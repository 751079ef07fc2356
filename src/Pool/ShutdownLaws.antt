-- ===== src/Pool/ShutdownLaws.antt =====
-- What a shutdown leaves of a pool, and when it does not end.
use mathlib.Core.Path.{fun_ext}
use goapp.Base.{
  ℕ, Bool, true, false, ◌&&◌, ◌||◌, Option, none, some, List, [], ◌∷◌, ◌≡◌, refl, ltb, arith, ◌∙◌,
  Bool-cases, inl, inr, ◌≢◌,
}
use goapp.GoRuntime.{Out, returns, panics, blocks, bind, does_panic, does_block, does_return}
use goapp.Errors.{Failure}
use goapp.Task.{Task, ready}
use goapp.Task.World.{update}
use goapp.Task.Run
use goapp.Worker.{Shared, PoolShutdownMode}
use goapp.Pool.{System, pool_new, shutdown}
use goapp.Pool.Shutdown.{
  Poll, is_down, any_non_stopped, wait_workers, shutdown_unsafe, shutdown_body, stop, signal_stop,
  close_queue, stop_queue, drain_queue, stop_queued, with_queue, empties_queue, on_pool,
}

-- `shutdownUnsafe` never panics, in any mode and at any pool.
pub shutdown_unsafe-does_not_panic :
    (mode : PoolShutdownMode) (timeout : ℕ) (polls : List Poll) (s : System)
    → does_panic (shutdown_unsafe mode timeout polls s) ≡ false
unfolding shutdown_unsafe
shutdown_unsafe-does_not_panic mode timeout polls s = ground arith

-- A shutdown of a pool that is not down yet leaves it in the state `shutdown` whenever it comes back,
-- also after a timeout or a recovered panic.
pub shutdown_unsafe-state :
    (mode : PoolShutdownMode) (timeout : ℕ) (polls : List Poll) (s t : System) (e : Option Failure)
    → is_down s.pool.state ≡ false
    → shutdown_unsafe mode timeout polls s ≡ returns e t
    → t.pool.state ≡ shutdown
unfolding shutdown_unsafe
shutdown_unsafe-state mode timeout polls s t e d r = ground arith

signal_stop-state :
    (e e' : Option Failure) (s t : System)
    → signal_stop e s ≡ returns e' t
    → t.pool.state ≡ s.pool.state
unfolding signal_stop
signal_stop-state e e' s t r = ground arith

stopped_state :
    (o : Out System (Option Failure)) (e : Option Failure) (t : System)
    → ((e' : Option Failure) (u : System) → o ≡ returns e' u → u.pool.state ≡ shutdown)
    → bind o signal_stop ≡ returns e t
    → t.pool.state ≡ shutdown
stopped_state (returns e' u) e t h r = signal_stop-state e' e u t r ∙ h e' u refl
stopped_state (panics p u) e t h r = cc
stopped_state (blocks u) e t h r = cc

pub stop-state :
    (mode : PoolShutdownMode) (timeout : ℕ) (polls : List Poll) (s t : System) (e : Option Failure)
    → stop mode timeout polls s ≡ returns e t
    → is_down t.pool.state ≡ true
unfolding stop
stop-state mode timeout polls s t e r = elim (Bool-cases (is_down s.pool.state)) [
  | inl d ↦ ground arith
  | inr d ↦ rw (
      stopped_state (shutdown_unsafe mode timeout polls s) e t
        (λ e' u. shutdown_unsafe-state mode timeout polls s u e' d) (rw d at r))
]

-- A `Stop`, in any mode, behind one that came back does nothing and reports nothing.
pub stop_again :
    (mode later : PoolShutdownMode) (timeout : ℕ) (polls more : List Poll) (s t : System)
    (e : Option Failure)
    → stop mode timeout polls s ≡ returns e t
    → stop later timeout more t ≡ returns none t
unfolding stop
stop_again mode later timeout polls more s t e r = rw (stop-state mode timeout polls s t e r)

-- A look behind the timeout.
abbrev pub late : ℕ → List Poll → Bool
late timeout [] = false
late timeout (p ∷ ps) = ltb timeout p.elapsed || late timeout ps

-- With a timeout, the wait for the workers comes back if one of its looks is behind the timeout,
-- whatever the workers do.
pub wait_workers_ends :
    (timeout : ℕ) (polls : List Poll) (s : System)
    → timeout ≢ 0
    → late timeout polls ≡ true
    → does_return (wait_workers timeout polls s) ≡ true
unfolding wait_workers
wait_workers_ends timeout [] s n l = cc
wait_workers_ends timeout (p ∷ ps) s n l =
    ground
      (arith, wait_workers_ends timeout ps (on_pool (λ q. record q { workers = p.workers }) s) n)

-- Every look finds a worker that is not terminated.
abbrev pub never_all_stopped : List Poll → Bool
never_all_stopped [] = true
never_all_stopped (p ∷ ps) = any_non_stopped p.workers && never_all_stopped ps

-- With no timeout, the wait goes on over any number of looks that all find such a worker.
pub wait_workers_forever :
    (polls : List Poll) (s : System)
    → never_all_stopped polls ≡ true
    → does_block (wait_workers 0 polls s) ≡ true
unfolding wait_workers
wait_workers_forever [] s n = refl
wait_workers_forever (p ∷ ps) s n =
    ground (arith, wait_workers_forever ps (on_pool (λ q. record q { workers = p.workers }) s))

-- A pool that never ran: a "hard" or "soft" `Stop` waits for good, with the pool locked, at the
-- receive from its nil queue.
pub stop_new_hangs :
    (mode : PoolShutdownMode) (timeout : ℕ) (polls : List Poll) (s : System)
    → s.pool.state ≡ pool_new
    → s.pool.made ≡ false
    → s.pool.is_background ≡ false
    → empties_queue mode ≡ true
    → does_block (stop mode timeout polls s) ≡ true
unfolding stop shutdown_unsafe shutdown_body close_queue stop_queue
stop_new_hangs mode timeout polls s n m b e = ground arith

update-same {ℓ} : {A : Type ℓ} (f : ℕ → A) (k : ℕ) → update f k (f k) ≡ f
update-same f k = fun_ext λ j. ground arith

-- Each pointer of the queue is nil or a ready task.
abbrev pub AreReady : (ℕ → Task) → List (Option ℕ) → Type 0
AreReady tasks [] = Unit
AreReady tasks (none ∷ ts) = AreReady tasks ts
AreReady tasks (some k ∷ ts) = ((tasks k).state ≡ ready) × AreReady tasks ts

stop_ready : (t : Task) → t.state ≡ ready → Run.stop t ≡ returns tt t
unfolding Run.stop
stop_ready t r = ground arith

stop_queued_ready :
    (k : ℕ) (h : Shared) → (h.tasks k).state ≡ ready → stop_queued (some k) h ≡ returns tt h
unfolding stop_queued
stop_queued_ready k h r = rw (stop_ready (h.tasks k) r, stop_queued, update-same h.tasks k)

stop_queued-none : (h : Shared) → stop_queued none h ≡ returns tt h
unfolding stop_queued
stop_queued-none h = refl

-- The ready tasks of a closed queue are taken out of it by a "hard" or "soft" shutdown and are left
-- as they are: the tasks, their channels and their wait groups are what they were.
pub drain_queue_ready :
    (ts : List (Option ℕ)) (h : Shared)
    → h.task_queue_ch.closed ≡ true
    → AreReady h.tasks ts
    → drain_queue ts h ≡ returns tt (with_queue [] h)
unfolding drain_queue
drain_queue_ready [] h c r = rw c
drain_queue_ready (none ∷ ts) h c r =
    rw (stop_queued-none (with_queue ts h)) (drain_queue_ready ts (with_queue ts h) c r)
drain_queue_ready (some k ∷ ts) h c r =
    rw (stop_queued_ready k (with_queue ts h) r.0) (drain_queue_ready ts (with_queue ts h) c r.1)
