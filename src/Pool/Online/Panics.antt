-- ===== src/Pool/Online/Panics.antt =====
-- No goroutine of an online run panics, and each begins once.
use goapp.Base.{ℕ, suc, Bool, true, false, some, ◌≡◌, refl, ◌⊎◌, inl, inr, arith, ap, sym, ◌∙◌}
use goapp.GoRuntime.{returns, does_panic}
use goapp.Worker.{
  Worker, WorkerRun, Place, not_started, at_check, at_select, processing, leaving, gone, start,
  worker_new,
}
use goapp.Worker.Steps.{Choice, check, choose, work, leave}
use goapp.Worker.Loop.{check-does_not_panic, choose-does_not_panic, work-does_not_panic}
use goapp.Pool.Online.{goroutine}
use goapp.Pool.Online.Moves.{is_gone}
use goapp.Pool.Online.Outcomes.{
  step_check, step_choose, step_work, step_leave, step_start, step_gone,
}

abbrev pub is_waiting : Place → Bool
is_waiting not_started = true
is_waiting _ = false

-- A worker whose goroutine has not begun is new and unlocked.
abbrev pub IsStartable : Worker → Type 0
IsStartable w = (is_waiting w.place ≡ false) ⊎ ((w.locked ≡ false) × (w.state ≡ worker_new))

start_new :
    (r : WorkerRun)
    → r.worker.locked ≡ false
    → r.worker.state ≡ worker_new
    → does_panic (start r) ≡ false
unfolding start
start_new r l n = ground arith

start_waiting :
    (r s : WorkerRun)
    → r.worker.locked ≡ false
    → r.worker.state ≡ worker_new
    → start r ≡ returns tt s
    → is_waiting s.worker.place ≡ false
unfolding start
start_waiting r s l n e = ground arith

step_waiting :
    (p : Place) (ch : Choice) (r s : WorkerRun)
    → r.worker.place ≡ p
    → is_waiting p ≡ false
    → goroutine ch r ≡ returns tt s
    → is_waiting s.worker.place ≡ false
unfolding check choose work leave
step_waiting not_started ch r s p n e = cc
step_waiting at_check ch r s p n e = ground (arith, step_check ch r p)
step_waiting at_select ch r s p n e = ground (arith, step_choose ch r p)
step_waiting (processing h) ch r s p n e = ground (arith, step_work h ch r p)
step_waiting leaving ch r s p n e = ground (arith, step_leave ch r p)
step_waiting gone ch r s p n e = ground (arith, step_gone ch r p)

leave-does_not_panic :
    (n : ℕ) (r : WorkerRun) → r.shared.run_wg ≡ some (suc n) → does_panic (leave r) ≡ false
unfolding leave
leave-does_not_panic n r w = ground arith

-- A step does not panic while the wait group counts its worker.
goroutine-panics_at :
    (p : Place) (n : ℕ) (ch : Choice) (r : WorkerRun)
    → r.worker.place ≡ p
    → is_waiting p ≡ false
    → (is_gone p ≡ true) ⊎ (r.shared.run_wg ≡ some (suc n))
    → does_panic (goroutine ch r) ≡ false
goroutine-panics_at not_started n ch r p l w = cc
goroutine-panics_at at_check n ch r p l w = cc (step_check ch r p, check-does_not_panic ch r)
goroutine-panics_at at_select n ch r p l w = cc (step_choose ch r p, choose-does_not_panic ch r)
goroutine-panics_at (processing h) n ch r p l w =
    cc (step_work h ch r p, work-does_not_panic h ch r)
goroutine-panics_at leaving n ch r p l (inl e) = cc
goroutine-panics_at leaving n ch r p l (inr e) = cc (step_leave ch r p, leave-does_not_panic n r e)
goroutine-panics_at gone n ch r p l w = ground (arith, step_gone ch r p)

pub goroutine-does_not_panic :
    (p : Place) (n : ℕ) (ch : Choice) (r : WorkerRun)
    → r.worker.place ≡ p
    → IsStartable r.worker
    → (is_gone p ≡ true) ⊎ (r.shared.run_wg ≡ some (suc n))
    → does_panic (goroutine ch r) ≡ false
goroutine-does_not_panic p n ch r e (inl l) w =
    goroutine-panics_at p n ch r e (ap is_waiting (sym e) ∙ l) w
goroutine-does_not_panic not_started n ch r e (inr (l, k)) w =
    cc (step_start ch r e, start_new r l k)
goroutine-does_not_panic at_check n ch r e (inr l) w = goroutine-panics_at at_check n ch r e refl w
goroutine-does_not_panic at_select n ch r e (inr l) w =
    goroutine-panics_at at_select n ch r e refl w
goroutine-does_not_panic (processing h) n ch r e (inr l) w =
    goroutine-panics_at (processing h) n ch r e refl w
goroutine-does_not_panic leaving n ch r e (inr l) w = goroutine-panics_at leaving n ch r e refl w
goroutine-does_not_panic gone n ch r e (inr l) w = goroutine-panics_at gone n ch r e refl w

pub goroutine-started :
    (p : Place) (ch : Choice) (r s : WorkerRun)
    → r.worker.place ≡ p
    → IsStartable r.worker
    → goroutine ch r ≡ returns tt s
    → is_waiting s.worker.place ≡ false
goroutine-started p ch r s e (inl l) g = step_waiting p ch r s e (ap is_waiting (sym e) ∙ l) g
goroutine-started not_started ch r s e (inr (l, k)) g =
    start_waiting r s l k (sym (step_start ch r e) ∙ g)
goroutine-started at_check ch r s e (inr l) g = step_waiting at_check ch r s e refl g
goroutine-started at_select ch r s e (inr l) g = step_waiting at_select ch r s e refl g
goroutine-started (processing h) ch r s e (inr l) g = step_waiting (processing h) ch r s e refl g
goroutine-started leaving ch r s e (inr l) g = step_waiting leaving ch r s e refl g
goroutine-started gone ch r s e (inr l) g = step_waiting gone ch r s e refl g
