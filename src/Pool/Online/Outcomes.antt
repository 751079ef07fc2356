-- ===== src/Pool/Online/Outcomes.antt =====
-- Every step of a goroutine of an online run, and what it does.
use goapp.Base.{ℕ, false, Option, some, List, [], ◌∷◌, ◌≡◌, refl, inl, inr, ap, sym, ◌∙◌}
use goapp.GoRuntime.{returns, blocks}
use goapp.Task.Process.{process}
use goapp.Task.Quiet.{IsGiven, process-not_ready, process-IsGiven}
use goapp.Worker.{
  WorkerRun, Place, not_started, at_check, at_select, processing, leaving, gone, start,
}
use goapp.Worker.Steps.{Choice, step, step_at, check, choose, work, leave, leave_panicked}
use goapp.Worker.Loop.{check-does_not_panic, choose-does_not_panic, work-does_not_panic, catch_none}
use goapp.Pool.Online.{goroutine, goroutine_at}
use goapp.Pool.Online.Moves.{
  is_processing, is_gone, Moved, Counted, SameTasks, SameCount, start_same, check_same,
  choose_count, choose_empty, choose_full, run_of, work_done, leave_same, leave_count, moved_idle,
  moved_took, moved_worked,
}

-- The steps of the loop, without the deferred function that no panic reaches.
pub goroutine-at :
    (p : Place) (ch : Choice) (r : WorkerRun)
    → r.worker.place ≡ p
    → goroutine ch r ≡ goroutine_at p ch r
unfolding goroutine
goroutine-at p ch r e = ap (λ x. goroutine_at x ch r) e

pub step-at :
    (p : Place) (ch : Choice) (r : WorkerRun) → r.worker.place ≡ p → step ch r ≡ step_at p ch r
unfolding step
step-at p ch r e = ap (λ x. step_at x ch r) e

pub step_check :
    (ch : Choice) (r : WorkerRun) → r.worker.place ≡ at_check → goroutine ch r ≡ check ch r
unfolding step_at goroutine_at
step_check ch r p =
    goroutine-at at_check ch r p
    ∙ step-at at_check ch r p
    ∙ catch_none (check ch r) leave_panicked (check-does_not_panic ch r)

pub step_choose :
    (ch : Choice) (r : WorkerRun) → r.worker.place ≡ at_select → goroutine ch r ≡ choose ch r
unfolding step_at goroutine_at
step_choose ch r p =
    goroutine-at at_select ch r p
    ∙ step-at at_select ch r p
    ∙ catch_none (choose ch r) leave_panicked (choose-does_not_panic ch r)

pub step_work :
    (h : ℕ) (ch : Choice) (r : WorkerRun)
    → r.worker.place ≡ processing h
    → goroutine ch r ≡ work h ch r
unfolding step_at goroutine_at
step_work h ch r p =
    goroutine-at (processing h) ch r p
    ∙ step-at (processing h) ch r p
    ∙ catch_none (work h ch r) leave_panicked (work-does_not_panic h ch r)

pub step_leave : (ch : Choice) (r : WorkerRun) → r.worker.place ≡ leaving → goroutine ch r ≡ leave r
unfolding step_at goroutine_at
step_leave ch r p = goroutine-at leaving ch r p ∙ step-at leaving ch r p

pub step_start :
    (ch : Choice) (r : WorkerRun) → r.worker.place ≡ not_started → goroutine ch r ≡ start r
unfolding goroutine_at
step_start ch r p = goroutine-at not_started ch r p

pub step_gone : (ch : Choice) (r : WorkerRun) → r.worker.place ≡ gone → goroutine ch r ≡ blocks r
unfolding step_at goroutine_at
step_gone ch r p = goroutine-at gone ch r p ∙ step-at gone ch r p

-- What a step does, and how it counts.
abbrev pub Outcome : WorkerRun → WorkerRun → Type 0
Outcome r s = Moved r s × Counted r s

pub Outcome-same :
    (p : Place) (r s : WorkerRun)
    → r.worker.place ≡ p
    → is_processing p ≡ false
    → SameTasks r s
    → SameCount r s
    → Outcome r s
Outcome-same p r s e n t c = (moved_idle t.0 t.1 (ap is_processing e ∙ n), inl c)

pub choose-Moved :
    (b : List (Option ℕ)) (ch : Choice) (r s : WorkerRun)
    → r.worker.place ≡ at_select
    → r.shared.task_queue_ch.buf ≡ b
    → choose ch r ≡ returns tt s
    → Moved r s
choose-Moved [] ch r s p b e =
    let (t, q) = choose_empty ch r s b e in moved_idle t q (ap is_processing p)
choose-Moved (q ∷ rest) ch r s p b e = elim (choose_full ch r s q rest b e) [
  | inl (t, u) ↦ moved_idle t u (ap is_processing p)
  | inr (t, u, a) ↦ moved_took q t (b ∙ ap (λ l. q ∷ l) (sym u)) (ap is_processing p) a
]

pub work-Outcome :
    (h : ℕ) (ch : Choice) (r s : WorkerRun)
    → r.worker.place ≡ processing h
    → IsGiven (r.shared.tasks h)
    → work h ch r ≡ returns tt s
    → Outcome r s
work-Outcome h ch r s p g e =
    let (u, o, (t, q, w, n)) =
      work_done h ch r s (process r.worker.timeout ch.env (run_of h r)) refl e in
    (
      moved_worked h u.task t (process-IsGiven r.worker.timeout ch.env (run_of h r) u g o)
          (process-not_ready r.worker.timeout ch.env (run_of h r) u g o) q p,
      inl (w, n ∙ sym (ap is_gone p)),
    )

pub leave-Outcome :
    (n : ℕ) (r s : WorkerRun)
    → r.worker.place ≡ leaving
    → r.shared.run_wg ≡ some n
    → leave r ≡ returns tt s
    → Outcome r s
leave-Outcome n r s p w e =
    let (t, q) = leave_same r s e in
    let (m, k, v, g) = leave_count n r s w e in
    (moved_idle t q (ap is_processing p), inr (m, w ∙ ap some k, v, g, ap is_gone p))

pub goroutine-Outcome_at :
    (p : Place) (n : ℕ) (ch : Choice) (r s : WorkerRun)
    → r.worker.place ≡ p
    → ((k : ℕ) → IsGiven (r.shared.tasks k))
    → r.shared.run_wg ≡ some n
    → goroutine ch r ≡ returns tt s
    → Outcome r s
goroutine-Outcome_at not_started n ch r s p g w e =
    let (t, c) = start_same r s p (sym (step_start ch r p) ∙ e) in
    Outcome-same not_started r s p refl t c
goroutine-Outcome_at at_check n ch r s p g w e =
    let (t, c) = check_same ch r s p (sym (step_check ch r p) ∙ e) in
    Outcome-same at_check r s p refl t c
goroutine-Outcome_at at_select n ch r s p g w e =
    let e' = sym (step_choose ch r p) ∙ e in
    (choose-Moved r.shared.task_queue_ch.buf ch r s p refl e', inl (choose_count ch r s p e'))
goroutine-Outcome_at (processing h) n ch r s p g w e =
    work-Outcome h ch r s p (g h) (sym (step_work h ch r p) ∙ e)
goroutine-Outcome_at leaving n ch r s p g w e =
    leave-Outcome n r s p w (sym (step_leave ch r p) ∙ e)
goroutine-Outcome_at gone n ch r s p g w e = cc (step_gone ch r p)

-- Every step of a goroutine of an online run does one of these.
pub goroutine-Outcome :
    (n : ℕ) (ch : Choice) (r s : WorkerRun)
    → ((k : ℕ) → IsGiven (r.shared.tasks k))
    → r.shared.run_wg ≡ some n
    → goroutine ch r ≡ returns tt s
    → Outcome r s
goroutine-Outcome n ch r s g w e = goroutine-Outcome_at r.worker.place n ch r s refl g w e
