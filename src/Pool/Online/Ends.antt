-- ===== src/Pool/Online/Ends.antt =====
-- An online run of quiet tasks ends, whichever of the workers that are not gone makes the next step.
use goapp.Base.{
  ℕ, zero, suc, ◌+◌, ◌*◌, ◌<◌, ◌≤◌, false, some, List, [], ◌∷◌, ◌≡◌, refl, ◌⊎◌, inl, inr, arith,
  length, sym, ◌∙◌, ap, All, get_elem?, All-get_elem?, Bool-cases, Option-cases, if◌then◌else◌,
}
use goapp.GoRuntime.{Out, returns, blocks}
use goapp.Worker.{
  Worker, WorkerRun, Place, not_started, at_check, at_select, processing, leaving, gone,
}
use goapp.Worker.Steps.{Choice}
use goapp.Pool.Online.{OnlineRun, Turn, move, put_back, after_move, set_at, goroutine}
use goapp.Pool.Online.Moves.{is_gone}
use goapp.Pool.Online.Outcomes.{goroutine-Outcome, step_gone}
use goapp.Pool.Online.Accounts.{alive, one_if_alive, All-set}
use goapp.Pool.Online.Runs.{Counted-alive, move-none, move-some, alive_here}
use goapp.Pool.Online.Progress.{left_at, IsCalm, IsSteady, Advances, goroutine-Advances}

-- What all workers and the queue have left.
abbrev pub left_of : List Worker → ℕ
left_of [] = 0
left_of (w ∷ ws) = left_at w.place + left_of ws

abbrev pub total : OnlineRun → ℕ
total r = left_of r.workers + 3 * length r.shared.task_queue_ch.buf

pub record IsSteadyRun (r : OnlineRun) : Type 0 where
  pub steady : IsSteady r.shared
  pub calm : All IsCalm r.workers
  pub counted : r.shared.run_wg ≡ some (alive r.workers)

left_of-set :
    (ws : List Worker) (i : ℕ) (w v : Worker)
    → get_elem? ws i ≡ some w
    → left_of (set_at ws i v) + left_at w.place ≡ left_of ws + left_at v.place
left_of-set [] i w v g = cc
left_of-set (u ∷ ws) zero w v g = let e : u ≡ w = ground arith in rw (sym e) (omega arith)
left_of-set (u ∷ ws) (suc i) w v g = omega (arith, left_of-set ws i w v g)

left_positive : (p : Place) → is_gone p ≡ false → 0 < left_at p
left_positive not_started g = omega arith
left_positive at_check g = omega arith
left_positive at_select g = omega arith
left_positive (processing h) g = omega arith
left_positive leaving g = omega arith
left_positive gone g = cc

left_of-alive : (ws : List Worker) → alive ws ≤ left_of ws
left_of-alive [] = omega arith
left_of-alive (w ∷ ws) = elim (Bool-cases (is_gone w.place)) [
  | inl e ↦
      let one : one_if_alive w.place ≡ 0 = ap (λ b. if b then 0 else 1) e in
      omega (arith, left_of-alive ws, one)
  | inr e ↦
      let one : one_if_alive w.place ≡ 1 = ap (λ b. if b then 0 else 1) e in
      omega (arith, left_of-alive ws, one, left_positive w.place e)
]

-- The turn of a worker that is not gone.
abbrev pub IsBusyTurn : Turn → OnlineRun → Type 0
IsBusyTurn t r =
    (w : Worker) × (get_elem? r.workers t.turn_worker ≡ some w) × (is_gone w.place ≡ false)

abbrev pub Shrinks : OnlineRun → Out OnlineRun (Unit {0}) → Type 0
Shrinks r o = (s : OnlineRun) × (o ≡ returns tt s) × (total s < total r) × IsSteadyRun s

module _ (i : ℕ) (ch : Choice) (r : OnlineRun) (run : IsSteadyRun r) (w : Worker)
    (g : get_elem? r.workers i ≡ some w) where
  before : WorkerRun
  before = record { worker = w; shared = r.shared }

  Shrinks-here :
      Advances before (goroutine ch before) → Shrinks r (put_back i r (goroutine ch before))
  unfolding before put_back
  Shrinks-here (s, e, l, c, t) =
      let (m, k) =
        goroutine-Outcome (alive r.workers) ch before s (λ j. (run.steady.quiet j).is_given)
          run.counted e in
      (
        record { workers = set_at r.workers i s.worker; shared = s.shared },
        ap (put_back i r) e,
        omega (arith, left_of-set r.workers i w s.worker g, l),
        record {
          steady = t;
          calm = All-set IsCalm r.workers i s.worker run.calm c;
          counted = Counted-alive r.workers i before s g run.counted k;
        },
      )

  Advances-here : is_gone w.place ≡ false → Advances before (goroutine ch before)
  unfolding before
  Advances-here b = elim (alive_here r.workers i w g) [
    | inl e ↦ cc
    | inr (n, e) ↦
        goroutine-Advances w.place n ch before refl (left_positive w.place b)
          (run.counted ∙ ap some e) (All-get_elem? IsCalm r.workers i run.calm g) run.steady
  ]

move-Shrinks :
    (t : Turn) (r : OnlineRun)
    → IsSteadyRun r
    → IsBusyTurn t r
    → Shrinks r (move t.turn_worker t.turn_choice r)
unfolding before
move-Shrinks t r run (w, g, b) = rw (move-some t.turn_worker t.turn_choice r w g) (
    Shrinks-here t.turn_worker t.turn_choice r run w g
      (Advances-here t.turn_worker t.turn_choice r run w g b))

gone_here :
    (ws : List Worker) (i : ℕ) (w : Worker)
    → alive ws ≡ 0
    → get_elem? ws i ≡ some w
    → w.place ≡ gone
gone_here ws i w a g = elim (alive_here ws i w g) [
  | inl e ↦ ground arith
  | inr (n, e) ↦ absurd (omega (arith, a, e))
]

move_void :
    (t : Turn) (r : OnlineRun) → alive r.workers ≡ 0 → move t.turn_worker t.turn_choice r ≡ blocks r
unfolding put_back
move_void t r a = elim (Option-cases (get_elem? r.workers t.turn_worker)) [
  | inl e ↦ move-none t.turn_worker t.turn_choice r e
  | inr (w, e) ↦
      move-some t.turn_worker t.turn_choice r w e
      ∙ ap (put_back t.turn_worker r) (
          step_gone t.turn_choice (record { worker = w; shared = r.shared })
            (gone_here r.workers t.turn_worker w a e))
]

-- A number of turns that a scheduler chooses by what it sees.
unfoldable pub schedule : ℕ → (OnlineRun → Turn) → OnlineRun → Out OnlineRun (Unit {0})
unfolding after_move
schedule zero pick r = returns tt r
schedule (suc n) pick r =
    after_move (schedule n pick) r (move (pick r).turn_worker (pick r).turn_choice r)

schedule_next :
    (n : ℕ) (pick : OnlineRun → Turn) (r s : OnlineRun)
    → move (pick r).turn_worker (pick r).turn_choice r ≡ returns tt s
    → schedule (suc n) pick r ≡ schedule n pick s
unfolding schedule after_move
schedule_next n pick r s e = ap (after_move (schedule n pick) r) e

schedule_void :
    (n : ℕ) (pick : OnlineRun → Turn) (r : OnlineRun)
    → move (pick r).turn_worker (pick r).turn_choice r ≡ blocks r
    → schedule (suc n) pick r ≡ schedule n pick r
unfolding schedule after_move
schedule_void n pick r e = ap (after_move (schedule n pick) r) e

schedule_zero : (pick : OnlineRun → Turn) (r : OnlineRun) → schedule 0 pick r ≡ returns tt r
unfolding schedule
schedule_zero pick r = refl

-- A run that has come to its end.
abbrev pub IsOver : Out OnlineRun (Unit {0}) → Type 0
IsOver o = (s : OnlineRun) × (o ≡ returns tt s) × (alive s.workers ≡ 0) × (s.shared.run_wg ≡ some 0)

IsOver-idle :
    (n : ℕ) (pick : OnlineRun → Turn) (r : OnlineRun)
    → IsSteadyRun r
    → alive r.workers ≡ 0
    → IsOver (schedule n pick r)
IsOver-idle zero pick r run a = (r, schedule_zero pick r, a, run.counted ∙ ap some a)
IsOver-idle (suc n) pick r run a =
    let (s, e, b, w) = IsOver-idle n pick r run a in
    (s, schedule_void n pick r (move_void (pick r) r a) ∙ e, b, w)

zero_or_more : (n : ℕ) → (n ≡ 0) ⊎ (0 < n)
zero_or_more zero = inl refl
zero_or_more (suc n) = inr (omega arith)

pub schedule-IsOver :
    (n : ℕ) (pick : OnlineRun → Turn) (r : OnlineRun)
    → ((v : OnlineRun) → 0 < alive v.workers → IsBusyTurn (pick v) v)
    → IsSteadyRun r
    → total r ≤ n
    → IsOver (schedule n pick r)
schedule-IsOver zero pick r busy run l =
    IsOver-idle zero pick r run (omega (arith, left_of-alive r.workers, l))
schedule-IsOver (suc n) pick r busy run l = elim (zero_or_more (alive r.workers)) [
  | inl a ↦ IsOver-idle (suc n) pick r run a
  | inr p ↦
      let (s, e, less, next) = move-Shrinks (pick r) r run (busy r p) in
      let (v, f, b, w) = schedule-IsOver n pick s busy next (omega (arith, less, l)) in
      (v, schedule_next n pick r s e ∙ f, b, w)
]
