-- ===== src/Pool/Online/Runs.antt =====
-- A whole online run: it never panics, and it keeps account of every task that it was given.
use goapp.Base.{
  ℕ, zero, suc, ◌+◌, true, false, none, some, List, [], ◌∷◌, ◌≡◌, refl, ◌⊎◌, inl, inr, arith, All,
  get_elem?, ap, sym, ◌∙◌, if◌then◌else◌, Bool-cases, Option-cases, All-get_elem?,
}
use goapp.GoRuntime.{Out, returns, panics, blocks, does_panic}
use goapp.Task.Quiet.{IsGiven}
use goapp.Worker.{Worker, WorkerRun}
use goapp.Worker.Steps.{Choice}
use goapp.Pool.Online.{OnlineRun, goroutine, move, move_of, put_back, set_at}
use goapp.Pool.Online.Moves.{is_gone, Counted}
use goapp.Pool.Online.Outcomes.{goroutine-Outcome}
use goapp.Pool.Online.Panics.{IsStartable, goroutine-does_not_panic, goroutine-started}
use goapp.Pool.Online.Accounts.{
  Accounted, alive, one_if_alive, alive-set, All-set, Accounted-Moved, given-Moved,
}

-- The wait group counts the workers that are not gone.
pub record Running (r : OnlineRun) : Type 0 where
  pub given : (k : ℕ) → IsGiven (r.shared.tasks k)
  pub counted : r.shared.run_wg ≡ some (alive r.workers)
  pub startable : All IsStartable r.workers

abbrev pub KeepsAccount : OnlineRun → OnlineRun → Type 0
KeepsAccount r s = (k : ℕ) → Accounted k r.workers r.shared → Accounted k s.workers s.shared

-- What a run comes to.
abbrev pub Goes : OnlineRun → Out OnlineRun (Unit {0}) → Type 0
Goes r o = (s : OnlineRun) × (o ≡ returns tt s) × Running s × KeepsAccount r s

pub Counted-alive :
    (ws : List Worker) (i : ℕ) (r s : WorkerRun)
    → get_elem? ws i ≡ some r.worker
    → r.shared.run_wg ≡ some (alive ws)
    → Counted r s
    → s.shared.run_wg ≡ some (alive (set_at ws i s.worker))
Counted-alive ws i r s g w (inl (e, p)) =
    let same : one_if_alive s.worker.place ≡ one_if_alive r.worker.place =
      ap (λ b. if b then 0 else 1) p in
    e ∙ w ∙ ap some (omega (arith, alive-set ws i r.worker s.worker g, same))
Counted-alive ws i r s g w (inr (n, a, b, p, q)) =
    let count : suc n ≡ alive ws = cc in
    let old : one_if_alive r.worker.place ≡ 1 = ap (λ b. if b then 0 else 1) q in
    let new : one_if_alive s.worker.place ≡ 0 = ap (λ b. if b then 0 else 1) p in
    b ∙ ap some (omega (arith, alive-set ws i r.worker s.worker g, count, old, new))

pub alive_here :
    (ws : List Worker) (i : ℕ) (w : Worker)
    → get_elem? ws i ≡ some w
    → (is_gone w.place ≡ true) ⊎ ((n : ℕ) × (alive ws ≡ suc n))
alive_here [] i w g = cc
alive_here (u ∷ ws) zero w g = elim (Bool-cases (is_gone u.place)) [
  | inl e ↦ inl (let same : u ≡ w = cc in rw (sym same) e)
  | inr e ↦ inr (alive ws, ap (λ b. (if b then 0 else 1) + alive ws) e ∙ omega arith)
]
alive_here (u ∷ ws) (suc i) w g = elim (alive_here ws i w g) [
  | inl e ↦ inl e
  | inr (n, e) ↦ inr (one_if_alive u.place + n, omega (arith, e))
]

-- A step of one worker.
module _ (i : ℕ) (ch : Choice) (r : OnlineRun) (run : Running r) (w : Worker)
    (g : get_elem? r.workers i ≡ some w) where
  before : WorkerRun
  before = record { worker = w; shared = r.shared }

  IsStartable-here : IsStartable w
  IsStartable-here = All-get_elem? IsStartable r.workers i run.startable g

  does_not_panic_here : does_panic (goroutine ch before) ≡ false
  unfolding before
  does_not_panic_here = elim (alive_here r.workers i w g) [
    | inl e ↦ goroutine-does_not_panic w.place zero ch before refl IsStartable-here (inl e)
    | inr (n, e) ↦
        goroutine-does_not_panic w.place n ch before refl IsStartable-here
          (inr (run.counted ∙ ap some e))
  ]

  Goes-here :
      (s : WorkerRun) → goroutine ch before ≡ returns tt s → Goes r (put_back i r (returns tt s))
  unfolding put_back before
  Goes-here s e =
      let (m, c) = goroutine-Outcome (alive r.workers) ch before s run.given run.counted e in
      (
        record { workers = set_at r.workers i s.worker; shared = s.shared },
        refl,
        record {
          given = given-Moved before s m run.given;
          counted = Counted-alive r.workers i before s g run.counted c;
          startable =
              All-set IsStartable r.workers i s.worker run.startable
                (inl (goroutine-started w.place ch before s refl IsStartable-here e));
        },
        λ k. Accounted-Moved k i r.workers before s g m,
      )

  moves_here :
      (o : Out WorkerRun (Unit {0}))
      → goroutine ch before ≡ o
      → (put_back i r o ≡ blocks r) ⊎ Goes r (put_back i r o)
  unfolding put_back
  moves_here (returns tt s) e = inr (Goes-here s e)
  moves_here (panics p s) e = cc does_not_panic_here
  moves_here (blocks s) e = inl refl

pub move-none :
    (i : ℕ) (ch : Choice) (r : OnlineRun) → get_elem? r.workers i ≡ none → move i ch r ≡ blocks r
unfolding move
move-none i ch r g = ap (λ o. move_of o i ch r) g

pub move-some :
    (i : ℕ) (ch : Choice) (r : OnlineRun) (w : Worker)
    → get_elem? r.workers i ≡ some w
    → move i ch r ≡ put_back i r (goroutine ch (record { worker = w; shared = r.shared }))
unfolding move move_of
move-some i ch r w g = ap (λ o. move_of o i ch r) g

-- A turn is void, or the run goes on.
pub move-Goes :
    (i : ℕ) (ch : Choice) (r : OnlineRun)
    → Running r
    → (move i ch r ≡ blocks r) ⊎ Goes r (move i ch r)
unfolding before
move-Goes i ch r run = elim (Option-cases (get_elem? r.workers i)) [
  | inl e ↦ inl (move-none i ch r e)
  | inr (w, e) ↦
      rw (move-some i ch r w e)
        (moves_here i ch r run w e (goroutine ch (record { worker = w; shared = r.shared })) refl)
]
