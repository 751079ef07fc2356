-- ===== src/Pool/Online/Accounts.antt =====
-- The workers of an online run as a list: what the queue, the workers and the wait group say of
-- the tasks that are not processed yet.
use goapp.Base.{
  ℕ, zero, suc, ◌+◌, false, Option, none, some, List, [], ◌∷◌, ◌≡◌, ◌⊎◌, inl, inr, arith, All,
  get_elem?, sym, if◌then◌else◌, Bool-cases, ◌==◌, subst,
}
use goapp.Task.{Task, is_ready}
use goapp.Task.World.{update}
use goapp.Task.Quiet.{IsGiven}
use goapp.Worker.{Worker, WorkerRun, Shared, Place, processing}
use goapp.Pool.Online.{set_at}
use goapp.Pool.Online.Moves.{
  is_processing, is_gone, Moved, moved_idle, moved_took, moved_worked, TookAs,
}

abbrev pub InQueue : ℕ → List (Option ℕ) → Type 0
InQueue k [] = ⊥
InQueue k (q ∷ qs) = (q ≡ some k) ⊎ InQueue k qs

-- A worker of the list processes the task.
abbrev pub Busy : ℕ → List Worker → Type 0
Busy k [] = ⊥
Busy k (w ∷ ws) = (w.place ≡ processing k) ⊎ Busy k ws

abbrev pub one_if_alive : Place → ℕ
one_if_alive p = if is_gone p then 0 else 1

-- How many workers are not gone.
abbrev pub alive : List Worker → ℕ
alive [] = 0
alive (w ∷ ws) = one_if_alive w.place + alive ws

-- The task is still in the queue, or a worker has it, or it is not ready any more.
abbrev pub Accounted : ℕ → List Worker → Shared → Type 0
Accounted k ws h = InQueue k h.task_queue_ch.buf ⊎ Busy k ws ⊎ (is_ready (h.tasks k).state ≡ false)

Busy-set_here :
    (k : ℕ) (ws : List Worker) (i : ℕ) (w v : Worker)
    → get_elem? ws i ≡ some w
    → v.place ≡ processing k
    → Busy k (set_at ws i v)
Busy-set_here k [] i w v g p = cc
Busy-set_here k (u ∷ ws) zero w v g p = inl p
Busy-set_here k (u ∷ ws) (suc i) w v g p = inr (Busy-set_here k ws i w v g p)

Busy-set_other :
    (k : ℕ) (ws : List Worker) (i : ℕ) (w v : Worker)
    → get_elem? ws i ≡ some w
    → Busy k ws
    → (w.place ≡ processing k) ⊎ Busy k (set_at ws i v)
Busy-set_other k [] i w v g b = cc
Busy-set_other k (u ∷ ws) zero w v g (inl p) = inl (cc)
Busy-set_other k (u ∷ ws) zero w v g (inr b) = inr (inr b)
Busy-set_other k (u ∷ ws) (suc i) w v g (inl p) = inr (inl p)
Busy-set_other k (u ∷ ws) (suc i) w v g (inr b) = elim (Busy-set_other k ws i w v g b) [
  | inl p ↦ inl p
  | inr c ↦ inr (inr c)
]

pub alive-set :
    (ws : List Worker) (i : ℕ) (w v : Worker)
    → get_elem? ws i ≡ some w
    → alive (set_at ws i v) + one_if_alive w.place ≡ alive ws + one_if_alive v.place
alive-set [] i w v g = cc
alive-set (u ∷ ws) zero w v g = let e : u ≡ w = ground arith in rw (sym e) (omega arith)
alive-set (u ∷ ws) (suc i) w v g = omega (arith, alive-set ws i w v g)

pub All-set {κ} :
    (P : Worker → Type κ) (ws : List Worker) (i : ℕ) (v : Worker)
    → All P ws
    → P v
    → All P (set_at ws i v)
All-set P [] i v a p = a
All-set P (u ∷ ws) zero v a p = (p, a.1)
All-set P (u ∷ ws) (suc i) v a p = (a.0, All-set P ws i v a.1 p)

alive-Busy : (k : ℕ) (ws : List Worker) → alive ws ≡ 0 → Busy k ws → ⊥
alive-Busy k [] a b = b
alive-Busy k (w ∷ ws) a (inl p) = ground arith
alive-Busy k (w ∷ ws) a (inr b) = alive-Busy k ws (omega (arith, a)) b

update-not_ready :
    (tasks : ℕ → Task) (h k : ℕ) (t : Task)
    → is_ready t.state ≡ false
    → is_ready (tasks k).state ≡ false
    → is_ready (update tasks h t k).state ≡ false
update-not_ready tasks h k t n m = elim (Bool-cases (k == h)) [ inl e ↦ rw e n | inr e ↦ rw e m ]

update-given :
    (tasks : ℕ → Task) (h : ℕ) (t : Task)
    → IsGiven t
    → ((k : ℕ) → IsGiven (tasks k))
    → (k : ℕ) → IsGiven (update tasks h t k)
update-given tasks h t q all k = elim (Bool-cases (k == h)) [
  | inl e ↦ rw e q
  | inr e ↦ rw e (all k)
]

update_self : (tasks : ℕ → Task) (h : ℕ) (t : Task) → update tasks h t h ≡ t
update_self tasks h t = ground arith

-- A task stays accounted for when the worker `w` at `i` becomes that of `s`.
module _ (k i : ℕ) (ws : List Worker) (r s : WorkerRun) where
  still-Busy :
      get_elem? ws i ≡ some r.worker
      → is_processing r.worker.place ≡ false
      → Busy k ws
      → Busy k (set_at ws i s.worker)
  still-Busy g p b = elim (Busy-set_other k ws i r.worker s.worker g b) [ inl e ↦ cc | inr c ↦ c ]

  taken :
      (q : Option ℕ)
      → get_elem? ws i ≡ some r.worker
      → q ≡ some k
      → TookAs q s.worker.place
      → Busy k (set_at ws i s.worker)
  taken none g e a = cc
  taken (some h) g e a = Busy-set_here k ws i r.worker s.worker g (cc)

  pub Accounted-Moved :
      get_elem? ws i ≡ some r.worker
      → Moved r s
      → Accounted k ws r.shared
      → Accounted k (set_at ws i s.worker) s.shared
  Accounted-Moved g (moved_idle t q p) (inl a) = inl (subst (InQueue k) (sym q) a)
  Accounted-Moved g (moved_idle t q p) (inr (inl b)) = inr (inl (still-Busy g p b))
  Accounted-Moved g (moved_idle t q p) (inr (inr n)) = inr (inr (rw t n))
  Accounted-Moved g (moved_took x t q p c) (inl a) = elim (subst (InQueue k) q a) [
    | inl e ↦ inr (inl (taken x g e c))
    | inr b ↦ inl b
  ]
  Accounted-Moved g (moved_took x t q p c) (inr (inl b)) = inr (inl (still-Busy g p b))
  Accounted-Moved g (moved_took x t q p c) (inr (inr n)) = inr (inr (rw t n))
  Accounted-Moved g (moved_worked h u t v n q p) (inl a) = inl (subst (InQueue k) (sym q) a)
  Accounted-Moved g (moved_worked h u t v n q p) (inr (inl b)) =
      elim (Busy-set_other k ws i r.worker s.worker g b) [
        | inl e ↦
            let same : h ≡ k = cc in inr (inr (rw (t, same, update_self r.shared.tasks k u) n))
        | inr c ↦ inr (inl c)
      ]
  Accounted-Moved g (moved_worked h u t v n q p) (inr (inr m)) =
      inr (inr (rw t (update-not_ready r.shared.tasks h k u n m)))

pub given-Moved :
    (r s : WorkerRun)
    → Moved r s
    → ((k : ℕ) → IsGiven (r.shared.tasks k))
    → (k : ℕ) → IsGiven (s.shared.tasks k)
given-Moved r s (moved_idle t q p) g k = rw t (g k)
given-Moved r s (moved_took x t q p c) g k = rw t (g k)
given-Moved r s (moved_worked h u t v n q p) g k = rw t (update-given r.shared.tasks h u v g k)

-- When no worker is left and the queue is empty, an accounted task has been processed.
pub Accounted-end :
    (k : ℕ) (ws : List Worker) (h : Shared)
    → alive ws ≡ 0
    → h.task_queue_ch.buf ≡ []
    → Accounted k ws h
    → is_ready (h.tasks k).state ≡ false
Accounted-end k ws h a b (inl c) = absurd (subst (InQueue k) b c)
Accounted-end k ws h a b (inr (inl c)) = absurd (alive-Busy k ws a c)
Accounted-end k ws h a b (inr (inr n)) = n
