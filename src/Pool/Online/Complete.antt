-- ===== src/Pool/Online/Complete.antt =====
-- `RunOnline` from its start to its end: with no error, every task was processed.
use mathlib.Core.List.{append-nil, append_assoc}
use goapp.Base.{
  ℕ, zero, suc, ◌+◌, ◌≤◌, true, false, Option, none, some, List, [], ◌∷◌, ◌++◌, ◌≡◌, refl, inl, inr,
  arith, All, All-weaken, ap, sym, ◌∙◌, Bool-cases, map, length, ℤ, length-append, subst, ltb,
  is_neg, Bool, ◌&&◌, if◌then◌else◌,
}
use goapp.GoRuntime.{Out, returns, panics, blocks, Chan, make_chan, send, bind-returned, does_block}
use goapp.Errors.{Failure}
use goapp.Task.{is_ready}
use goapp.Task.Quiet.{IsGiven}
use goapp.Worker.{new_worker}
use goapp.Pool.{System, online_running, online_done}
use goapp.Pool.Start.{
  begin_online, finish_online, make_workers, enqueue, is_new, made_pool, made_shared,
}
use goapp.Pool.Online.{OnlineRun, Turn, move, run_turns, after_move}
use goapp.Pool.Online.Events.{
  worker_goes, Whole, spawned, joined, moved, react, run_events, no_one_left, waited, begun_online,
  run_online,
}
use goapp.Pool.Online.Panics.{IsStartable}
use goapp.Pool.Online.Accounts.{InQueue, Accounted, alive, Accounted-end}
use goapp.Pool.Online.Runs.{Running, Goes, move-Goes}

run_turns_next :
    (t : Turn) (ts : List Turn) (r s : OnlineRun)
    → move t.turn_worker t.turn_choice r ≡ returns tt s
    → run_turns (t ∷ ts) r ≡ run_turns ts s
unfolding run_turns after_move
run_turns_next t ts r s e = ap (after_move (run_turns ts) r) e

run_turns_void :
    (t : Turn) (ts : List Turn) (r : OnlineRun)
    → move t.turn_worker t.turn_choice r ≡ blocks r
    → run_turns (t ∷ ts) r ≡ run_turns ts r
unfolding run_turns after_move
run_turns_void t ts r e = ap (after_move (run_turns ts) r) e

run_turns_nil : (r : OnlineRun) → run_turns [] r ≡ returns tt r
unfolding run_turns
run_turns_nil r = refl

-- Whatever the order of the turns and the choices of the runtime, the workers of a run go on without
-- a panic: the wait group counts those that are not gone, and each task is still in the queue, or at
-- a worker, or is not ready any more.
pub run_turns-Goes : (ts : List Turn) (r : OnlineRun) → Running r → Goes r (run_turns ts r)
run_turns-Goes [] r run = (r, run_turns_nil r, run, λ k a. a)
run_turns-Goes (t ∷ ts) r run = elim (move-Goes t.turn_worker t.turn_choice r run) [
  | inl e ↦
      let (s, f, later, keep) = run_turns-Goes ts r run in
      (s, run_turns_void t ts r e ∙ f, later, keep)
  | inr (u, e, now, kept) ↦
      let (s, f, later, keep) = run_turns-Goes ts u now in
      (s, run_turns_next t ts r u e ∙ f, later, λ k a. keep k (kept k a))
]

with_items : Chan (Option ℕ) → List (Option ℕ) → Chan (Option ℕ)
with_items c ts = record c { buf = c.buf ++ ts }

send_fits :
    (t : Option ℕ) (c : Chan (Option ℕ)) (n : ℕ)
    → c.closed ≡ false
    → length c.buf + suc n ≤ c.cap
    → send t c ≡ returns tt (with_items c (t ∷ []))
unfolding with_items
send_fits t c n o l = let fits : ltb (length c.buf) c.cap ≡ true = ground arith in rw (o, fits) refl

enqueue_next :
    (t : Option ℕ) (ts : List (Option ℕ)) (c d : Chan (Option ℕ))
    → send t c ≡ returns tt d
    → enqueue (t ∷ ts) c ≡ enqueue ts d
unfolding enqueue
enqueue_next t ts c d e = ground arith

enqueue_nil : (c : Chan (Option ℕ)) → enqueue [] c ≡ returns tt c
unfolding enqueue
enqueue_nil c = refl

-- Tasks that fit into an open queue are put into it in their order.
pub enqueue_fits :
    (ts : List (Option ℕ)) (c : Chan (Option ℕ))
    → c.closed ≡ false
    → length c.buf + length ts ≤ c.cap
    → enqueue ts c ≡ returns tt (record c { buf = c.buf ++ ts })
unfolding with_items
enqueue_fits [] c o l =
    enqueue_nil c ∙ ap (λ b. returns tt (record c { buf = b })) (sym (append-nil c.buf))
enqueue_fits (t ∷ ts) c o l =
    enqueue_next t ts c (with_items c (t ∷ [])) (send_fits t c (length ts) o l)
    ∙ enqueue_fits ts (with_items c (t ∷ [])) o (omega (arith, length-append c.buf (t ∷ []), l))
    ∙ ap (λ b. returns tt (record c { buf = b })) (append_assoc c.buf (t ∷ []) ts)

-- The pool and the channels of a run that has begun.
abbrev pub begun : ℕ → List (Option ℕ) → System → System
begun external_id ts s = record {
  pool = made_pool online_running false external_id (length ts) s.pool;
  shared =
      record (made_shared (some s.pool.worker_concurrency) (length ts) s.pool.worker_concurrency
        s.shared) { task_queue_ch = record { cap = length ts; buf = ts; closed = true } };
}

pub begin_online-begun :
    (external_id : ℕ) (t : Option ℕ) (ts : List (Option ℕ)) (s : System)
    → is_new s.pool.state ≡ true
    → begin_online external_id (t ∷ ts) s ≡ returns none (begun external_id (t ∷ ts) s)
unfolding begin_online
begin_online-begun external_id t ts s n =
    rw (n, enqueue_fits (t ∷ ts) (make_chan (length (t ∷ ts))) refl (omega arith)) refl

pub begin_online_state :
    (external_id : ℕ) (t : Option ℕ) (ts : List (Option ℕ)) (s u : System)
    → begin_online external_id (t ∷ ts) s ≡ returns none u
    → is_new s.pool.state ≡ true
unfolding begin_online
begin_online_state external_id t ts s u e = elim (Bool-cases (is_new s.pool.state)) [
  | inl n ↦ n
  | inr n ↦ cc (rw n at e)
]

pub make_workers-alive : (n first id : ℕ) (t : ℤ) → alive (make_workers n first id t) ≡ n
unfolding make_workers new_worker
make_workers-alive zero first id t = refl
make_workers-alive (suc n) first id t = omega (arith, make_workers-alive n (first + 1) id t)

make_workers-IsStartable : (n first id : ℕ) (t : ℤ) → All IsStartable (make_workers n first id t)
unfolding make_workers new_worker
make_workers-IsStartable zero first id t = tt
make_workers-IsStartable (suc n) first id t =
    (inr (refl, refl), make_workers-IsStartable n (first + 1) id t)

begun-Running :
    (external_id : ℕ) (ts : List (Option ℕ)) (s : System)
    → ((k : ℕ) → IsGiven (s.shared.tasks k))
    → Running (spawned (begun external_id ts s))
begun-Running external_id ts s g = record {
  given = g;
  counted =
      ap some
        (sym (make_workers-alive s.pool.worker_concurrency 1 external_id s.pool.worker_timeout));
  startable =
      make_workers-IsStartable s.pool.worker_concurrency 1 external_id s.pool.worker_timeout;
}

begun-Goes :
    (external_id k : ℕ) (ks : List ℕ) (s u : System) (turns : List Turn)
    → ((j : ℕ) → IsGiven (s.shared.tasks j))
    → begin_online external_id (map some (k ∷ ks)) s ≡ returns none u
    → Goes (spawned u) (run_turns turns (spawned u))
begun-Goes external_id k ks s u turns g e =
    let new = begin_online_state external_id (some k) (map some ks) s u e in
    let b = begin_online-begun external_id (some k) (map some ks) s new in
    let same : begun external_id (map some (k ∷ ks)) s ≡ u = cc in
    run_turns-Goes turns (spawned u)
      (subst (λ x. Running (spawned x)) same (begun-Running external_id (map some (k ∷ ks)) s g))

-- While the parent context stays open and nobody calls `Stop`, the workers of an online run of short and
-- unlocked tasks with a handler go on without a panic, in any order of their steps: the wait group of
-- the run counts those that are not gone, and each task that was in the queue, at a worker or not ready
-- is one of these afterwards.
pub run_online-Goes :
    (external_id k : ℕ) (ks : List ℕ) (s u : System) (turns : List Turn)
    → ((j : ℕ) → IsGiven (s.shared.tasks j))
    → ((j : ℕ) → is_neg (s.shared.tasks j).timeout ≡ true)
    → begin_online external_id (map some (k ∷ ks)) s ≡ returns none u
    → Goes (spawned u) (run_turns turns (spawned u))
run_online-Goes external_id k ks s u turns g short e = begun-Goes external_id k ks s u turns g e

All-InQueue : (ks : List ℕ) → All (λ k. InQueue k (map some ks)) ks
All-InQueue [] = tt
All-InQueue (k ∷ ks) =
    (inl refl, All-weaken (λ j. InQueue j (map some ks)) _ ks (λ j q. inr q) (All-InQueue ks))

finish_online_done :
    (s t : System)
    → finish_online none s ≡ returns none t
    → (s.shared.task_queue_ch.buf ≡ [])
      × (t.shared.tasks ≡ s.shared.tasks)
      × (t.pool.state ≡ online_done)
unfolding finish_online
finish_online_done s t e = ground arith

finished_run :
    (external_id k : ℕ) (ks : List ℕ) (s u w : System) (v : OnlineRun) (turns : List Turn)
    → ((j : ℕ) → IsGiven (s.shared.tasks j))
    → begin_online external_id (map some (k ∷ ks)) s ≡ returns none u
    → run_turns turns (spawned u) ≡ returns tt v
    → v.shared.run_wg ≡ some 0
    → finish_online none (joined u v) ≡ returns none w
    → (w.pool.state ≡ online_done) × All (λ j. is_ready (w.shared.tasks j).state ≡ false) (k ∷ ks)
finished_run external_id k ks s u w v turns g e r z f =
    let (x, run, now, keep) = begun-Goes external_id k ks s u turns g e in
    let same : x ≡ v = cc in
    let gone : alive v.workers ≡ 0 = cc now.counted in
    let (b, t, o) = finish_online_done (joined u v) w f in
    let new = begin_online_state external_id (some k) (map some ks) s u e in
    let put = begin_online-begun external_id (some k) (map some ks) s new in
    let full : u.shared.task_queue_ch.buf ≡ map some (k ∷ ks) = cc in
    (
      o,
      All-weaken (λ j. InQueue j (map some (k ∷ ks)))
          (λ j. is_ready (w.shared.tasks j).state ≡ false) (k ∷ ks)
          (λ j q. rw t (
            Accounted-end j v.workers v.shared gone b (
              subst (λ y. Accounted j y.workers y.shared) same
                (keep j (inl (subst (InQueue j) (sym full) q))))))
          (All-InQueue (k ∷ ks)),
    )

-- A run of the workers alone, in the run as a whole.
lifted : Whole → Out OnlineRun (Unit {0}) → Out Whole (Unit {0})
lifted r (returns a v) = returns tt (record r { system = joined r.system v })
lifted r (panics p v) = panics p (record r { system = joined r.system v })
lifted r (blocks v) = blocks (record r { system = joined r.system v })

lifted_again :
    (r : Whole) (v : OnlineRun) (o : Out OnlineRun (Unit {0}))
    → lifted (record r { system = joined r.system v }) o ≡ lifted r o
unfolding lifted
lifted_again r v (returns a w) = refl
lifted_again r v (panics p w) = refl
lifted_again r v (blocks w) = refl

moved-lifted :
    (timeout : ℕ) (ts : List Turn) (r : Whole) (o : Out OnlineRun (Unit {0}))
    → ((q : Whole)
        → run_events timeout (map worker_goes ts) q ≡ lifted q (run_turns ts (spawned q.system)))
    → moved (run_events timeout (map worker_goes ts)) r o
      ≡ lifted r (after_move (run_turns ts) (spawned r.system) o)
unfolding moved after_move lifted
moved-lifted timeout ts r (returns a v) i =
    i (record r { system = joined r.system v }) ∙ lifted_again r v (run_turns ts v)
moved-lifted timeout ts r (panics p v) i = refl
moved-lifted timeout ts r (blocks v) i = i r

run_events-lifted :
    (timeout : ℕ) (ts : List Turn) (r : Whole)
    → run_events timeout (map worker_goes ts) r ≡ lifted r (run_turns ts (spawned r.system))
unfolding run_events run_turns react lifted
run_events-lifted timeout [] r = refl
run_events-lifted timeout (t ∷ ts) r =
    moved-lifted timeout ts r (move t.turn_worker t.turn_choice (spawned r.system))
      (run_events-lifted timeout ts)

abbrev whole_of : System → Whole
whole_of u = record { system = u; run_err = none; watching = true; held = false }

no_one_some : (o : Option ℕ) → no_one_left o && true ≡ true → o ≡ some 0
no_one_some none e = cc
no_one_some (some n) e = ground arith

if_returns :
    (b : Bool) (x y : Out System (Option Failure)) (w : System)
    → (if b then x else y) ≡ returns none w
    → does_block y ≡ true
    → (b ≡ true) × (x ≡ returns none w)
if_returns true x y w e d = (refl, e)
if_returns false x y w e d = cc

waited_end :
    (u w : System) (o : Out OnlineRun (Unit {0}))
    → waited (lifted (whole_of u) o) ≡ returns none w
    → (v : OnlineRun) × (o ≡ returns tt v)
      × (v.shared.run_wg ≡ some 0)
      × (finish_online none (joined u v) ≡ returns none w)
unfolding waited lifted
waited_end u w (returns a v) e =
    let (b, f) = if_returns (no_one_left v.shared.run_wg && true) _ _ w e refl in
    (v, refl, no_one_some v.shared.run_wg b, f)
waited_end u w (panics p v) e = cc
waited_end u w (blocks v) e = cc

begun_end :
    (timeout : ℕ) (turns : List Turn) (e : Option Failure) (u w : System)
    → begun_online timeout (map worker_goes turns) e u ≡ returns none w
    → (e ≡ none) × (waited (lifted (whole_of u) (run_turns turns (spawned u))) ≡ returns none w)
unfolding begun_online
begun_end timeout turns none u w h =
    (refl, ap waited (sym (run_events-lifted timeout turns (whole_of u))) ∙ h)
begun_end timeout turns (some e) u w h = cc

-- If `RunOnline`, with at least one task, comes back with no error, while the parent context stays open and
-- nobody calls `Stop`, every task of it has been processed: the pool is in the state `online_done` and
-- no task of the list is ready any more, whatever the order of the workers' steps. All tasks are
-- unlocked at the start and have a handler.
pub run_online-success :
    (external_id timeout k : ℕ) (ks : List ℕ) (s w : System) (turns : List Turn)
    → ((j : ℕ) → IsGiven (s.shared.tasks j))
    → run_online external_id timeout (map some (k ∷ ks)) (map worker_goes turns) s ≡ returns none w
    → (w.pool.state ≡ online_done) × All (λ j. is_ready (w.shared.tasks j).state ≡ false) (k ∷ ks)
unfolding run_online
run_online-success external_id timeout k ks s w turns g r =
    let (e, u, p, q) =
      bind-returned (begin_online external_id (map some (k ∷ ks)) s)
        (begun_online timeout (map worker_goes turns)) none w r in
    let (n, f) = begun_end timeout turns e u w q in
    let (v, o, z, d) = waited_end u w (run_turns turns (spawned u)) f in
    finished_run external_id k ks s u w v turns g (p ∙ ap (λ x. returns x u) n) o z d
