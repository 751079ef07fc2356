-- ===== src/Pool/Online/Finish.antt =====
-- `RunOnline` ends, for quiet tasks and whatever the scheduler does.
use goapp.Base.{
  ℕ, zero, suc, ◌+◌, ◌*◌, ◌<◌, Option, none, some, List, ◌∷◌, ◌≡◌, refl, inl, arith, length, sym,
  ap, All, ℤ, subst,
}
use goapp.GoRuntime.{returns}
use goapp.Task.Quiet.{IsQuiet}
use goapp.Worker.{new_worker}
use goapp.Pool.{System}
use goapp.Pool.Start.{begin_online, make_workers}
use goapp.Pool.Online.{OnlineRun, Turn}
use goapp.Pool.Online.Accounts.{alive}
use goapp.Pool.Online.Events.{spawned}
use goapp.Pool.Online.Complete.{begun, begin_online-begun, begin_online_state, make_workers-alive}
use goapp.Pool.Online.Progress.{IsCalm}
use goapp.Pool.Online.Ends.{
  left_of, total, IsSteadyRun, IsBusyTurn, IsOver, schedule, schedule-IsOver,
}

make_workers-calm : (n first id : ℕ) (t : ℤ) → All IsCalm (make_workers n first id t)
unfolding make_workers new_worker
make_workers-calm zero first id t = tt
make_workers-calm (suc n) first id t =
    (inl (refl, refl, refl), make_workers-calm n (first + 1) id t)

left_of-make_workers : (n first id : ℕ) (t : ℤ) → left_of (make_workers n first id t) ≡ 4 * n
unfolding make_workers new_worker
left_of-make_workers zero first id t = omega arith
left_of-make_workers (suc n) first id t = omega (arith, left_of-make_workers n (first + 1) id t)

begun-IsSteadyRun :
    (external_id : ℕ) (ts : List (Option ℕ)) (s : System)
    → ((k : ℕ) → IsQuiet (s.shared.tasks k))
    → IsSteadyRun (spawned (begun external_id ts s))
begun-IsSteadyRun external_id ts s q = record {
  steady = record { queue_closed = refl; ctx_open = refl; quiet = q };
  calm = make_workers-calm s.pool.worker_concurrency 1 external_id s.pool.worker_timeout;
  counted =
      ap some
        (sym (make_workers-alive s.pool.worker_concurrency 1 external_id s.pool.worker_timeout));
}

total-begun :
    (external_id : ℕ) (ts : List (Option ℕ)) (s : System)
    → total (spawned (begun external_id ts s)) ≡ 4 * s.pool.worker_concurrency + 3 * length ts
total-begun external_id ts s =
    ap (λ x. x + 3 * length ts)
      (left_of-make_workers s.pool.worker_concurrency 1 external_id s.pool.worker_timeout)

-- An online run of quiet tasks comes to its end under every scheduler that gives each turn to a worker
-- that is not gone, as long as there is one: after four turns for each worker and three for each task
-- all workers are gone, and the wait group of the run is at zero.
pub run_online-IsOver :
    (external_id : ℕ) (t : Option ℕ) (ts : List (Option ℕ)) (s u : System) (pick : OnlineRun → Turn)
    → ((k : ℕ) → IsQuiet (s.shared.tasks k))
    → ((v : OnlineRun) → 0 < alive v.workers → IsBusyTurn (pick v) v)
    → begin_online external_id (t ∷ ts) s ≡ returns none u
    → IsOver (schedule (4 * s.pool.worker_concurrency + 3 * length (t ∷ ts)) pick (spawned u))
run_online-IsOver external_id t ts s u pick q busy e =
    let new = begin_online_state external_id t ts s u e in
    let b = begin_online-begun external_id t ts s new in
    let same : begun external_id (t ∷ ts) s ≡ u = cc in
    subst
      (λ x.
        IsOver (schedule (4 * s.pool.worker_concurrency + 3 * length (t ∷ ts)) pick (spawned x)))
      same
      (schedule-IsOver (4 * s.pool.worker_concurrency + 3 * length (t ∷ ts)) pick
        (spawned (begun external_id (t ∷ ts) s)) busy (begun-IsSteadyRun external_id (t ∷ ts) s q)
        (omega (arith, total-begun external_id (t ∷ ts) s)))
