-- ===== src/Examples/Runs.antt =====
-- The theorems about online runs, at a run of one worker and one task.
use goapp.Pool.Online.Finish.{run_online-IsOver}
use goapp.Pool.Online.Ends.{IsOver, schedule}
use goapp.Pool.Online.Accounts.{alive, one_if_alive}
use goapp.Pool.Online.Moves.{is_gone}
use goapp.Worker.{Worker}
use goapp.Base.{
  ℕ, suc, ◌+◌, ◌*◌, ◌<◌, get_elem?, Bool-cases, inl, inr, if◌then◌else◌, ap, ◌∙◌, arith,
}
use goapp.Base.{false, some, List, [], ◌∷◌, ◌≡◌, refl, All, map}
use goapp.GoRuntime.{state_of}
use goapp.Task.{is_ready}
use goapp.Task.Process.{process, body}
use goapp.Task.World.{notify}
use goapp.Worker.{start, new_worker}
use goapp.Worker.Steps.{step, check, choose, work, leave}
use goapp.Pool.{System, online_done}
use goapp.Pool.Start.{begin_online, finish_online, make_workers, enqueue}
use goapp.Pool.Online.{OnlineRun, Turn, run_turns, move, goroutine}
use goapp.Pool.Online.Runs.{Goes}
use goapp.Pool.Online.Complete.{run_online-success, run_online-Goes}
use goapp.Pool.Online.Events.{
  spawned, worker_goes, run_online, begun_online, run_events, react, moved, waited,
}
use goapp.Examples.Data.{new_system, choice_0}

abbrev turn : Turn
turn = record { turn_worker = 0; turn_choice = choice_0 }

abbrev turns : List Turn
turns = turn ∷ turn ∷ turn ∷ turn ∷ turn ∷ turn ∷ turn ∷ []

abbrev begun_system : System
begun_system = state_of (begin_online 9 (some 4 ∷ []) new_system)

abbrev finished : System
finished = state_of (run_online 9 5 (some 4 ∷ []) (map worker_goes turns) new_system)

run_online-Goes_example : Goes (spawned begun_system) (run_turns turns (spawned begun_system))
unfolding begin_online enqueue
run_online-Goes_example =
    run_online-Goes 9 4 [] new_system begun_system turns
      (λ j. record { unlocked = refl; has_f = refl }) (λ j. refl) refl

run_online-success_example :
    (finished.pool.state ≡ online_done)
    × All (λ j. is_ready (finished.shared.tasks j).state ≡ false) (4 ∷ [])
unfolding begin_online enqueue run_online begun_online run_events react moved waited move
    make_workers goroutine new_worker start step check choose work process body notify leave
    finish_online
run_online-success_example =
    run_online-success 9 5 4 [] new_system finished turns
      (λ j. record { unlocked = refl; has_f = refl }) refl

first_alive : List Worker → ℕ
first_alive [] = 0
first_alive (w ∷ ws) = if is_gone w.place then suc (first_alive ws) else 0

abbrev pick_first : OnlineRun → Turn
pick_first r = record { turn_worker = first_alive r.workers; turn_choice = choice_0 }

first_alive-is_alive :
    (ws : List Worker)
    → 0 < alive ws
    → (w : Worker) × (get_elem? ws (first_alive ws) ≡ some w) × (is_gone w.place ≡ false)
unfolding first_alive
first_alive-is_alive [] a = absurd (omega (arith, a))
first_alive-is_alive (w ∷ ws) a = elim (Bool-cases (is_gone w.place)) [
  | inl e ↦
      let none_here : one_if_alive w.place ≡ 0 = ap (λ b. if b then 0 else 1) e in
      let (v, g, b) = first_alive-is_alive ws (omega (arith, a, none_here)) in
      (v, ap (λ b. get_elem? (w ∷ ws) (if b then suc (first_alive ws) else 0)) e ∙ g, b)
  | inr e ↦ (w, ap (λ b. get_elem? (w ∷ ws) (if b then suc (first_alive ws) else 0)) e, e)
]

run_online-IsOver_example : IsOver (schedule (4 * 1 + 3 * 1) pick_first (spawned begun_system))
unfolding begin_online enqueue
run_online-IsOver_example =
    run_online-IsOver 9 (some 4) [] new_system begun_system pick_first
      (λ k. record {
        is_given = record { unlocked = refl; has_f = refl };
        is_short = refl;
        no_done_ch = refl;
      })
      (λ v a. first_alive-is_alive v.workers a) refl
