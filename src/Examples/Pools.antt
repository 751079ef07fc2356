-- ===== src/Examples/Pools.antt =====
-- The theorem about the end of a background run at a concrete pool.
use goapp.Base.{true, none, [], ◌∷◌, ◌≡◌, refl}
use goapp.GoRuntime.{returns, state_of}
use goapp.Worker.{shutdown_soft}
use goapp.Pool.{System}
use goapp.Pool.Shutdown.{
  Poll, shutdown_unsafe, wait_workers, drain_queue, shutdown_body, close_queue, stop_queue,
  stop_workers_unsafe, stop_all, close_errors, stop, signal_stop, is_down,
}
use goapp.Pool.Background.{stop_called, take_stop, bg_loop}
use goapp.Pool.Background.Stopped.{bg_loop_ends}
use goapp.Examples.Data.{bg_system, worker_0}

abbrev look : Poll
look = record { elapsed = 8; workers = worker_0 ∷ [] }

abbrev shut_down : System
shut_down = state_of (stop shutdown_soft 5 (look ∷ []) bg_system)

bg_loop_ends_example :
    (u : System) × (bg_loop 30 (stop_called shutdown_soft 5 (look ∷ []) ∷ take_stop ∷ []) bg_system
      ≡ returns none u)
    × (u.pool.ctx_closed ≡ true)
    × (u.shared.ctx_done ≡ true)
    × (is_down u.pool.state ≡ true)
unfolding stop signal_stop shutdown_unsafe shutdown_body close_queue stop_queue drain_queue
    stop_workers_unsafe stop_all wait_workers close_errors
bg_loop_ends_example =
    bg_loop_ends shutdown_soft 30 5 (look ∷ []) [] bg_system shut_down none refl refl refl
