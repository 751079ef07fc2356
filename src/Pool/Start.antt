-- ===== src/Pool/Start.antt =====
-- pkg/common/workerpool/pool.go, `RunOnline` and `RunBG` up to the start of the workers, and the
-- end of `RunOnline`. Each worker's goroutine is started by `go`: its place is `not_started`.
use goapp.Base.{
  ℕ, zero, suc, ◌+◌, ℤ, Bool, true, false, Option, none, some, List, [], ◌∷◌, length, if◌then◌else◌,
}
use goapp.GoRuntime.{Chan, M, Out, returns, panics, blocks, make_chan, send}
use goapp.Errors.{Failure, new_typed, worker_pool_run_incorrect_state, worker_pool_incomplete_done}
use goapp.Worker.{Worker, Shared, new_worker}
use goapp.Pool.{
  Pool, PoolState, System, pool_new, online_running, online_done, incomplete_done, bg_running,
}

abbrev pub is_new : PoolState → Bool
is_new pool_new = true
is_new _ = false

-- The workers `first`, `first + 1`, … of a pool.
unfoldable pub make_workers : ℕ → ℕ → ℕ → ℤ → List Worker
make_workers zero first external_id timeout = []
make_workers (suc n) first external_id timeout =
    new_worker first external_id timeout ∷ make_workers n (first + 1) external_id timeout

-- `for i := range tasks { p.taskQueueCh <- tasks[i] }`
unfoldable pub enqueue : List (Option ℕ) → M (Chan (Option ℕ)) (Unit {0})
enqueue [] c = returns tt c
enqueue (t ∷ ts) c = elim (send t c) [
  | returns _ d ↦ enqueue ts d
  | panics p d ↦ panics p d
  | blocks d ↦ blocks d
]

-- The pool and its channels, as a run makes them.
abbrev pub made_pool : PoolState → Bool → ℕ → ℕ → Pool → Pool
made_pool state background external_id size p = record p {
  state = state;
  is_background = background;
  external_id = external_id;
  made = true;
  ctx_closed = false;
  stop_ch = make_chan 1;
  task_queue_size = size;
  workers = make_workers p.worker_concurrency 1 external_id p.worker_timeout;
}

abbrev pub made_shared : Option ℕ → ℕ → ℕ → Shared → Shared
made_shared wg size concurrency h = record h {
  ctx_done = false;
  task_queue_ch = make_chan size;
  err_ch = make_chan concurrency;
  run_wg = wg;
}

queued : System → Out (Chan (Option ℕ)) (Unit {0}) → Out System (Option Failure)
queued s (returns a c) =
    returns none
      (record s { shared = record s.shared { task_queue_ch = record c { closed = true } } })
queued s (panics p c) = panics p s
queued s (blocks c) = blocks s

-- `RunOnline` up to `close(p.taskQueueCh)`. With no tasks there is nothing to do; else the result
-- `none` means that the run has begun.
unfoldable pub begin_online : ℕ → List (Option ℕ) → M System (Option Failure)
unfolding queued
begin_online external_id [] s = returns none s
begin_online external_id (t ∷ ts) s =
    if is_new s.pool.state
    then (let n = length (t ∷ ts) in
        let u : System = record {
          pool = made_pool online_running false external_id n s.pool;
          shared =
              made_shared (some s.pool.worker_concurrency) n s.pool.worker_concurrency s.shared;
        } in
        queued u (enqueue (t ∷ ts) u.shared.task_queue_ch))
    else returns (some (new_typed worker_pool_run_incorrect_state s.pool.external_id)) s

abbrev is_empty {ℓ} : {A : Type ℓ} → List A → Bool
is_empty [] = true
is_empty (x ∷ xs) = false

-- `RunOnline` behind `wg.Wait()`, with the error that the goroutine of the parent context has left,
-- and `p.cancel()`.
unfoldable pub finish_online : Option Failure → M System (Option Failure)
finish_online err s =
    if is_empty s.shared.task_queue_ch.buf
    then returns err (record {
      pool = record s.pool { state = online_done; ctx_closed = true };
      shared = record s.shared { ctx_done = true };
    })
    else returns (some (new_typed worker_pool_incomplete_done s.pool.external_id)) (record {
      pool = record s.pool { state = incomplete_done; ctx_closed = true };
      shared = record s.shared { ctx_done = true };
    })

-- `RunBG` up to its loop.
unfoldable pub begin_bg : ℕ → M System (Option Failure)
begin_bg external_id s =
    if is_new s.pool.state
    then returns none (record {
      pool = made_pool bg_running true external_id s.pool.task_queue_size s.pool;
      shared = made_shared none s.pool.task_queue_size s.pool.worker_concurrency s.shared;
    })
    else returns (some (new_typed worker_pool_run_incorrect_state s.pool.external_id)) s
