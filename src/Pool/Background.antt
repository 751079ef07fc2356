-- ===== src/Pool/Background.antt =====
-- pkg/common/workerpool/pool.go: the loop of `RunBG`. A schedule says who goes on: a worker, another
-- goroutine that calls `Stop`, or the loop itself with one of the cases of its `select`. The recovery
-- of the loop's own panics is left out.
pub mod Stopped
use goapp.Base.{ℕ, Bool, true, false, Option, none, some, List, [], ◌∷◌, map, ◌==◌, if◌then◌else◌}
use goapp.GoRuntime.{M, Out, returns, panics, blocks, bind, recv, Chan}
use goapp.Errors.{Failure}
use goapp.Worker.{
  Worker, WorkerError, WorkerRun, Shared, Place, PoolShutdownMode, shutdown_hard, not_started, gone,
  at_check, at_select, processing, leaving, start,
}
use goapp.Worker.Steps.{Choice}
use goapp.Pool.{System, Pool}
use goapp.Pool.Start.{begin_bg}
use goapp.Pool.Shutdown.{Poll, shutdown_unsafe, stop}
use goapp.Pool.Online.{OnlineRun, Turn, move}

pub data BgTurn : Type 0 where
  worker_goes : Turn → BgTurn
  stop_called : PoolShutdownMode → ℕ → List Poll → BgTurn
  take_error take_stop : BgTurn
  take_parent : List Poll → BgTurn

abbrev pub with_run : System → OnlineRun → System
with_run s r = record { pool = record s.pool { workers = r.workers }; shared = r.shared }

-- A case that cannot go on is void; a panic of another goroutine ends the program.
unfoldable pub went_on :
    {A : Type 0} → M System (Option Failure) → System → Out System A → Out System (Option Failure)
went_on later s (returns a t) = later t
went_on later s (panics p t) = panics p t
went_on later s (blocks t) = later t

unfoldable pub moved : System → Out OnlineRun (Unit {0}) → Out System (Unit {0})
moved s (returns a r) = returns tt (with_run s r)
moved s (panics p r) = panics p (with_run s r)
moved s (blocks r) = blocks s

-- `p.cancel()`
abbrev pub cancelled : System → System
cancelled s = record {
  pool = record s.pool { ctx_closed = true };
  shared = record s.shared { ctx_done = true };
}

-- `go workerErr.worker.run(nil)`: a worker whose goroutine has ended gets a new one. One whose
-- goroutine goes on is still locked, and its second goroutine only reports that again.
abbrev pub restarted_at : Place → Worker → Worker
restarted_at gone w = record w { place = not_started }
restarted_at not_started w = w
restarted_at at_check w = w
restarted_at at_select w = w
restarted_at leaving w = w
restarted_at (processing h) w = w

abbrev pub restarted : ℕ → Worker → Worker
restarted id w = if w.id == id then restarted_at w.place w else w

abbrev pub restart : ℕ → System → System
restart id s = record s { pool = record s.pool { workers = map (restarted id) s.pool.workers } }

-- `case workerErr, ok := <-p.workerErrCh`
unfoldable pub took_error :
    M System (Option Failure)
    → System
    → Out (Chan WorkerError) (Option WorkerError)
    → Out System (Option Failure)
took_error later s (returns (some e) c) =
    later (restart e.worker (record s { shared = record s.shared { err_ch = c } }))
took_error later s (returns none c) = returns none (cancelled s)
took_error later s (panics p c) = panics p s
took_error later s (blocks c) = later s

-- `case <-p.stopCh`
unfoldable pub took_stop :
    M System (Option Failure)
    → System
    → Out (Chan (Unit {0})) (Option (Unit {0}))
    → Out System (Option Failure)
took_stop later s (returns a c) =
    returns none (cancelled (record s { pool = record s.pool { stop_ch = c } }))
took_stop later s (panics p c) = panics p s
took_stop later s (blocks c) = later s

unfoldable pub react : ℕ → BgTurn → M System (Option Failure) → M System (Option Failure)
unfolding took_error took_stop went_on moved
react timeout (worker_goes t) later s = went_on later s (
    moved s
      (move t.turn_worker t.turn_choice (record { workers = s.pool.workers; shared = s.shared })))
react timeout (stop_called mode stop_timeout polls) later s =
    went_on later s (stop mode stop_timeout polls s)
react timeout take_error later s = took_error later s (recv s.shared.err_ch)
react timeout take_stop later s = took_stop later s (recv s.pool.stop_ch)
react timeout (take_parent polls) later s =
    bind (shutdown_unsafe shutdown_hard timeout polls s) (λ e t. returns e (cancelled t))

-- The loop of `RunBG`. Where the schedule ends, the loop waits.
unfoldable pub bg_loop : ℕ → List BgTurn → M System (Option Failure)
unfolding react
bg_loop timeout [] s = blocks s
bg_loop timeout (t ∷ ts) s = react timeout t (bg_loop timeout ts) s

begun_bg : ℕ → List BgTurn → Option Failure → M System (Option Failure)
unfolding bg_loop
begun_bg timeout turns (some e) s = returns (some e) s
begun_bg timeout turns none s = bg_loop timeout turns s

-- `RunBG`
unfoldable pub run_bg : ℕ → ℕ → List BgTurn → M System (Option Failure)
unfolding begun_bg
run_bg external_id timeout turns s = bind (begin_bg external_id s) (begun_bg timeout turns)
