-- ===== src/Pool/Online/Events.antt =====
-- pkg/common/workerpool/pool.go, `RunOnline` as a whole: its workers by turns, the goroutine that waits for
-- the parent context, and other goroutines that call `Stop`.
use goapp.Base.{
  ℕ, Bool, true, false, Option, none, some, List, [], ◌∷◌, ◌==◌, ◌&&◌, not, if◌then◌else◌,
}
use goapp.GoRuntime.{Chan, M, Out, returns, panics, blocks, bind, recv}
use goapp.Errors.{Failure}
use goapp.Worker.{PoolShutdownMode, shutdown_hard}
use goapp.Pool.{System}
use goapp.Pool.Start.{begin_online, finish_online}
use goapp.Pool.Shutdown.{Poll, shutdown_unsafe, stop}
use goapp.Pool.Online.{OnlineRun, Turn, move}

-- What goes on next: a worker, a call of `Stop`, or the goroutine behind the start of the workers, with the
-- case of its `select` for the parent context or the one for the stop signal.
pub data OnlineEvent : Type 0 where
  worker_goes : Turn → OnlineEvent
  stop_called : PoolShutdownMode → ℕ → List Poll → OnlineEvent
  parent_closed : List Poll → OnlineEvent
  signal_taken : OnlineEvent

-- The pool, the variable `err` of `RunOnline`, whether the goroutine still waits, and whether a shutdown
-- that waits for good holds the lock of the pool.
pub record Whole : Type 0 where
  pub system : System
  pub run_err : Option Failure
  pub watching : Bool
  pub held : Bool

abbrev pub spawned : System → OnlineRun
spawned u = record { workers = u.pool.workers; shared = u.shared }

abbrev pub joined : System → OnlineRun → System
joined u v = record { pool = record u.pool { workers = v.workers }; shared = v.shared }

-- An event that cannot go on is void; a panic of a goroutine ends the program.
unfoldable pub moved : M Whole (Unit {0}) → Whole → Out OnlineRun (Unit {0}) → Out Whole (Unit {0})
moved later r (returns a v) = later (record r { system = joined r.system v })
moved later r (panics p v) = panics p (record r { system = joined r.system v })
moved later r (blocks v) = later r

unfoldable pub stopped :
    M Whole (Unit {0}) → Whole → Out System (Option Failure) → Out Whole (Unit {0})
stopped later r (returns e s) = later (record r { system = s })
stopped later r (panics p s) = panics p (record r { system = s })
stopped later r (blocks s) = later (record r { system = s; held = true })

-- `err = p.shutdownUnsafe(POOL_SHUTDOWN_HARD, shutdownTimeout)`
unfoldable pub shut_down :
    M Whole (Unit {0}) → Whole → Out System (Option Failure) → Out Whole (Unit {0})
shut_down later r (returns e s) = later (record r { system = s; run_err = e; watching = false })
shut_down later r (panics p s) = panics p (record r { system = s })
shut_down later r (blocks s) = later (record r { system = s; watching = false; held = true })

unfoldable pub took_signal :
    M Whole (Unit {0}) → Whole → Out (Chan (Unit {0})) (Option (Unit {0})) → Out Whole (Unit {0})
took_signal later r (returns a c) = later (record r {
  system = record r.system { pool = record r.system.pool { stop_ch = c } };
  watching = false;
})
took_signal later r (panics p c) = panics p r
took_signal later r (blocks c) = later r

unfoldable pub react : ℕ → OnlineEvent → M Whole (Unit {0}) → M Whole (Unit {0})
unfolding moved stopped shut_down took_signal
react timeout (worker_goes t) later r =
    moved later r (move t.turn_worker t.turn_choice (spawned r.system))
react timeout (stop_called mode stop_timeout polls) later r =
    if r.held then later r else stopped later r (stop mode stop_timeout polls r.system)
react timeout (parent_closed polls) later r =
    if r.watching && not r.held
    then shut_down later r (shutdown_unsafe shutdown_hard timeout polls r.system)
    else later r
react timeout signal_taken later r =
    if r.watching then took_signal later r (recv r.system.pool.stop_ch) else later r

unfoldable pub run_events : ℕ → List OnlineEvent → M Whole (Unit {0})
unfolding react
run_events timeout [] r = returns tt r
run_events timeout (e ∷ es) r = react timeout e (run_events timeout es) r

abbrev pub no_one_left : Option ℕ → Bool
no_one_left none = false
no_one_left (some n) = n == 0

-- `wg.Wait()`, and what is behind it, which takes the lock.
unfoldable pub waited : Out Whole (Unit {0}) → Out System (Option Failure)
waited (returns a r) =
    if no_one_left r.system.shared.run_wg && not r.held
    then finish_online r.run_err r.system
    else blocks r.system
waited (panics p r) = panics p r.system
waited (blocks r) = blocks r.system

unfoldable pub begun_online : ℕ → List OnlineEvent → Option Failure → M System (Option Failure)
unfolding run_events waited
begun_online timeout events (some e) s = returns (some e) s
begun_online timeout events none s = waited (
    run_events timeout events
      (record { system = s; run_err = none; watching = true; held = false }))

-- `RunOnline`, with a parent context that is not nil.
unfoldable pub run_online : ℕ → ℕ → List (Option ℕ) → List OnlineEvent → M System (Option Failure)
unfolding begun_online
run_online external_id timeout [] events s = returns none s
run_online external_id timeout (t ∷ ts) events s =
    bind (begin_online external_id (t ∷ ts) s) (begun_online timeout events)
