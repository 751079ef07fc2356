-- ===== src/Pool/Online.antt =====
-- pkg/common/workerpool/pool.go, `RunOnline` while its workers run: each worker is a goroutine, and
-- a schedule says which of them makes the next step and what the runtime chooses for it.
pub mod Events
pub mod Moves
pub mod Outcomes
pub mod Panics
pub mod Accounts
pub mod Runs
pub mod Complete
pub mod Progress
pub mod Ends
pub mod Finish
use goapp.Base.{
  ℕ, zero, suc, Bool, true, false, Option, none, some, List, [], ◌∷◌, get_elem?, if◌then◌else◌,
}
use goapp.GoRuntime.{M, Out, returns, panics, blocks}
use goapp.Worker.{
  Worker, WorkerRun, Shared, Place, not_started, at_check, at_select, processing, leaving, gone,
  start,
}
use goapp.Worker.Steps.{Choice, step}

pub record OnlineRun : Type 0 where
  pub workers : List Worker
  pub shared : Shared

unfoldable pub goroutine_at : Place → Choice → M WorkerRun (Unit {0})
goroutine_at not_started ch r = start r
goroutine_at at_check ch r = step ch r
goroutine_at at_select ch r = step ch r
goroutine_at (processing h) ch r = step ch r
goroutine_at leaving ch r = step ch r
goroutine_at gone ch r = step ch r

-- A step of `go worker.run(&wg)`.
unfoldable pub goroutine : Choice → M WorkerRun (Unit {0})
unfolding goroutine_at
goroutine ch r = goroutine_at r.worker.place ch r

abbrev pub set_at {ℓ} : {A : Type ℓ} → List A → ℕ → A → List A
set_at [] i v = []
set_at (x ∷ xs) zero v = v ∷ xs
set_at (x ∷ xs) (suc i) v = x ∷ set_at xs i v

unfoldable pub put_back : ℕ → OnlineRun → Out WorkerRun (Unit {0}) → Out OnlineRun (Unit {0})
put_back i r (returns a s) =
    returns tt (record { workers = set_at r.workers i s.worker; shared = s.shared })
put_back i r (panics p s) =
    panics p (record { workers = set_at r.workers i s.worker; shared = s.shared })
put_back i r (blocks s) = blocks r

move_of : Option Worker → ℕ → Choice → M OnlineRun (Unit {0})
unfolding put_back
move_of none i ch r = blocks r
move_of (some w) i ch r = put_back i r (goroutine ch (record { worker = w; shared = r.shared }))

-- A step of the worker at the index `i`.
unfoldable pub move : ℕ → Choice → M OnlineRun (Unit {0})
unfolding move_of
move i ch r = move_of (get_elem? r.workers i) i ch r

-- The turn of a worker.
pub record Turn : Type 0 where
  pub turn_worker : ℕ
  pub turn_choice : Choice

after_move :
    M OnlineRun (Unit {0}) → OnlineRun → Out OnlineRun (Unit {0}) → Out OnlineRun (Unit {0})
after_move later r (returns a s) = later s
after_move later r (panics p s) = panics p s
after_move later r (blocks s) = later r

-- The workers by turns; a turn of a worker that cannot go on is void. A panic ends the program.
unfoldable pub run_turns : List Turn → M OnlineRun (Unit {0})
unfolding after_move
run_turns [] r = returns tt r
run_turns (t ∷ ts) r = after_move (run_turns ts) r (move t.turn_worker t.turn_choice r)
