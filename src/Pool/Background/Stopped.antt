-- ===== src/Pool/Background/Stopped.antt =====
-- How `Stop` of pkg/common/workerpool/pool.go ends the loop of `RunBG`.
use goapp.Base.{
  ℕ, true, false, Option, none, List, [], ◌∷◌, ◌++◌, ◌≡◌, refl, arith, not, ◌&&◌, ◌==◌, ltb, ap,
  subst, ◌∙◌, sym, if◌then◌else◌,
}
use goapp.GoRuntime.{
  Out, returns, panics, blocks, bind, bind-returned, state_of, Keeps, Keeps-bind, Keeps-if, Chan,
  send, close,
}
use goapp.Errors.{Failure}
use goapp.Worker
use goapp.Worker.{Worker, WorkerRun, Shared, PoolShutdownMode}
use goapp.Pool.{System}
use goapp.Pool.Shutdown.{
  Poll, is_down, any_non_stopped, wait_workers, stop_one, stopped_worker, stop_all,
  stop_workers_unsafe, close_queue, stop_queue, drained, close_errors, closed_queue, closed_errors,
  shutdown_unsafe, shutdown_body, shut, stop, signal_stop, sent_stop, empties_queue,
}
use goapp.Pool.ShutdownLaws.{stop-state}
use goapp.Pool.Background.{
  BgTurn, stop_called, take_stop, bg_loop, react, went_on, took_stop, cancelled,
}

-- The channels of the pool are made.
abbrev Made : System → Type 0
Made s = s.pool.made ≡ true

closed_queue-Made :
    (s : System) (o : Out (Chan (Option ℕ)) (Unit {0}))
    → Made s
    → Made (state_of (closed_queue s o))
unfolding closed_queue
closed_queue-Made s (returns a c) h = h
closed_queue-Made s (panics p c) h = h
closed_queue-Made s (blocks c) h = h

close_queue-Keeps : Keeps Made close_queue
unfolding close_queue
close_queue-Keeps s h =
    Keeps-if Made s.pool.is_background _ _
      (Keeps-if Made s.pool.made _ _ (closed_queue-Made s _ h) h) h

drained-Made :
    (s : System) (o : Out Shared (Unit {0})) → Made s → Made (state_of (drained s.pool o))
unfolding drained
drained-Made s (returns a c) h = h
drained-Made s (panics p c) h = h
drained-Made s (blocks c) h = h

stop_queue-Keeps : (mode : PoolShutdownMode) → Keeps Made (stop_queue mode)
unfolding stop_queue
stop_queue-Keeps mode s h =
    Keeps-if Made (empties_queue mode) _ _ (Keeps-if Made s.pool.made _ _ (drained-Made s _ h) h) h

closed_errors-Made :
    (s : System) (o : Out (Chan Worker.WorkerError) (Unit {0}))
    → Made s
    → Made (state_of (closed_errors s o))
unfolding closed_errors
closed_errors-Made s (returns a c) h = h
closed_errors-Made s (panics p c) h = h
closed_errors-Made s (blocks c) h = h

close_errors-Keeps : Keeps Made close_errors
unfolding close_errors
close_errors-Keeps s h = Keeps-if Made s.pool.made _ _ (closed_errors-Made s _ h) h

stopped_worker-Made :
    (s : System) (o : Out WorkerRun (Unit {0})) → Made s → Made (state_of (stopped_worker s o))
unfolding stopped_worker
stopped_worker-Made s (returns a r) h = h
stopped_worker-Made s (panics p r) h = h
stopped_worker-Made s (blocks r) h = h

stop_all-Keeps : (mode : PoolShutdownMode) (ws : List Worker) → Keeps Made (stop_all mode ws)
unfolding stop_all stop_one
stop_all-Keeps mode [] s h = h
stop_all-Keeps mode (w ∷ ws) s h =
    Keeps-bind Made (stop_one mode w s) _ (stopped_worker-Made s _ h)
      (λ v t k. Keeps-bind Made (stop_all mode ws t) _ (stop_all-Keeps mode ws t k) (λ vs u q. q))

wait_workers-Keeps : (timeout : ℕ) (polls : List Poll) → Keeps Made (wait_workers timeout polls)
unfolding wait_workers
wait_workers-Keeps timeout [] s h = h
wait_workers-Keeps timeout (p ∷ ps) s h =
    Keeps-if Made (not (timeout == 0) && ltb timeout p.elapsed) _ _ h
      (Keeps-if Made (any_non_stopped p.workers) _ _ (wait_workers-Keeps timeout ps _ h) h)

shut-Made : (o : Out System (Option Failure)) → Made (state_of o) → Made (state_of (shut o))
shut-Made (returns e s) h = h
shut-Made (panics p s) h = h
shut-Made (blocks s) h = h

shutdown_body-Keeps :
    (mode : PoolShutdownMode) (timeout : ℕ) (polls : List Poll)
    → Keeps Made (shutdown_body mode timeout polls)
unfolding shutdown_body stop_workers_unsafe
shutdown_body-Keeps mode timeout polls s h =
    Keeps-bind Made (close_queue _) _ (close_queue-Keeps _ h) λ _ t1 h1.
      Keeps-bind Made (stop_queue mode t1) _ (stop_queue-Keeps mode t1 h1) λ _ t2 h2.
        Keeps-bind Made (stop_workers_unsafe mode timeout polls t2) _
          (Keeps-bind Made (stop_all mode t2.pool.workers t2) _
            (stop_all-Keeps mode t2.pool.workers t2 h2)
            (λ ws t k. wait_workers-Keeps timeout polls _ k))
          (λ _. close_errors-Keeps)

shutdown_unsafe-Keeps :
    (mode : PoolShutdownMode) (timeout : ℕ) (polls : List Poll)
    → Keeps Made (shutdown_unsafe mode timeout polls)
unfolding shutdown_unsafe
shutdown_unsafe-Keeps mode timeout polls s h =
    Keeps-if Made (is_down s.pool.state) _ _ h
      (shut-Made (shutdown_body mode timeout polls s) (shutdown_body-Keeps mode timeout polls s h))

-- There is something in the channel.
abbrev HasSome : Chan (Unit {0}) → Type 0
HasSome c = (a : Unit {0}) × (rest : List (Unit {0})) × (c.buf ≡ a ∷ rest)

append_some :
    (xs : List (Unit {0}))
    → (a : Unit {0}) × (rest : List (Unit {0})) × (xs ++ (tt ∷ []) ≡ a ∷ rest)
append_some [] = (tt, [], refl)
append_some (x ∷ xs) = (x, xs ++ (tt ∷ []), refl)

sent_and_closed :
    (ch c : Chan (Unit {0}))
    → bind (send tt ch) (λ _. close) ≡ returns tt c
    → c.buf ≡ ch.buf ++ (tt ∷ [])
sent_and_closed ch c e = ground arith

stop_ch_of : Out System (Option Failure) → Chan (Unit {0})
stop_ch_of o = (state_of o).pool.stop_ch

sent_stop-HasSome :
    (e1 e2 : Option Failure) (s t : System) (o : Out (Chan (Unit {0})) (Unit {0}))
    → ((c : Chan (Unit {0})) → o ≡ returns tt c → HasSome c)
    → sent_stop e1 s o ≡ returns e2 t
    → HasSome t.pool.stop_ch
unfolding sent_stop stop_ch_of
sent_stop-HasSome e1 e2 s t (returns a c) k h = subst HasSome (ap stop_ch_of h) (k c refl)
sent_stop-HasSome e1 e2 s t (panics p c) k h = cc
sent_stop-HasSome e1 e2 s t (blocks c) k h = cc

signal_stop-HasSome :
    (e1 e2 : Option Failure) (s t : System)
    → Made s
    → signal_stop e1 s ≡ returns e2 t
    → HasSome t.pool.stop_ch
unfolding signal_stop
signal_stop-HasSome e1 e2 s t h r =
    sent_stop-HasSome e1 e2 s t (bind (send tt s.pool.stop_ch) (λ _. close))
      (λ c k.
        let (a, rest, p) = append_some s.pool.stop_ch.buf in
        (a, rest, sent_and_closed s.pool.stop_ch c k ∙ p))
      (sym (
          ap
            (λ b.
              if b
              then sent_stop e1 s (bind (send tt s.pool.stop_ch) (λ _. close))
              else returns e1 s)
            h)
        ∙ r)

stop-HasSome :
    (mode : PoolShutdownMode) (timeout : ℕ) (polls : List Poll) (s t : System) (e : Option Failure)
    → is_down s.pool.state ≡ false
    → Made s
    → stop mode timeout polls s ≡ returns e t
    → HasSome t.pool.stop_ch
unfolding stop
stop-HasSome mode timeout polls s t e d h r =
    let (e1, u, p, q) =
      bind-returned (shutdown_unsafe mode timeout polls s) signal_stop e t (rw d at r) in
    signal_stop-HasSome e1 e u t
      (subst (λ o. Made (state_of o)) p (shutdown_unsafe-Keeps mode timeout polls s h)) q

took_stop_ends :
    (timeout : ℕ) (rest : List BgTurn) (t : System)
    → HasSome t.pool.stop_ch
    → (u : System) × (bg_loop timeout (take_stop ∷ rest) t ≡ returns none u)
      × (u.pool.ctx_closed ≡ true)
      × (u.shared.ctx_done ≡ true)
      × (u.pool.state ≡ t.pool.state)
unfolding bg_loop react took_stop
took_stop_ends timeout rest t (a, xs, h) = (
  cancelled (record t { pool = record t.pool { stop_ch = record t.pool.stop_ch { buf = xs } } }),
  rw h refl,
  refl,
  refl,
  refl,
)

-- A pool that was begun and is not down: when a `Stop`, in any mode, has come back, `RunBG` ends with no
-- error as soon as its loop takes the signal, the context of the pool is closed, and the pool is down.
pub bg_loop_ends :
    (mode : PoolShutdownMode) (timeout stop_timeout : ℕ) (polls : List Poll) (rest : List BgTurn)
    (s t : System) (e : Option Failure)
    → is_down s.pool.state ≡ false
    → s.pool.made ≡ true
    → stop mode stop_timeout polls s ≡ returns e t
    → (u : System) × (bg_loop timeout (stop_called mode stop_timeout polls ∷ take_stop ∷ rest) s
        ≡ returns none u)
      × (u.pool.ctx_closed ≡ true)
      × (u.shared.ctx_done ≡ true)
      × (is_down u.pool.state ≡ true)
unfolding bg_loop react went_on
bg_loop_ends mode timeout stop_timeout polls rest s t e d h r =
    let (u, p, a, b, c) =
      took_stop_ends timeout rest t (stop-HasSome mode stop_timeout polls s t e d h r) in
    (u, rw r p, a, b, ap is_down c ∙ stop-state mode stop_timeout polls s t e r)
