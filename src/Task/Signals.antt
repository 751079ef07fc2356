-- ===== src/Task/Signals.antt =====
-- What the outside world sees of a task: the signals and the state that `process` leaves.
use goapp.Base.{
  ℕ, suc, zero, ℤ, ◌-◌, ◌<◌, Bool, true, false, Option, none, some, List, [], ◌∷◌, ◌≡◌, refl, inl,
  inr, is_neg, arith, Bool-cases, ap, ◌∙◌, not, ◌||◌,
}
use goapp.GoRuntime.{Out, Chan, can_recv, returns, panics, blocks, does_block, state_of}
use goapp.Task.{
  HandlerOut, returned, panicked, Task, TaskState, Handler, is_ready, in_process, done_success,
  recover_err, terminated_stop_signal, terminated_timeout,
}
use goapp.Task.World.{World, notify, update}
use goapp.Task.Run.{Event, handler_ends, stop_called, time_up, happen, happen_all, ends_program}
use goapp.Task.Process.{
  Branch, on_done, on_stop, on_timer, TaskRun, Env, arm, select, take_case, waiting, armed,
  short_task, effective_timeout, body, process,
}
use goapp.Task.Outcomes.{started, process_of_body, process_of_panic}
use goapp.Task.Select.{has_time_up, body_times_out}

-- Only the owner of a task replaces its channel, its wait group and its handler.
pub record Keeps (t u : Task) : Type 0 where
  pub same_done_ch : u.done_ch ≡ t.done_ch
  pub same_wg : u.wg ≡ t.wg
  pub same_f : u.f ≡ t.f

happen-Keeps : (f : Handler) (e : Event) (t : Task) → Keeps t (happen f e t)
unfolding happen
happen-Keeps f handler_ends t = ground arith
happen-Keeps f stop_called t = ground arith
happen-Keeps f time_up t = ground arith

happen_all-Keeps : (f : Handler) (es : List Event) (t : Task) → Keeps t (happen_all f es t)
unfolding happen_all
happen_all-Keeps f [] t = record { same_done_ch = refl; same_wg = refl; same_f = refl }
happen_all-Keeps f (e ∷ es) t =
    ground (arith, happen-Keeps f e t, happen_all-Keeps f es (happen f e t))

select-Keeps : (elapsed : ℕ) (pick : Branch) (t : Task) → Keeps t (state_of (select elapsed pick t))
unfolding select take_case
select-Keeps elapsed on_done t = ground arith
select-Keeps elapsed on_stop t = ground arith
select-Keeps elapsed on_timer t = ground arith

arm-Keeps : (n : ℕ) (t : Task) → Keeps t (arm n t)
unfolding arm
arm-Keeps zero t = record { same_done_ch = refl; same_wg = refl; same_f = refl }
arm-Keeps (suc n) t = record { same_done_ch = refl; same_wg = refl; same_f = refl }

arm-state : (n : ℕ) (t : Task) → (arm n t).state ≡ t.state
unfolding arm
arm-state zero t = refl
arm-state (suc n) t = refl

waiting-Keeps :
    (f : Handler) (worker_timeout : ℤ) (env : Env) (t : Task)
    → Keeps t (waiting f worker_timeout env t)
unfolding waiting
waiting-Keeps f worker_timeout env t =
    let n = effective_timeout t.timeout worker_timeout in
    ground (arith, arm-Keeps n t, happen_all-Keeps f env.events (arm n t))

pub body-Keeps :
    (f : Handler) (worker_timeout : ℤ) (env : Env) (t : Task)
    → Keeps t (state_of (body f worker_timeout env t))
unfolding body
body-Keeps f worker_timeout env t = elim (Bool-cases (is_neg t.timeout)) [
  | inl e ↦ rw e (ground arith)
  | inr e ↦ rw e (
      ground (
        arith,
        waiting-Keeps f worker_timeout env t,
        select-Keeps env.elapsed env.pick (waiting f worker_timeout env t),
      ))
]

-- The states that a task has behind its start: in process, or ended in one of the ways.
abbrev pub is_begun : TaskState → Bool
is_begun in_process = true
is_begun done_success = true
is_begun recover_err = true
is_begun terminated_stop_signal = true
is_begun terminated_timeout = true
is_begun _ = false

-- The states of a task that has ended: with success, by a panic, by a stop signal or by its timeout.
abbrev pub is_final : TaskState → Bool
is_final done_success = true
is_final recover_err = true
is_final terminated_stop_signal = true
is_final terminated_timeout = true
is_final _ = false

-- A stop channel that is closed still holds its signal, as `Stop` leaves it.
abbrev pub holds_signal : Chan (Unit {0}) → Bool
holds_signal c = not c.closed || can_recv (record c { closed = false })

happen-holds :
    (f : Handler) (e : Event) (t : Task)
    → holds_signal t.stop_ch ≡ true
    → holds_signal (happen f e t).stop_ch ≡ true
unfolding happen
happen-holds f handler_ends t h = ground arith
happen-holds f stop_called t h = ground arith
happen-holds f time_up t h = ground arith

happen-state : (f : Handler) (e : Event) (t : Task) → (happen f e t).state ≡ t.state
unfolding happen
happen-state f handler_ends t = ground arith
happen-state f stop_called t = ground arith
happen-state f time_up t = ground arith

happen_all-state : (f : Handler) (es : List Event) (t : Task) → (happen_all f es t).state ≡ t.state
unfolding happen_all
happen_all-state f [] t = refl
happen_all-state f (e ∷ es) t = happen_all-state f es (happen f e t) ∙ happen-state f e t

waiting-state :
    (f : Handler) (worker_timeout : ℤ) (env : Env) (t : Task)
    → (waiting f worker_timeout env t).state ≡ t.state
unfolding waiting
waiting-state f worker_timeout env t =
    happen_all-state f env.events _ ∙ arm-state (effective_timeout t.timeout worker_timeout) t

select_begun :
    (elapsed : ℕ) (pick : Branch) (t : Task)
    → t.state ≡ in_process
    → is_begun (state_of (select elapsed pick t)).state ≡ true
unfolding select take_case
select_begun elapsed on_done t h = ground arith
select_begun elapsed on_stop t h = ground arith
select_begun elapsed on_timer t h = ground arith

pub body_begun :
    (f : Handler) (worker_timeout : ℤ) (env : Env) (t : Task)
    → t.state ≡ in_process
    → is_begun (state_of (body f worker_timeout env t)).state ≡ true
unfolding body
body_begun f worker_timeout env t h = elim (Bool-cases (is_neg t.timeout)) [
  | inl e ↦ rw e (ground arith)
  | inr e ↦ rw e (select_begun env.elapsed env.pick _ (waiting-state f worker_timeout env t ∙ h))
]

happen_all-holds :
    (f : Handler) (es : List Event) (t : Task)
    → holds_signal t.stop_ch ≡ true
    → holds_signal (happen_all f es t).stop_ch ≡ true
unfolding happen_all
happen_all-holds f [] t h = h
happen_all-holds f (e ∷ es) t h = happen_all-holds f es (happen f e t) (happen-holds f e t h)

arm-stop_ch : (n : ℕ) (t : Task) → (arm n t).stop_ch ≡ t.stop_ch
unfolding arm
arm-stop_ch zero t = refl
arm-stop_ch (suc n) t = refl

waiting-holds :
    (f : Handler) (worker_timeout : ℤ) (env : Env) (t : Task)
    → holds_signal t.stop_ch ≡ true
    → holds_signal (waiting f worker_timeout env t).stop_ch ≡ true
unfolding waiting
waiting-holds f worker_timeout env t h =
    let n = effective_timeout t.timeout worker_timeout in
    happen_all-holds f env.events (arm n t) (ap holds_signal (arm-stop_ch n t) ∙ h)

select_final :
    (elapsed : ℕ) (pick : Branch) (t u : Task)
    → holds_signal t.stop_ch ≡ true
    → select elapsed pick t ≡ returns tt u
    → is_final u.state ≡ true
unfolding select take_case
select_final elapsed on_done t u h e = ground arith
select_final elapsed on_stop t u h e = ground arith
select_final elapsed on_timer t u h e = ground arith

short_final :
    (o : HandlerOut) (t u : Task) → short_task o t ≡ returns tt u → is_final u.state ≡ true
unfolding short_task
short_final (returned e rs) t u h = ground arith
short_final (panicked p) t u h = cc

-- A body that comes back leaves a task that has ended.
body_final :
    (f : Handler) (worker_timeout : ℤ) (env : Env) (t u : Task)
    → holds_signal t.stop_ch ≡ true
    → body f worker_timeout env t ≡ returns tt u
    → is_final u.state ≡ true
unfolding body
body_final f worker_timeout env t u h e = elim (Bool-cases (is_neg t.timeout)) [
  | inl n ↦ short_final (f none t.requests) t u (rw n at e)
  | inr n ↦
      select_final env.elapsed env.pick _ u (waiting-holds f worker_timeout env t h) (rw n at e)
]

-- How `process` leaves a started task and the world.
abbrev pub Ends : World → Out TaskRun (Unit {0}) → Type 0
Ends w o =
    (t : Task) × (o ≡ returns tt (record { task = t; world = w }))
    × (is_final t.state ≡ true)
    × (t.locked ≡ false)

module _ (worker_timeout : ℤ) (env : Env) (r : TaskRun) (f : Handler) (w : World) where
  Ends-of_body :
      (o : Out Task (Unit {0}))
      → body f worker_timeout env (started r.task) ≡ o
      → r.task.locked ≡ false
      → r.task.f ≡ some f
      → is_ready r.task.state ≡ true
      → does_block o ≡ false
      → ((u : Task) → o ≡ returns tt u → is_final u.state ≡ true)
      → notify (state_of o).done_ch (state_of o).wg r.world ≡ returns tt w
      → Ends w (process worker_timeout env r)
  Ends-of_body (returns tt u) e l g s b d n = (
    record u { locked = false },
    process_of_body worker_timeout env r f u w l g s e n,
    d u refl,
    refl,
  )
  Ends-of_body (panics p u) e l g s b d n =
      (_, process_of_panic worker_timeout env r f p u w l g s e n, refl, refl)
  Ends-of_body (blocks u) e l g s b d n = cc

  -- A ready and unlocked task with a handler and a stop channel that holds its signal if it is closed,
  -- whose body does not wait for good and whose signal goes through, while no panic of another goroutine
  -- ends the program, is left unlocked and in one of the states of a task that has ended, and the world
  -- is what the one signal makes of it.
  pub process-Ends :
      r.task.locked ≡ false
      → r.task.f ≡ some f
      → is_ready r.task.state ≡ true
      → holds_signal r.task.stop_ch ≡ true
      → ends_program f env.events (armed worker_timeout (started r.task)) ≡ false
      → does_block (body f worker_timeout env (started r.task)) ≡ false
      → notify r.task.done_ch r.task.wg r.world ≡ returns tt w
      → Ends w (process worker_timeout env r)
  process-Ends l g s c a b n =
      let k = body-Keeps f worker_timeout env (started r.task) in
      Ends-of_body (body f worker_timeout env (started r.task)) refl l g s b
        (λ u. body_final f worker_timeout env (started r.task) u c)
        (rw (k.same_done_ch, k.same_wg) n)

  -- A ready and unlocked task with a handler, a limit on its time, and a stop channel that holds its
  -- signal if it is closed, whose time is up and whose signal goes through, while no panic of another
  -- goroutine ends the program, is left unlocked and in one of the states of a task that has ended,
  -- and the world is what the one signal makes of it, also if its handler does not end.
  pub process-Ends_in_time :
      r.task.locked ≡ false
      → r.task.f ≡ some f
      → is_ready r.task.state ≡ true
      → holds_signal r.task.stop_ch ≡ true
      → ends_program f env.events (armed worker_timeout (started r.task)) ≡ false
      → is_neg r.task.timeout ≡ false
      → 0 < effective_timeout r.task.timeout worker_timeout
      → has_time_up env.events ≡ true
      → notify r.task.done_ch r.task.wg r.world ≡ returns tt w
      → Ends w (process worker_timeout env r)
  process-Ends_in_time l g s c a i h u n =
      process-Ends l g s c a (body_times_out f worker_timeout env (started r.task) h u) n

-- The wait group of a signal that goes through is lowered by one, and no other one changes.
pub notify-wg :
    (c : Option ℕ) (h k : ℕ) (w v : World)
    → notify c (some h) w ≡ returns tt v
    → (0 < w.wgs h) × (v.wgs k ≡ update w.wgs h (w.wgs h - 1) k)
unfolding notify
notify-wg none h k w v e = ground arith
notify-wg (some c) h k w v e = ground arith
