-- ===== src/Task/Select.antt =====
-- The wait of a long task: which events end it, and when it never ends.
use goapp.Base.{
  ℕ, ℤ, ◌<◌, Bool, true, false, ◌||◌, List, [], ◌∷◌, ◌≡◌, refl, ◌⊎◌, inl, inr, ◌≢◌, is_neg, is_some,
  arith, Bool-cases,
}
use goapp.GoRuntime.{Timer, returns, does_panic, does_block, make_chan, stopped_timer}
use goapp.Task.{Task, Handler, in_process, terminated_stop_signal, terminated_timeout}
use goapp.Task.Run.{
  Event, handler_ends, stop_called, time_up, happen, happen_all, handler_goroutine,
}
use goapp.Task.Process.{
  Branch, on_done, on_stop, on_timer, Env, select, take_case, waiting, effective_timeout, body,
}

-- Whether the timer runs or has run out.
abbrev is_timed : Timer → Bool
is_timed t = is_some t.armed || t.fired

happen-timed :
    (f : Handler) (e : Event) (t : Task)
    → is_timed t.timer ≡ true
    → is_timed (happen f e t).timer ≡ true
unfolding happen
happen-timed f handler_ends t h = ground arith
happen-timed f stop_called t h = ground arith
happen-timed f time_up t h = ground arith

abbrev pub has_time_up : List Event → Bool
has_time_up [] = false
has_time_up (handler_ends ∷ es) = has_time_up es
has_time_up (stop_called ∷ es) = has_time_up es
has_time_up (time_up ∷ es) = true

happen-fired :
    (f : Handler) (e : Event) (t : Task) → t.timer.fired ≡ true → (happen f e t).timer.fired ≡ true
unfolding happen
happen-fired f handler_ends t h = ground arith
happen-fired f stop_called t h = ground arith
happen-fired f time_up t h = ground arith

happen_all-fired :
    (f : Handler) (es : List Event) (t : Task)
    → t.timer.fired ≡ true
    → (happen_all f es t).timer.fired ≡ true
unfolding happen_all
happen_all-fired f [] t h = h
happen_all-fired f (e ∷ es) t h = happen_all-fired f es (happen f e t) (happen-fired f e t h)

happen_time_up :
    (f : Handler) (t : Task) → is_timed t.timer ≡ true → (happen f time_up t).timer.fired ≡ true
unfolding happen
happen_time_up f t h = ground arith

-- A timer that runs has run out once its time is up, whatever else happens.
happen_all-times_out :
    (f : Handler) (es : List Event) (t : Task)
    → is_timed t.timer ≡ true
    → has_time_up es ≡ true
    → (happen_all f es t).timer.fired ≡ true
unfolding happen_all
happen_all-times_out f [] t h u = cc
happen_all-times_out f (handler_ends ∷ es) t h u =
    happen_all-times_out f es (happen f handler_ends t) (happen-timed f handler_ends t h) u
happen_all-times_out f (stop_called ∷ es) t h u =
    happen_all-times_out f es (happen f stop_called t) (happen-timed f stop_called t h) u
happen_all-times_out f (time_up ∷ es) t h u =
    happen_all-fired f es (happen f time_up t) (happen_time_up f t h)

select_fired :
    (elapsed : ℕ) (pick : Branch) (t : Task)
    → t.timer.fired ≡ true
    → does_block (select elapsed pick t) ≡ false
unfolding select take_case
select_fired elapsed on_done t h = ground arith
select_fired elapsed on_stop t h = ground arith
select_fired elapsed on_timer t h = ground arith

waiting_times_out :
    (f : Handler) (worker_timeout : ℤ) (env : Env) (t : Task)
    → 0 < effective_timeout t.timeout worker_timeout
    → has_time_up env.events ≡ true
    → (waiting f worker_timeout env t).timer.fired ≡ true
unfolding waiting
waiting_times_out f worker_timeout env t h u = happen_all-times_out f env.events _ (ground arith) u

-- No handler keeps the worker beyond the limit of a task that has one.
pub body_times_out :
    (f : Handler) (worker_timeout : ℤ) (env : Env) (t : Task)
    → 0 < effective_timeout t.timeout worker_timeout
    → has_time_up env.events ≡ true
    → does_block (body f worker_timeout env t) ≡ false
unfolding body
body_times_out f worker_timeout env t h u = elim (Bool-cases (is_neg t.timeout)) [
  | inl e ↦ rw e (ground arith)
  | inr e ↦
      rw e (select_fired env.elapsed env.pick _ (waiting_times_out f worker_timeout env t h u))
]

-- Nothing that ends the wait but the handler's own end: no stop signal and no running timer.
abbrev pub IsUntimed : Task → Type 0
IsUntimed t =
    (t.timer ≡ stopped_timer) × (t.stop_ch ≡ make_chan 1) × (t.local_done_ch.closed ≡ false)

abbrev pub has_stop : List Event → Bool
has_stop [] = false
has_stop (handler_ends ∷ es) = has_stop es
has_stop (stop_called ∷ es) = true
has_stop (time_up ∷ es) = has_stop es

happen-IsUntimed :
    (f : Handler) (e : Event) (t : Task) → e ≢ stop_called → IsUntimed t → IsUntimed (happen f e t)
unfolding happen
happen-IsUntimed f handler_ends t h u = ground arith
happen-IsUntimed f stop_called t h u = absurd (h refl)
happen-IsUntimed f time_up t h u = ground arith

happen_all-IsUntimed :
    (f : Handler) (es : List Event) (t : Task)
    → has_stop es ≡ false
    → IsUntimed t
    → IsUntimed (happen_all f es t)
unfolding happen_all
happen_all-IsUntimed f [] t h u = u
happen_all-IsUntimed f (handler_ends ∷ es) t h u =
    happen_all-IsUntimed f es _ h (happen-IsUntimed f handler_ends t (λ e. cc) u)
happen_all-IsUntimed f (stop_called ∷ es) t h u = cc
happen_all-IsUntimed f (time_up ∷ es) t h u =
    happen_all-IsUntimed f es _ h (happen-IsUntimed f time_up t (λ e. cc) u)

select_untimed :
    (elapsed : ℕ) (pick : Branch) (t : Task)
    → IsUntimed t
    → does_block (select elapsed pick t) ≡ true
unfolding select take_case
select_untimed elapsed on_done t h = ground arith
select_untimed elapsed on_stop t h = ground arith
select_untimed elapsed on_timer t h = ground arith

waiting-IsUntimed :
    (f : Handler) (worker_timeout : ℤ) (env : Env) (t : Task)
    → effective_timeout t.timeout worker_timeout ≡ 0
    → has_stop env.events ≡ false
    → IsUntimed t
    → IsUntimed (waiting f worker_timeout env t)
unfolding waiting
waiting-IsUntimed f worker_timeout env t h u c = rw h (happen_all-IsUntimed f env.events t u c)

-- A long task with no timeout of its own or of its worker, whose timer never ran and that nobody
-- stops, waits for good, also when its handler has ended.
pub body_hangs_untimed :
    (f : Handler) (worker_timeout : ℤ) (env : Env) (t : Task)
    → is_neg t.timeout ≡ false
    → effective_timeout t.timeout worker_timeout ≡ 0
    → has_stop env.events ≡ false
    → IsUntimed t
    → does_block (body f worker_timeout env t) ≡ true
unfolding body
body_hangs_untimed f worker_timeout env t l h u c =
    rw l (select_untimed env.elapsed env.pick _ (waiting-IsUntimed f worker_timeout env t h u c))

-- A task that its timeout or a stop signal interrupted.
abbrev pub IsInterrupted : Task → Type 0
IsInterrupted t = (t.state ≡ terminated_timeout) ⊎ (t.state ≡ terminated_stop_signal)

select-closes :
    (elapsed : ℕ) (pick : Branch) (t u : Task)
    → t.state ≡ in_process
    → select elapsed pick t ≡ returns tt u
    → IsInterrupted u
    → (u.local_done_ch.closed ≡ true) × (u.ctx_closed ≡ true) × (is_some u.err ≡ true)
unfolding select take_case
select-closes elapsed on_done t u s e h = ground arith
select-closes elapsed on_stop t u s e h = ground arith
select-closes elapsed on_timer t u s e h = ground arith

handler_goroutine_closed :
    (f : Handler) (t : Task)
    → t.local_done_ch.closed ≡ true
    → does_panic (handler_goroutine f t) ≡ true
unfolding handler_goroutine
handler_goroutine_closed f t h = ground arith

-- If the wait of a task in process is ended by its timeout or by a stop signal, the goroutine of its
-- handler panics when the handler ends after that.
pub handler_goroutine_interrupted :
    (f : Handler) (elapsed : ℕ) (pick : Branch) (t u : Task)
    → t.state ≡ in_process
    → select elapsed pick t ≡ returns tt u
    → IsInterrupted u
    → does_panic (handler_goroutine f u) ≡ true
handler_goroutine_interrupted f elapsed pick t u s e h =
    handler_goroutine_closed f u (select-closes elapsed pick t u s e h).0
