-- ===== src/TaskPool/Recycle.antt =====
-- A task that ended well is clean again, so that it may go back into the cache.
use goapp.Base.{
  ℕ, zero, suc, ℤ, ◌+◌, ◌≤◌, Bool, true, false, ◌&&◌, none, List, [], ◌∷◌, ◌≡◌, is_neg, is_some,
  arith, Bool-cases, inl, inr, length, length-append,
}
use goapp.GoRuntime.{returns, make_chan}
use goapp.Task.{Task, Handler, HandlerOut, returned, panicked, in_process, done_success}
use goapp.Task.Run.{Event, handler_ends, stop_called, time_up, happen, happen_all}
use goapp.Task.Process.{
  Branch, on_done, on_stop, on_timer, Env, arm, select, take_case, waiting, body, short_task,
}
use goapp.TaskPool.Clean.{IsClean}

-- How often the handler's goroutine ends, which it does once at most; and no call of `Stop`.
abbrev pub ends : List Event → ℕ
ends [] = 0
ends (handler_ends ∷ es) = suc (ends es)
ends (stop_called ∷ es) = ends es
ends (time_up ∷ es) = ends es

abbrev pub no_stop : List Event → Bool
no_stop [] = true
no_stop (handler_ends ∷ es) = no_stop es
no_stop (stop_called ∷ es) = false
no_stop (time_up ∷ es) = no_stop es

-- A task that waits, with `n` ends of its handler at most in its channel.
record IsWaiting (n : ℕ) (t : Task) : Type 0 where
  stop_ch_empty : t.stop_ch ≡ make_chan 1
  done_cap : t.local_done_ch.cap ≡ 1
  done_open : t.local_done_ch.closed ≡ false
  done_bound : length t.local_done_ch.buf ≤ n
  timer_sound : (is_some t.timer.armed && t.timer.fired) ≡ false
  ctx_open : t.ctx_closed ≡ false
  same_state : t.state ≡ in_process

happen_ends-IsWaiting :
    (f : Handler) (n : ℕ) (t : Task) → IsWaiting n t → IsWaiting (suc n) (happen f handler_ends t)
unfolding happen
happen_ends-IsWaiting f n t h = ground (arith, length-append t.local_done_ch.buf (tt ∷ []))

happen_time_up-IsWaiting :
    (f : Handler) (n : ℕ) (t : Task) → IsWaiting n t → IsWaiting n (happen f time_up t)
unfolding happen
happen_time_up-IsWaiting f n t h = ground arith

happen_all-IsWaiting :
    (f : Handler) (es : List Event) (n : ℕ) (t : Task)
    → no_stop es ≡ true
    → n + ends es ≤ 1
    → IsWaiting n t
    → IsWaiting 1 (happen_all f es t)
unfolding happen_all
happen_all-IsWaiting f [] n t h b w = ground arith
happen_all-IsWaiting f (handler_ends ∷ es) n t h b w =
    happen_all-IsWaiting f es (suc n) _ h (omega arith) (happen_ends-IsWaiting f n t w)
happen_all-IsWaiting f (stop_called ∷ es) n t h b w = cc
happen_all-IsWaiting f (time_up ∷ es) n t h b w =
    happen_all-IsWaiting f es n _ h b (happen_time_up-IsWaiting f n t w)

-- A task that ended well, unlocked.
abbrev IsReusable : Task → Type 0
IsReusable u = IsClean (record u { locked = false })

select-IsClean :
    (elapsed : ℕ) (pick : Branch) (t u : Task)
    → IsWaiting 1 t
    → select elapsed pick t ≡ returns tt u
    → u.state ≡ done_success
    → IsReusable u
unfolding select take_case
select-IsClean elapsed on_done t u w e s = ground arith
select-IsClean elapsed on_stop t u w e s = ground arith
select-IsClean elapsed on_timer t u w e s = ground arith

arm-IsWaiting :
    (n : ℕ) (t : Task)
    → IsClean (record t { locked = false })
    → t.state ≡ in_process
    → IsWaiting 0 (arm n t)
unfolding arm
arm-IsWaiting zero t c s = ground arith
arm-IsWaiting (suc n) t c s = ground arith

waiting-IsWaiting :
    (f : Handler) (worker_timeout : ℤ) (env : Env) (t : Task)
    → IsReusable t
    → t.state ≡ in_process
    → no_stop env.events ≡ true
    → ends env.events ≤ 1
    → IsWaiting 1 (waiting f worker_timeout env t)
unfolding waiting
waiting-IsWaiting f worker_timeout env t c s h b =
    happen_all-IsWaiting f env.events 0 _ h (omega arith) (arm-IsWaiting _ t c s)

short_task-IsClean :
    (o : HandlerOut) (t u : Task) → IsReusable t → short_task o t ≡ returns tt u → IsReusable u
unfolding short_task
short_task-IsClean (returned x rs) t u c e = ground arith
short_task-IsClean (panicked p) t u c e = cc

-- If the body of a clean task in process ends well, and nobody stopped it and its handler ended once at
-- most, the task is clean again.
pub body-IsClean :
    (f : Handler) (worker_timeout : ℤ) (env : Env) (t u : Task)
    → IsClean (record t { locked = false })
    → t.state ≡ in_process
    → no_stop env.events ≡ true
    → ends env.events ≤ 1
    → body f worker_timeout env t ≡ returns tt u
    → u.state ≡ done_success
    → IsClean (record u { locked = false })
unfolding body
body-IsClean f worker_timeout env t u c s h b e d = elim (Bool-cases (is_neg t.timeout)) [
  | inl n ↦ short_task-IsClean (f none t.requests) t u c (rw n at e)
  | inr n ↦
      select-IsClean env.elapsed env.pick (waiting f worker_timeout env t) u
        (waiting-IsWaiting f worker_timeout env t c s h b) (rw n at e) d
]
