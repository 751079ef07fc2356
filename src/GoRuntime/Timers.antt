-- ===== src/GoRuntime/Timers.antt =====
-- `time.Timer` of the Go version that go.mod names (before 1.23): `Stop` and `Reset` leave the
-- channel alone, and a value that was sent stays there until it is received.
use goapp.Base.{ℕ, Bool, true, false, Option, none, some, is_some}

pub record Timer : Type 0 where
  pub armed : Option ℕ  -- running, with this duration
  pub fired : Bool  -- `C` holds a value

-- `t.Stop()`: whether the call stopped a running timer.
abbrev pub timer_stop : Timer → Timer × Bool
timer_stop t = (record t { armed = none }, is_some t.armed)

-- `t.Reset(d)`
abbrev pub timer_reset : ℕ → Timer → Timer
timer_reset d t = record t { armed = some d }

-- The time is up: the runtime sends to `C` and the timer no longer runs.
abbrev expire_armed : Option ℕ → Timer → Timer
expire_armed none t = t
expire_armed (some d) t = record t { armed = none; fired = true }

abbrev pub timer_expire : Timer → Timer
timer_expire t = expire_armed t.armed t

-- A timer that was made and stopped, and never ran out.
abbrev pub stopped_timer : Timer
stopped_timer = record { armed = none; fired = false }
