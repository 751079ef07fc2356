-- ===== src/Task.antt =====
-- pkg/common/workerpool/task.go: the task, its states and its small operations.
-- `Task.Process` is the method `process`, `Task.Run` what other goroutines do to a task that runs.
pub mod World
pub mod Run
pub mod Process
pub mod Select
pub mod Outcomes
pub mod Signals
pub mod Quiet
use goapp.Base.{ℕ, ℤ, String, Bool, true, false, Option, none, some, List, [], ◌∷◌}
use goapp.GoRuntime.{Chan, Timer, Panic}
use goapp.Errors.{Failure}

-- `TaskState`
pub data TaskState : Type 0 where
  task_new pool_get pool_put ready in_process done_success recover_err : TaskState
  terminated_stop_signal terminated_ctx_closed terminated_timeout : TaskState

abbrev pub is_ready : TaskState → Bool
is_ready ready = true
is_ready _ = false

-- A request or a response of type `interface{}`: an `uint64`, or a value of any other type.
pub data Value : Type 0 where
  uint64 : ℕ → Value
  other : ℕ → Value

-- How the handler function ends: `(error, []interface{})`, or a panic.
pub data HandlerOut : Type 0 where
  returned : Option Failure → List Value → HandlerOut
  panicked : Panic → HandlerOut

-- The handler function. Its second context is nil for a short task; else it is read as whether that
-- context is closed when the handler ends.
abbrev pub Handler : Type 0
Handler = Option Bool → List Value → HandlerOut

-- `Task`. Contexts, channels and wait groups that others own are numbers (see `Task.World`). Only
-- `newTaskPool` makes tasks, so `stopCh`, `localDoneCh` and `cancel` are never nil.
pub record Task : Type 0 where
  pub parent_ctx : Option ℕ
  pub ctx_closed : Bool  -- `cancel` was called
  pub external_id : ℕ
  pub done_ch : Option ℕ
  pub wg : Option ℕ
  pub stop_ch : Chan (Unit {0})
  pub local_done_ch : Chan (Unit {0})
  pub id : ℕ
  pub state : TaskState
  pub prev_state : TaskState
  pub name : String
  pub timeout : ℤ
  pub timer : Timer
  pub requests : List Value
  pub responses : List Value
  pub err : Option Failure
  pub duration : ℕ
  pub f : Option Handler
  pub locked : Bool  -- `mx` is held for writing

-- `setStateUnsafe`
abbrev pub set_state_unsafe : TaskState → Task → Task
set_state_unsafe s t = record t { prev_state = t.state; state = s }

-- `SetDoneChUnsafe` and `SetWgUnsafe`
abbrev pub set_done_ch_unsafe : Option ℕ → Task → Task
set_done_ch_unsafe c t = record t { done_ch = c }

abbrev pub set_wg_unsafe : Option ℕ → Task → Task
set_wg_unsafe w t = record t { wg = w }

-- `SetError`
abbrev pub set_error : Option Failure → Task → Task
set_error e t = record t { err = e }

-- `Stop` acts in these states only.
abbrev pub is_stoppable : TaskState → Bool
is_stoppable task_new = true
is_stoppable in_process = true
is_stoppable done_success = true
is_stoppable _ = false
