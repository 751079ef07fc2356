-- ===== src/Task/Run.antt =====
-- pkg/common/workerpool/task.go: a task among goroutines. The handler of a long task runs in a
-- goroutine of its own, `Stop` is called by the pool's, and the runtime's timer may run out.
use goapp.Base.{Bool, false, ◌||◌, some, List, [], ◌∷◌, if◌then◌else◌}
use goapp.GoRuntime.{
  Chan, M, Out, returns, panics, blocks, bind, send, close, state_of, timer_expire, does_panic,
}
use goapp.Errors.{get_recover_error}
use goapp.Task.{Task, Handler, HandlerOut, returned, panicked, is_stoppable}

abbrev store_stop : Task → Out (Chan (Unit {0})) (Unit {0}) → Out Task (Unit {0})
store_stop t (returns a c) = returns tt (record t { stop_ch = c })
store_stop t (panics p c) = panics p (record t { stop_ch = c })
store_stop t (blocks c) = blocks (record t { stop_ch = c })

-- `Stop`: send to `stopCh` and close it, in some of the states.
unfoldable pub stop : M Task (Unit {0})
stop t =
    if is_stoppable t.state
    then store_stop t (bind (send tt t.stop_ch) (λ _. close))
    else returns tt t

abbrev store_done : Task → Out (Chan (Unit {0})) (Unit {0}) → Out Task (Unit {0})
store_done t (returns a c) = returns tt (record t { local_done_ch = c })
store_done t (panics p c) = panics p (record t { local_done_ch = c })
store_done t (blocks c) = blocks (record t { local_done_ch = c })

-- What the handler's end writes to the task: its results, or the recovered panic.
abbrev pub keep_results : HandlerOut → Task → Task
keep_results (returned e rs) t = record t { err = e; responses = rs }
keep_results (panicked p) t = record t { err = some (get_recover_error p t.external_id) }

-- The goroutine of a long task, from the call of the handler on. The send stands in the deferred
-- function behind `recover`, so a panic of that send is caught by nobody: `panics` ends the program.
unfoldable pub handler_goroutine : Handler → M Task (Unit {0})
handler_goroutine f t =
    let u = keep_results (f (some t.ctx_closed) t.requests) t in
    store_done u (send tt u.local_done_ch)

-- What may happen while `process` waits.
pub data Event : Type 0 where
  handler_ends stop_called time_up : Event

-- What the goroutine of an event does to the task. Nothing recovers a panic of it: it ends the program.
unfoldable pub event_out : Handler → Event → M Task (Unit {0})
unfolding handler_goroutine stop
event_out f handler_ends t = handler_goroutine f t
event_out f stop_called t = stop t
event_out f time_up t = returns tt (record t { timer = timer_expire t.timer })

-- The task behind an event, in a program that goes on.
unfoldable pub happen : Handler → Event → Task → Task
unfolding handler_goroutine stop
happen f handler_ends t = state_of (handler_goroutine f t)
happen f stop_called t = state_of (stop t)
happen f time_up t = record t { timer = timer_expire t.timer }

unfoldable pub happen_all : Handler → List Event → Task → Task
happen_all f [] t = t
happen_all f (e ∷ es) t = happen_all f es (happen f e t)

-- Whether one of the events ends the program: a handler that ends behind its task's interruption sends
-- on a closed channel, and so does a second `Stop`.
unfoldable pub ends_program : Handler → List Event → Task → Bool
ends_program f [] t = false
ends_program f (e ∷ es) t =
    let rest = ends_program f es (happen f e t) in does_panic (event_out f e t) || rest
