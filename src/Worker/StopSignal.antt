-- ===== src/Worker/StopSignal.antt =====
-- A stop signal ends a worker at its next look at the channel; a second one panics.
use goapp.Base.{true, false, some, [], ◌∷◌, ◌≡◌, arith}
use goapp.GoRuntime.{Chan, returns, make_chan, does_panic}
use goapp.Worker.{
  WorkerRun, PoolShutdownMode, at_check, leaving, terminating_stop_signal, is_stoppable, stop,
  signal_stop,
}
use goapp.Worker.Steps.{Choice, step, check}

abbrev pub signalled : Chan (Unit {0})
signalled = record { cap = 1; buf = tt ∷ []; closed = true }

-- The first `Stop` of a started worker leaves the signal in its channel.
pub stop_signals :
    (r : WorkerRun) (mode : PoolShutdownMode)
    → r.worker.stop_ch ≡ some (make_chan 1)
    → is_stoppable r.worker.state ≡ true
    → signal_stop r.worker.stop_ch r
      ≡ returns tt (record r { worker = record r.worker { stop_ch = some signalled } })
unfolding signal_stop
stop_signals r mode c s = ground arith

-- A worker that a signal waits for leaves its loop from the first `select`, if the context of the
-- pool is open, and takes no task any more.
pub check_signalled :
    (ch : Choice) (r : WorkerRun)
    → r.worker.place ≡ at_check
    → r.worker.stop_ch ≡ some signalled
    → r.shared.ctx_done ≡ false
    → step ch r
      ≡ returns tt (record r {
        worker = record r.worker {
          state = terminating_stop_signal;
          place = leaving;
          stop_ch = some (record { cap = 1; buf = []; closed = true });
        };
      })
unfolding step check
check_signalled ch r p c d = ground arith

-- A `Stop` of a worker in a stoppable state that has not received an earlier stop signal panics in the
-- caller.
pub stop_twice :
    (r : WorkerRun) (mode : PoolShutdownMode)
    → r.worker.stop_ch ≡ some signalled
    → is_stoppable r.worker.state ≡ true
    → does_panic (stop mode r) ≡ true
unfolding stop signal_stop
stop_twice r mode c s = ground arith
