-- ===== src/HttpServer/Twice.antt =====
-- How often `Shutdown` of pkg/common/httpserver/httpserver.go comes back.
use goapp.Base.{true, false, Option, [], ◌∷◌, ◌≡◌, refl}
use goapp.GoRuntime.{Chan, returns, does_return, does_block, state_of, make_chan}
use goapp.Errors.{Failure}
use goapp.HttpServer.{HttpServer, shutdown, shutdown_error}

-- The channel of a server that is shut down.
abbrev pub confirmed : Chan (Unit {0})
confirmed = record { cap = 1; buf = tt ∷ []; closed = false }

module _ {F : Type 0} where
  abbrev pub shut : HttpServer F → HttpServer F
  shut s = record s { ctx_closed = true; stop_ch = confirmed }

  pub shutdown-shut :
      (err : Option Failure) (s : HttpServer F)
      → s.stop_ch ≡ make_chan 1
      → shutdown err s ≡ returns (shutdown_error err) (shut s)
  unfolding shutdown
  shutdown-shut err s h = rw h

  -- `Shutdown` of a new server comes back and closes its context, and a second `Shutdown` waits for good,
  -- since nothing reads from `stopCh`.
  pub shutdown_twice :
      (e1 e2 : Option Failure) (s : HttpServer F)
      → s.stop_ch ≡ make_chan 1
      → (does_return (shutdown e1 s) ≡ true)
        × (does_block (shutdown e2 (state_of (shutdown e1 s))) ≡ true)
  unfolding shutdown
  shutdown_twice e1 e2 s h = rw (shutdown-shut e1 s h) (refl, refl)
