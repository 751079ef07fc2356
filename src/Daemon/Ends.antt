-- ===== src/Daemon/Ends.antt =====
-- When the daemon of pkg/app/daemon/daemon.go ends, and what it leaves behind.
use goapp.Base.{Bool, true, false, Option, none, some, List, [], ◌∷◌, All, ◌≡◌, refl, ap}
use goapp.GoRuntime.{
  M, Out, returns, blocks, bind, panics, bind-blocked, after_out-blocked, does_block,
}
use goapp.Errors.{Failure}
use goapp.Pool.{pool_new, System}
use goapp.Pool.Shutdown.{empties_queue}
use goapp.Pool.ShutdownLaws.{stop_new_hangs}
use goapp.PoolService
use goapp.PoolService.{shutdown_service, closed_service, mode_of}
use goapp.HttpLog
use goapp.HttpServer.Twice.{shut}
use goapp.Daemon.{
  Event, signal, from_http, from_pool, Turn, Meets, Daemon, run, react, shutdown, met, with_pool,
}

-- How an event ends the daemon, if it does: whether the tasks are interrupted, and the error of `Run`.
abbrev pub verdict : Event → Option (Bool × Option Failure)
verdict signal = some (false, none)
verdict (from_http none) = none
verdict (from_http (some e)) = some (true, some e)
verdict (from_pool none) = none
verdict (from_pool (some e)) = some (true, some e)

abbrev pub IsIdle : Turn → Type 0
IsIdle t = verdict t.event ≡ none

-- Everything is shut down, and the pool is as its shutdown left it.
pub record IsShut {F : Type 0} (v : PoolService.Service) (d : Daemon F) : Type 0 where
  pub pool : d.wp_service ≡ v
  pub root : d.ctx_closed ≡ true
  pub service : d.http_service_closed ≡ true
  pub server : d.http_server.ctx_closed ≡ true
  pub confirmed : d.http_server.stop_ch.buf ≡ tt ∷ []

empties_queue-mode_of : (hard : Bool) → empties_queue (mode_of hard) ≡ true
empties_queue-mode_of true = refl
empties_queue-mode_of false = refl

module _ {F : Type 0} (m : Meets) where
  shut_with : PoolService.Service → Daemon F → Daemon F
  shut_with v d = record d {
    ctx_closed = true;
    wp_service = v;
    http_service_closed = true;
    http_server = shut d.http_server;
  }

  ending : Daemon F → Option (Bool × Option Failure) → Out (Daemon F) (Option Failure)
  ending d none = blocks d
  ending d (some (hard, err)) = bind (shutdown hard m d) (λ _. returns err)

  react-verdict :
      (e : Event) (hard : Bool) (err : Option Failure) (later : M (Daemon F) (Option Failure))
      (d : Daemon F)
      → verdict e ≡ some (hard, err)
      → react e m later d ≡ bind (shutdown hard m d) (λ _. returns err)
  unfolding react ending
  react-verdict signal hard err later d h = ap (ending d) h
  react-verdict (from_http none) hard err later d h = cc
  react-verdict (from_http (some e)) hard err later d h = ap (ending d) h
  react-verdict (from_pool none) hard err later d h = cc
  react-verdict (from_pool (some e)) hard err later d h = ap (ending d) h

  react-idle :
      (e : Event) (later : M (Daemon F) (Option Failure)) (d : Daemon F)
      → verdict e ≡ none
      → react e m later d ≡ later d
  unfolding react
  react-idle signal later d h = cc
  react-idle (from_http none) later d h = refl
  react-idle (from_http (some e)) later d h = cc
  react-idle (from_pool none) later d h = refl
  react-idle (from_pool (some e)) later d h = cc

  -- Where no round brings a signal or an error, `Run` does not end.
  pub run_waits :
      (idle : List Turn) (d : Daemon F) → All IsIdle idle → does_block (run m idle d) ≡ true
  unfolding run
  run_waits [] d is = refl
  run_waits (i ∷ is) d (g, gs) =
      rw (react-idle i.event (run m is) (met i d) g) (run_waits is (met i d) gs)

  with_pool-blocked :
      (d : Daemon F) (v : PoolService.Service) (o : Out System (Option Failure))
      → does_block o ≡ true
      → does_block (with_pool d (closed_service v o)) ≡ true
  unfolding closed_service
  with_pool-blocked d v (returns e s) h = cc
  with_pool-blocked d v (panics p s) h = cc
  with_pool-blocked d v (blocks s) h = refl

  -- `Shutdown` of a daemon whose pool did not begin to run waits for good.
  shutdown_hangs :
      (hard : Bool) (d : Daemon F)
      → d.wp_service.system.pool.state ≡ pool_new
      → d.wp_service.system.pool.made ≡ false
      → d.wp_service.system.pool.is_background ≡ false
      → does_block (shutdown hard m d) ≡ true
  unfolding shutdown shutdown_service
  shutdown_hangs hard d n k b = after_out-blocked _ _ (
      bind-blocked _ _ (
        bind-blocked _ _ (
          bind-blocked _ _ (
            with_pool-blocked d d.wp_service _ (
              stop_new_hangs (mode_of hard) _ m.polls d.wp_service.system n k b
                (empties_queue-mode_of hard))))))

  -- If the first thing that the daemon gets is a signal or an error, such as the one of a server that
  -- cannot read its certificate, and the pool did not begin to run by then, `Run` waits for good.
  pub run_hangs :
      (t : Turn) (rest : List Turn) (d : Daemon F) (hard : Bool) (err : Option Failure)
      → verdict t.event ≡ some (hard, err)
      → t.wp_service.system.pool.state ≡ pool_new
      → t.wp_service.system.pool.made ≡ false
      → t.wp_service.system.pool.is_background ≡ false
      → does_block (run m (t ∷ rest) d) ≡ true
  unfolding run
  run_hangs t rest d hard err h n k b =
      rw (react-verdict t.event hard err (run m rest) (met t d) h)
        (bind-blocked (shutdown hard m (met t d)) _ (shutdown_hangs hard (met t d) n k b))
