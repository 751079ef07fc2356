-- ===== src/HttpServer.antt =====
-- pkg/common/httpserver/httpserver.go: the server around the handlers of the HTTP service. The HTTP library
-- is a parameter: how it serves, and the error of its shutdown.
pub mod Twice
pub mod Routes
use goapp.Base.{
  ℕ, ℤ, pos, Bool, true, false, Option, none, some, List, [], ◌∷◌, ◌++◌, map, String, str_eq, ltz,
  if◌then◌else◌,
}
use goapp.GoRuntime.{
  M, Out, returns, panics, blocks, defer, defer_recover, modify, Chan, make_chan, send,
}
use goapp.Errors.{
  Failure, Result, ok, failed, new_typed, with_cause_typed, incorrect_call_error,
  http_listener_create_error, http_server_shutdown_error, get_recover_error,
}
use goapp.HttpService.Config.{Handler}

-- `Config`, as far as the making of the server decides on it.
pub record ServerConfig : Type 0 where
  pub listen_spec : String
  pub max_header_bytes : ℤ
  pub use_profile : Bool
  pub use_tls : Bool

-- What the router leads to.
pub data Route (F : Type 0) : Type 0 where
  metrics : Route F
  handled : String → String → F → Route F
  profile : String → Route F

-- `Server`, with the settings that it gives to the library's server.
pub record HttpServer (F : Type 0) : Type 0 where
  pub cfg : ServerConfig
  pub ctx_closed : Bool
  pub stop_ch : Chan (Unit {0})
  pub max_header_bytes : Option ℤ
  pub routes : List (Route F)

abbrev pub profiles : List String
profiles =
    "/" ∷ "/cmdline" ∷ "/symbol" ∷ "/trace" ∷ "/profile" ∷ "/profile/goroutine"
    ∷ "/profile/threadcreate" ∷ "/profile/heap" ∷ "/profile/block" ∷ "/profile/mutex" ∷ []

abbrev pub shutdown_error : Option Failure → Option Failure
shutdown_error none = none
shutdown_error (some e) = some (with_cause_typed http_server_shutdown_error 0 e)

module _ {F : Type 0} where
  abbrev pub routed : String × Handler F → Route F
  routed (name, h) = handled h.path h.method h.handler_func

  abbrev pub routes_for : Bool → List (String × Handler F) → List (Route F)
  routes_for use_profile hs =
      metrics ∷ (map routed hs ++ (if use_profile then map profile profiles else []))

  abbrev made : ServerConfig → List (String × Handler F) → HttpServer F
  made c hs = record {
    cfg = c;
    ctx_closed = false;
    stop_ch = make_chan 1;
    max_header_bytes = if ltz (pos 0) c.max_header_bytes then some c.max_header_bytes else none;
    routes = routes_for c.use_profile hs;
  }

  abbrev pub listening :
      ServerConfig → List (String × Handler F) → Option Failure → Result (HttpServer F)
  listening c hs none = ok (made c hs)
  listening c hs (some e) = failed (with_cause_typed http_listener_create_error 0 e)

  abbrev pub with_service :
      ServerConfig → Option (List (String × Handler F)) → Option Failure → Result (HttpServer F)
  with_service c none listen_err = failed (new_typed incorrect_call_error 0)
  with_service c (some hs) listen_err = listening c hs listen_err

  -- `New`, with the handlers of the HTTP service in some order of the map, if there is a service, and
  -- the error of `net.Listen`.
  unfoldable pub new :
      Option ServerConfig
      → Option (List (String × Handler F))
      → Option Failure
      → Result (HttpServer F)
  new none service listen_err = failed (new_typed incorrect_call_error 0)
  new (some c) service listen_err =
      if str_eq c.listen_spec ""
      then failed (new_typed incorrect_call_error 0)
      else with_service c service listen_err

  recovered : M (HttpServer F) (Option Failure) → M (HttpServer F) (Option Failure)
  recovered = defer_recover (λ p. returns (some (get_recover_error p 0)))

  -- `Run`, over the two ways of the library to serve.
  unfoldable pub run :
      (serve_tls serve : M (HttpServer F) (Option Failure)) → M (HttpServer F) (Option Failure)
  unfolding recovered
  run serve_tls serve = recovered (λ s. if s.cfg.use_tls then serve_tls s else serve s)

  abbrev sent : HttpServer F → Out (Chan (Unit {0})) (Unit {0}) → Out (HttpServer F) (Unit {0})
  sent s (returns a c) = returns tt (record s { stop_ch = c })
  sent s (panics p c) = panics p s
  sent s (blocks c) = blocks s

  -- `s.stopCh <- struct{}{}`
  abbrev pub confirm : M (HttpServer F) (Unit {0})
  confirm s = sent s (send tt s.stop_ch)

  -- `Shutdown`, with the error of the library's shutdown.
  unfoldable pub shutdown : Option Failure → M (HttpServer F) (Option Failure)
  shutdown err =
      defer confirm
        (defer (modify (λ s. record s { ctx_closed = true })) (returns (shutdown_error err)))
