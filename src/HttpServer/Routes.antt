-- ===== src/HttpServer/Routes.antt =====
-- The routes of pkg/common/httpserver/httpserver.go.
use goapp.Base.{Bool, true, false, List, [], ◌∷◌, ◌++◌, map, String, ◌≡◌, refl, ap, if◌then◌else◌}
use goapp.HttpService.Config.{Handler}
use goapp.HttpServer.{Route, metrics, handled, profile, profiles, routed, routes_for}

module _ {F : Type 0} where
  -- The registrations of handlers among the routes, in their order: path, method and function.
  abbrev pub registrations : List (Route F) → List (String × String × F)
  registrations [] = []
  registrations (metrics ∷ rs) = registrations rs
  registrations (handled path method f ∷ rs) = (path, method, f) ∷ registrations rs
  registrations (profile path ∷ rs) = registrations rs

  abbrev pub entry_of : String × Handler F → String × String × F
  entry_of (name, h) = (h.path, h.method, h.handler_func)

  -- The routes register each handler of the table once, in the order of the table, and no other one.
  abbrev pub RegistersAll : List (String × Handler F) → List (Route F) → Type 0
  RegistersAll hs rs = registrations rs ≡ map entry_of hs

  no_registrations : (ps : List String) → registrations (map profile ps) ≡ []
  no_registrations [] = refl
  no_registrations (p ∷ ps) = no_registrations ps

  map-RegistersAll :
      (hs : List (String × Handler F)) (rest : List (Route F))
      → registrations rest ≡ []
      → RegistersAll hs (map routed hs ++ rest)
  map-RegistersAll [] rest e = e
  map-RegistersAll ((name, h) ∷ hs) rest e =
      ap (λ l. (h.path, h.method, h.handler_func) ∷ l) (map-RegistersAll hs rest e)

  profile_routes : (b : Bool) → registrations (if b then map profile profiles else []) ≡ []
  profile_routes true = no_registrations profiles
  profile_routes false = refl

  pub routes_for-RegistersAll :
      (use_profile : Bool) (hs : List (String × Handler F))
      → RegistersAll hs (routes_for use_profile hs)
  routes_for-RegistersAll use_profile hs = map-RegistersAll hs _ (profile_routes use_profile)
