-- ===== src/HttpService/Registered.antt =====
-- Which handlers a service has behind `SetHttpHandler`.
use Prim.Native.String.{◌++◌}
use goapp.Base.{
  ℕ, true, false, Option, none, some, List, [], ◌∷◌, String, str_eq, eq_iff, if◌then◌else◌, find,
  find-store, store, ◌≡◌, refl, sym, subst, ap, ◌∙◌, Bool-cases, inl, inr, if_cases,
}
use goapp.Errors.{Failure}
use goapp.HttpService.Config.{
  HandlerConfig, Handler, Method, not_found, other_type, handler_method, handler_of,
  register_method, go_on, register_all, set_http_handler,
}

-- The keys of a map are different.
abbrev pub IsMap : List (String × HandlerConfig) → Type 0
IsMap [] = Unit
IsMap ((k, c) ∷ rest) = (find k rest ≡ none) × IsMap rest

found_here :
    (name k : String) (c : HandlerConfig) (rest : List (String × HandlerConfig))
    → find k ((name, c) ∷ rest) ≡ (if str_eq name k then some c else find k rest)
unfolding find
found_here name k c rest = refl

module _ {F : Type 0} where
  -- The handler of an entry: its path, with the parameters behind a slash if there are any, and its method.
  abbrev pub handler_found : HandlerConfig → Method F → Option (Handler F)
  handler_found c not_found = none
  handler_found c other_type = none
  handler_found c (handler_method f) = some (record {
    path = if str_eq c.params "" then c.full_path else c.full_path ++ ("/" ++ c.params);
    handler_func = f;
    method = c.method;
  })

  -- The configured entry of a name, if it is enabled.
  abbrev pub wanted :
      (String → Method F) → Option HandlerConfig → Option (Handler F) → Option (Handler F)
  wanted methods none old = old
  wanted methods (some c) old = if c.enabled then handler_found c (methods c.handler_name) else old

  abbrev Registers :
      (String → Method F)
      → List (String × HandlerConfig)
      → List (String × Handler F)
      → List (String × Handler F) × Option Failure
      → Type 0
  Registers methods cfgs table (result, some e) = Unit
  Registers methods cfgs table (result, none) =
      (k : String) → find k result ≡ wanted methods (find k cfgs) (find k table)

  nothing_wanted :
      (methods : String → Method F) (k : String) (table : List (String × Handler F))
      → find k table ≡ wanted methods (find k []) (find k table)
  unfolding find
  nothing_wanted methods k table = refl

  skip_disabled :
      (methods : String → Method F) (name : String) (c : HandlerConfig) (k : String)
      → (rest : List (String × HandlerConfig)) (old : Option (Handler F)) → c.enabled ≡ false
      → find name rest ≡ none
      → wanted methods (find k rest) old ≡ wanted methods (find k ((name, c) ∷ rest)) old
  skip_disabled methods name c k rest old d u = elim (Bool-cases (str_eq name k)) [
    | inl t ↦
        ap (λ x. wanted methods (find x rest) old) (sym ((eq_iff name k).0 t))
        ∙ ap (λ o. wanted methods o old) u
        ∙ sym (rw (found_here name k c rest, t, d) refl)
    | inr f ↦ sym (rw (found_here name k c rest, f) refl)
  ]

  take_enabled :
      (methods : String → Method F) (name : String) (c : HandlerConfig) (k : String) (f : F)
      → (rest : List (String × HandlerConfig)) (table : List (String × Handler F))
      → c.enabled ≡ true
      → methods c.handler_name ≡ handler_method f
      → find name rest ≡ none
      → wanted methods (find k rest) (find k (store name (handler_of c f) table))
        ≡ wanted methods (find k ((name, c) ∷ rest)) (find k table)
  take_enabled methods name c k f rest table d m u = elim (Bool-cases (str_eq name k)) [
    | inl t ↦
        let st : find k (store name (handler_of c f) table) ≡ some (handler_of c f) =
          rw (find-store name k (handler_of c f) table, t) refl in
        ap (λ x. wanted methods (find x rest) (find k (store name (handler_of c f) table)))
          (sym ((eq_iff name k).0 t))
        ∙ ap (λ o. wanted methods o (find k (store name (handler_of c f) table))) u
        ∙ st
        ∙ sym (rw (found_here name k c rest, t, d, m) refl)
    | inr n ↦
        let st : find k (store name (handler_of c f) table) ≡ find k table =
          rw (find-store name k (handler_of c f) table, n) refl in
        ap (wanted methods (find k rest)) st ∙ sym (rw (found_here name k c rest, n) refl)
  ]

  shifted :
      (methods : String → Method F) (cfgs cfgs' : List (String × HandlerConfig))
      → (table table' : List (String × Handler F))
      → (o : List (String × Handler F) × Option Failure)
      → ((k : String)
          → wanted methods (find k cfgs) (find k table)
            ≡ wanted methods (find k cfgs') (find k table'))
      → Registers methods cfgs table o
      → Registers methods cfgs' table' o
  shifted methods cfgs cfgs' table table' (r, some e) h i = tt
  shifted methods cfgs cfgs' table table' (r, none) h i = λ k. i k ∙ h k

  registered_one :
      (request_id : ℕ) (methods : String → Method F) (name : String) (c : HandlerConfig)
      → (rest : List (String × HandlerConfig)) (table : List (String × Handler F)) (m : Method F)
      → c.enabled ≡ true
      → find name rest ≡ none
      → methods c.handler_name ≡ m
      → ((t : List (String × Handler F))
          → Registers methods rest t (register_all request_id methods rest t))
      → Registers methods
          ((name, c) ∷ rest)
          table
          (go_on (register_method request_id name c m table) (register_all request_id methods rest))
  unfolding register_method
  registered_one request_id methods name c rest table not_found d u e i = tt
  registered_one request_id methods name c rest table other_type d u e i = tt
  registered_one request_id methods name c rest table (handler_method f) d u e i =
      shifted methods rest ((name, c) ∷ rest) (store name (handler_of c f) table) table _
        (λ k. take_enabled methods name c k f rest table d e u)
        (i (store name (handler_of c f) table))

  register_all-Registers :
      (request_id : ℕ) (methods : String → Method F) (cfgs : List (String × HandlerConfig))
      → (table : List (String × Handler F)) → IsMap cfgs
      → Registers methods cfgs table (register_all request_id methods cfgs table)
  unfolding register_all
  register_all-Registers request_id methods [] table u = λ k. nothing_wanted methods k table
  register_all-Registers request_id methods ((name, c) ∷ rest) table (u, us) =
      if_cases (λ o. Registers methods ((name, c) ∷ rest) table o) c.enabled _ _
        (λ d.
          registered_one request_id methods name c rest table (methods c.handler_name) d u refl
            (λ t. register_all-Registers request_id methods rest t us))
        (λ d.
          shifted methods rest ((name, c) ∷ rest) table table _
            (λ k. skip_disabled methods name c k rest (find k table) d u)
            (register_all-Registers request_id methods rest table us))

  -- Behind a `SetHttpHandler` that gave no error, the service has for every enabled entry of the
  -- configuration, whose keys are different, the method that the entry names, under the entry's method
  -- and its full path, followed by a slash and the parameters if there are any, in place of what had this key before, and for all other keys what it had before.
  pub set_http_handler-wanted :
      (request_id : ℕ) (methods : String → Method F) (cfgs : List (String × HandlerConfig))
      → (table result : List (String × Handler F)) → IsMap cfgs
      → set_http_handler request_id (some methods) cfgs table ≡ (result, none)
      → (k : String) → find k result ≡ wanted methods (find k cfgs) (find k table)
  unfolding set_http_handler
  set_http_handler-wanted request_id methods cfgs table result u e =
      subst (Registers methods cfgs table) e
        (register_all-Registers request_id methods cfgs table u)
