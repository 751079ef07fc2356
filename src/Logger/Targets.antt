-- ===== src/Logger/Targets.antt =====
-- Where a message goes.
use Prim.Native.String.{◌++◌ as str_append}
use goapp.Base.{
  ℕ, ◌≤◌, Bool, true, false, ◌&&◌, Option, none, some, List, [], ◌∷◌, String, str_eq, leb,
  if◌then◌else◌, ◌≡◌, refl, sym, subst, ◌∙◌, arith, if_cases,
}
use goapp.Errors.{Failure, Result, ok, failed}
use goapp.Logger.{
  CoreConfig, Target, file, address, stderr, stdout, Core, Global, is_enabled, targets_of, or_text,
  new_file_logger, core_up_to, core_from, new_zap_core, rolling, opened_file, opened_address,
  open_target, with_core, with_target, build, check_logger,
}

-- The target that a core's configuration names.
abbrev pub name_or_empty : Option String → String
name_or_empty none = ""
name_or_empty (some n) = n

abbrev pub target_of : String → CoreConfig → Target
target_of prefix c =
    if str_eq c.log_to "lumberjack"
    then file (or_text "./log/default.log" (str_append prefix (name_or_empty c.file_config)))
    else if str_eq c.log_to "file"
    then file (str_append prefix c.logging_path)
    else if str_eq c.log_to "stderr"
    then stderr
    else if str_eq c.log_to "stdout"
    then stdout
    else if str_eq c.log_to "url"
    then address c.logging_path
    else stdout

-- `Level()` says that a logger is open from its lowest level on that some core takes.
abbrev pub IsLevelOf : (List Core → ℕ) → Type 0
IsLevelOf level_of =
    (cs : List Core) (lvl : ℕ) (t : Target) (ts : List Target)
    → targets_of lvl cs ≡ t ∷ ts
    → level_of cs ≤ lvl

module _ (parse_level : String → Result ℕ) (open_err : String → Option Failure)
    (level_of : List Core → ℕ) where
  -- Whether a level is in the range of a configuration.
  abbrev pub is_between : ℕ → Result ℕ → Result ℕ → Bool
  is_between lvl (ok lo) (ok hi) = leb lo lvl && leb lvl hi
  is_between lvl _ _ = false

  abbrev pub takes : ℕ → CoreConfig → Bool
  takes lvl c =
      c.enable
      && is_between lvl (parse_level (or_text "DEBUG" c.min_level))
          (parse_level (or_text "FATAL" c.max_level))

  -- The targets that the configuration asks for at a level.
  abbrev pub wanted : String → ℕ → List CoreConfig → List Target
  wanted prefix lvl [] = []
  wanted prefix lvl (c ∷ cs) =
      let rest = wanted prefix lvl cs in if takes lvl c then target_of prefix c ∷ rest else rest

  abbrev IsTarget : Target → Result Target × Global → Type 0
  IsTarget t (failed e, g) = Unit
  IsTarget t (ok u, g) = u ≡ t

  either_target :
      (b : Bool) (x y : Result Target × Global) (t u : Target)
      → IsTarget t x
      → IsTarget u y
      → IsTarget (if b then t else u) (if b then x else y)
  either_target true x y t u h i = h
  either_target false x y t u h i = i

  rolling-IsTarget :
      (prefix : String) (f : Option String) (g : Global)
      → IsTarget
          (file (or_text "./log/default.log" (str_append prefix (name_or_empty f))))
          (rolling parse_level open_err level_of prefix f g)
  unfolding rolling new_file_logger
  rolling-IsTarget prefix none g = tt
  rolling-IsTarget prefix (some n) g = refl

  opened_file-IsTarget :
      (name : String) (e : Option Failure) (g : Global)
      → IsTarget (file name) (opened_file parse_level open_err level_of name e g)
  unfolding opened_file
  opened_file-IsTarget name none g = refl
  opened_file-IsTarget name (some e) g = tt

  opened_address-IsTarget :
      (name : String) (e : Option Failure) (g : Global)
      → IsTarget (address name) (opened_address parse_level open_err level_of name e g)
  unfolding opened_address
  opened_address-IsTarget name none g = refl
  opened_address-IsTarget name (some e) g = tt

  open_target-IsTarget :
      (prefix : String) (c : CoreConfig) (g : Global)
      → IsTarget (target_of prefix c) (open_target parse_level open_err level_of prefix c g)
  unfolding open_target
  open_target-IsTarget prefix c g =
      either_target (str_eq c.log_to "lumberjack") _ _ _ _ (rolling-IsTarget prefix c.file_config g)
        (either_target (str_eq c.log_to "file") _ _ _ _
          (opened_file-IsTarget (str_append prefix c.logging_path) _ g)
          (either_target (str_eq c.log_to "stderr") (ok stderr, g) _ _ _ refl
            (either_target (str_eq c.log_to "stdout") (ok stdout, g) _ _ _ refl
              (either_target (str_eq c.log_to "url") _ (ok stdout, g) _ _
                (opened_address-IsTarget c.logging_path _ g) refl))))

  -- A core that was made takes the levels of its configuration.
  abbrev IsCore : CoreConfig → Target → Result Core → Type 0
  IsCore c t (failed e) = Unit
  IsCore c t (ok k) =
      (k.target ≡ t)
      × ((lvl : ℕ)
          → is_enabled lvl k
            ≡ is_between lvl (parse_level (or_text "DEBUG" c.min_level))
                (parse_level (or_text "FATAL" c.max_level)))

  core_up_to-IsCore :
      (c : CoreConfig) (t : Target) (lo : ℕ) (r s : Result ℕ)
      → parse_level (or_text "DEBUG" c.min_level) ≡ ok lo
      → parse_level (or_text "FATAL" c.max_level) ≡ r
      → IsCore c t (core_up_to parse_level open_err level_of t lo r)
  unfolding core_up_to
  core_up_to-IsCore c t lo (failed e) s p q = tt
  core_up_to-IsCore c t lo (ok hi) s p q = (refl, λ lvl. rw (p, q) refl)

  core_from-IsCore :
      (c : CoreConfig) (t : Target) (r : Result ℕ)
      → parse_level (or_text "DEBUG" c.min_level) ≡ r
      → IsCore c t (core_from parse_level open_err level_of c t r)
  unfolding core_from
  core_from-IsCore c t (failed e) p = tt
  core_from-IsCore c t (ok lo) p =
      core_up_to-IsCore c t lo (parse_level (or_text "FATAL" c.max_level)) (ok lo) p refl

  new_zap_core-IsCore :
      (c : CoreConfig) (t : Target) → IsCore c t (new_zap_core parse_level open_err level_of c t)
  unfolding new_zap_core
  new_zap_core-IsCore c t = core_from-IsCore c t _ refl

  -- The cores that were made for a list of configurations.
  abbrev pub AreCores : String → List CoreConfig → Result (List Core) × Global → Type 0
  AreCores prefix cs (failed e, g) = Unit
  AreCores prefix cs (ok ks, g) = (lvl : ℕ) → targets_of lvl ks ≡ wanted prefix lvl cs

  with_core-AreCores :
      (prefix : String) (c : CoreConfig) (cs : List CoreConfig) (r : Result Core)
      → (later : Result (List Core) × Global) (g : Global) → c.enable ≡ true
      → IsCore c (target_of prefix c) r
      → AreCores prefix cs later
      → AreCores prefix (c ∷ cs) (with_core parse_level open_err level_of r later g)
  unfolding with_core
  with_core-AreCores prefix c cs (failed e) later g d h i = tt
  with_core-AreCores prefix c cs (ok k) (failed e, m) g d h i = tt
  with_core-AreCores prefix c cs (ok k) (ok ks, m) g d h i = λ lvl. rw (h.0, h.1 lvl, i lvl, d) refl

  with_target-AreCores :
      (prefix : String) (c : CoreConfig) (cs : List CoreConfig) (o : Result Target × Global)
      → (later : Global → Result (List Core) × Global) → c.enable ≡ true
      → IsTarget (target_of prefix c) o
      → ((g : Global) → AreCores prefix cs (later g))
      → AreCores prefix (c ∷ cs) (with_target parse_level open_err level_of c o later)
  unfolding with_target
  with_target-AreCores prefix c cs (failed e, g) later d h i = tt
  with_target-AreCores prefix c cs (ok t, g) later d h i =
      with_core-AreCores prefix c cs (new_zap_core parse_level open_err level_of c t) (later g) g d
        (subst (λ u. IsCore c u (new_zap_core parse_level open_err level_of c t)) h
          (new_zap_core-IsCore c t))
        (i g)

  disabled-AreCores :
      (prefix : String) (c : CoreConfig) (cs : List CoreConfig) (o : Result (List Core) × Global)
      → c.enable ≡ false
      → AreCores prefix cs o
      → AreCores prefix (c ∷ cs) o
  disabled-AreCores prefix c cs (failed e, g) d h = tt
  disabled-AreCores prefix c cs (ok ks, g) d h = λ lvl. rw d (h lvl)

  pub build-AreCores :
      (prefix : String) (cs : List CoreConfig) (g : Global)
      → AreCores prefix cs (build parse_level open_err level_of prefix cs g)
  unfolding build
  build-AreCores prefix [] g = λ lvl. refl
  build-AreCores prefix (c ∷ cs) g =
      if_cases (AreCores prefix (c ∷ cs)) c.enable _ _
        (λ d.
          with_target-AreCores prefix c cs (open_target parse_level open_err level_of prefix c g)
            (build parse_level open_err level_of prefix cs) d (open_target-IsTarget prefix c g)
            (build-AreCores prefix cs))
        (λ d.
          disabled-AreCores prefix c cs (build parse_level open_err level_of prefix cs g) d
            (build-AreCores prefix cs g))

  nothing : (b : Bool) (ts : List Target) → (if b then ts else ts) ≡ ts
  nothing true ts = refl
  nothing false ts = refl

  and_one : (b : Bool) (x y : List Target) → (if b && true then x else y) ≡ (if b then x else y)
  and_one true x y = refl
  and_one false x y = refl

  -- Where a message of a level goes, if the library reports the lowest level of a logger.
  pub check_targets :
      (lvl global : ℕ) (ks : List Core) (ts : List Target)
      → IsLevelOf level_of
      → targets_of lvl ks ≡ ts
      → (if check_logger parse_level open_err level_of lvl global (some ks) then ts else [])
        ≡ (if leb global lvl then ts else [])
  unfolding check_logger
  check_targets lvl global ks [] law e =
      nothing (check_logger parse_level open_err level_of lvl global (some ks)) []
      ∙ sym (nothing (leb global lvl) [])
  check_targets lvl global ks (t ∷ ts) law e =
      let open_at : leb (level_of ks) lvl ≡ true = ground (arith, law ks lvl t ts e) in
      rw open_at (and_one (leb global lvl) (t ∷ ts) [])
