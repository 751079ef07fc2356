-- ===== src/Database/Prepared.antt =====
-- Which statements are prepared once `New` and `PreparexAddSql` have come back.
use goapp.Base.{
  ℕ, Bool, true, false, Option, none, some, List, [], ◌∷◌, String, str_eq, if◌then◌else◌, ◌&&◌, not,
  ◌≡◌, refl, ap, subst, ◌∙◌, is_some, if_cases, find,
}
use goapp.GoRuntime.{M, Out, returns, panics, blocks, bind, bind-returned, pure}
use goapp.Errors.{Failure, Result, ok, failed}
use goapp.Database.{SqlStm, Driver, Db}
use goapp.Database.Statements.{
  DbConfig, connect_string, prepare_all, prepare_rest, new, opened, after_connect,
}
use goapp.Database.Cache.{
  Status, unknown, plain, pending, prepared, status, next_status, replay, run_calls,
  run_calls-replay,
}

abbrev pub is_pending : Status → Bool
is_pending pending = true
is_pending _ = false

next_status-settled :
    (need success : Bool) (u : Status)
    → is_pending u ≡ false
    → is_pending (next_status need success u) ≡ false
next_status-settled need false u h = h
next_status-settled true true unknown h = refl
next_status-settled false true unknown h = refl
next_status-settled need true plain h = refl
next_status-settled need true pending h = refl
next_status-settled need true prepared h = refl

replay-settled :
    (cs : List (String × Bool)) (rs : List (Option Failure)) (view : String → Status)
    → ((k : String) → is_pending (view k) ≡ false)
    → (k : String) → is_pending (replay cs rs view k) ≡ false
replay-settled [] rs view h k = h k
replay-settled (c ∷ cs) [] view h k = h k
replay-settled ((sql, need) ∷ cs) (r ∷ rs) view h k =
    replay-settled cs rs _
      (λ j.
        if_cases (λ u. is_pending u ≡ false) (str_eq sql j && not (str_eq sql "")) _ _
          (λ _. next_status-settled need (not (is_some r)) (view j) (h j)) (λ _. h j))
      k

module _ {Stmt : Type 0} where
  abbrev pub AllSettled : List (String × SqlStm Stmt) → Type 0
  AllSettled t = (k : String) → is_pending (status (find k t)) ≡ false

  settled_cons :
      (j : String) (h : SqlStm Stmt) (t : List (String × SqlStm Stmt))
      → is_pending (status (some h)) ≡ false
      → AllSettled t
      → AllSettled ((j, h) ∷ t)
  unfolding find
  settled_cons j h t e s k =
      if_cases (λ o. is_pending (status o) ≡ false) (str_eq j k) (some h) (find k t) (λ _. e)
        (λ _. s k)

module _ {Stmt Tx Done Args W : Type 0} (d : Driver Stmt Tx Done Args W) where
  abbrev Settled : Out W (List (String × SqlStm Stmt) × Option Failure) → Type 0
  Settled (returns (t, none) w) = AllSettled t
  Settled _ = Unit

  if_plain : (b : Bool) → is_pending (if b then prepared else plain) ≡ false
  if_plain true = refl
  if_plain false = refl

  table_same :
      (t u : List (String × SqlStm Stmt)) (v w : W) → returns (ok t) v ≡ returns (ok u) w → t ≡ u
  table_same t u v w e = cc

  kept :
      (j : String) (h : SqlStm Stmt)
      → (o : Out W (List (String × SqlStm Stmt) × Option Failure))
      → is_pending (status (some h)) ≡ false
      → Settled o
      → Settled (bind o (λ r. pure ((j, h) ∷ r.0, r.1)))
  kept j h (returns (t, none) w) e s = settled_cons j h t e s
  kept j h (returns (t, some x) w) e s = tt
  kept j h (panics p w) e s = tt
  kept j h (blocks w) e s = tt

  prepare_rest-Settled :
      (j : String) (h : SqlStm Stmt) (r : Result Stmt) (rest : List (String × SqlStm Stmt)) (w : W)
      → Settled (prepare_all d rest w)
      → Settled (prepare_rest d j h r rest (prepare_all d rest) w)
  unfolding prepare_rest
  prepare_rest-Settled j h (ok s) rest w i =
      kept j (record h { stmt = some s }) (prepare_all d rest w) refl i
  prepare_rest-Settled j h (failed e) rest w i = tt

  asked-Settled :
      (j : String) (h : SqlStm Stmt) (o : Out W (Result Stmt)) (rest : List (String × SqlStm Stmt))
      → ((w : W) → Settled (prepare_all d rest w))
      → Settled (bind o (λ r. prepare_rest d j h r rest (prepare_all d rest)))
  asked-Settled j h (returns r w) rest i = prepare_rest-Settled j h r rest w (i w)
  asked-Settled j h (panics p w) rest i = tt
  asked-Settled j h (blocks w) rest i = tt

  no_need : (h : SqlStm Stmt) → h.need_prepare ≡ false → is_pending (status (some h)) ≡ false
  no_need h e = rw e (if_plain (is_some h.stmt))

  nothing_pending : (k : String) → is_pending (status (find {A = SqlStm Stmt} k [])) ≡ false
  unfolding find
  nothing_pending k = refl

  prepare_all-Settled :
      (stms : List (String × SqlStm Stmt)) (w : W) → Settled (prepare_all d stms w)
  unfolding prepare_all
  prepare_all-Settled [] w = λ k. nothing_pending k
  prepare_all-Settled ((j, h) ∷ rest) w =
      if_cases {A = M W (List (String × SqlStm Stmt) × Option Failure)} (λ m. Settled (m w))
        h.need_prepare _ _
        (λ _. asked-Settled j h (d.preparex h.text w) rest (prepare_all-Settled rest))
        (λ n. kept j h (prepare_all d rest w) (no_need h n) (prepare_all-Settled rest w))

  Settled-at :
      (o : Out W (List (String × SqlStm Stmt) × Option Failure)) (t : List (String × SqlStm Stmt))
      → (w : W) → Settled o
      → bind o (opened d) ≡ returns (ok t) w
      → AllSettled t
  Settled-at (returns (t, none) v) u w s e = subst AllSettled (table_same t u v w e) s
  Settled-at (returns (t, some x) v) u w s e = cc
  Settled-at (panics p v) u w s e = cc
  Settled-at (blocks v) u w s e = cc

  after_connect-AllSettled :
      (r : Option Failure) (stms t : List (String × SqlStm Stmt)) (w w' : W)
      → after_connect d stms r w ≡ returns (ok t) w'
      → AllSettled t
  after_connect-AllSettled none stms t w w' e =
      Settled-at (prepare_all d stms w) t w' (prepare_all-Settled stms w) e
  after_connect-AllSettled (some x) stms t w w' e = cc

  new-AllSettled :
      (c : Option DbConfig) (stms t : List (String × SqlStm Stmt)) (w w' : W)
      → new d c stms w ≡ returns (ok t) w'
      → AllSettled t
  unfolding new
  new-AllSettled none stms t w w' e = cc
  new-AllSettled (some c) stms t w w' e =
      let (r, v, e1, f1) =
        bind-returned (d.connect c.driver_name (connect_string c) w) _ (ok t) w' e in
      after_connect-AllSettled r stms t v w' f1

  -- For every database driver: behind a `New` that gave a database and any calls of `PreparexAddSql` that
  -- came back, whether they succeeded or not, no statement of the table waits for its preparation.
  pub run_calls-AllSettled :
      (c : Option DbConfig) (stms t : List (String × SqlStm Stmt)) (w w' : W)
      → (cs : List (String × Bool)) (rs : List (Option Failure)) (id : ℕ) (db : Db Stmt W)
      → new d c stms w ≡ returns (ok t) w'
      → run_calls d cs
          (record { is_nil = false; has_db = true; sql_stms = t; sql_id = id; world = w' })
        ≡ returns rs db
      → AllSettled db.sql_stms
  run_calls-AllSettled c stms t w w' cs rs id db e f k =
      ap is_pending (run_calls-replay d cs rs _ db f k)
      ∙ replay-settled cs rs _ (new-AllSettled c stms t w w' e) k
