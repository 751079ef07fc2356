-- ===== src/Database/Selects.antt =====
-- `Select` at a statement that is prepared, and at one that was registered without preparation.
use goapp.Base.{
  find, ℕ, ◌+◌, ◌%◌, ◌^◌, Bool, true, false, Option, none, some, String, if◌then◌else◌, ◌≡◌, refl,
  arith, ap, ◌∙◌, List, Option-cases, inl, inr, sym,
}
use goapp.GoRuntime.{Out, returns, panics, bind, pure, catch_out, Panic}
use goapp.Errors.{Failure, get_recover_error, with_cause_typed, db_select_error}
use goapp.Database.{SqlStm, Driver, Db, connected, pointer, recovered, around}
use goapp.Database.Guards.{lookup-connected}
use goapp.Database.Origins.{MadeFor, run_calls-Origin}
use goapp.Database.Commands.{select, with_stm, select_stm, stm_in_tx, caused}
use goapp.Database.Cache.{run_calls, run_calls-replay, replay, view_of, status, plain, prepared}

if_true {ℓ} : {A : Type ℓ} (b : Bool) (x y : A) → b ≡ true → (if b then x else y) ≡ x
if_true true x y e = refl
if_true false x y e = cc

module _ {Stmt Tx Done Args W : Type 0} (d : Driver Stmt Tx Done Args W) where
  -- The database with the next number of a command.
  abbrev pub next_id : Db Stmt W → Db Stmt W
  next_id db = record db { sql_id = (db.sql_id + 1) % 2 ^ 64 }

  -- The statement that the driver is asked with: the one of the transaction, if there is one.
  abbrev pub in_tx : Option Tx → Option Stmt → Db Stmt W → Out (Db Stmt W) (Option Stmt)
  in_tx none stm db = returns stm db
  in_tx (some tx) stm db = around db (d.stmtx tx stm db.world)

  -- The answer of the driver, as `Select` passes it on.
  abbrev pub answered :
      ℕ → Option Tx → Args → Option Stmt → Db Stmt W → Out (Db Stmt W) (Option Failure)
  answered external_id tx args stm db =
      catch_out
        (bind (in_tx tx stm db) (λ s db1.
          bind (around db1 (d.select s args db1.world))
            (λ e. pure (caused (with_cause_typed db_select_error external_id) e))))
        (recovered external_id)

  select_found :
      (external_id : ℕ) (tx : Option Tx) (args : Args) (h : SqlStm Stmt) (o : Option (SqlStm Stmt))
      (db : Db Stmt W)
      → o ≡ some h
      → with_stm d external_id o (select_stm d external_id tx pointer args) db
        ≡ answered external_id tx args h.stmt db
  unfolding with_stm select_stm stm_in_tx
  select_found external_id none args h o db e = rw e refl
  select_found external_id (some tx) args h o db e = rw e refl

  select-answered :
      (external_id : ℕ) (tx : Option Tx) (sql : String) (args : Args) (h : SqlStm Stmt)
      (db : Db Stmt W)
      → connected db ≡ true
      → find sql db.sql_stms ≡ some h
      → select d external_id tx sql pointer args db
        ≡ answered external_id tx args h.stmt (next_id db)
  unfolding select
  select-answered external_id tx sql args h db c e =
      if_true (connected db) _ _ c
      ∙ rw (lookup-connected sql (next_id db) c)
          (select_found external_id tx args h (find sql db.sql_stms) _ e)

  none-some : (g : SqlStm Stmt) → none ≡ some g → ⊥
  none-some g e = cc

  plain_has_no_stmt :
      (o : Option (SqlStm Stmt))
      → status o ≡ plain
      → (h : SqlStm Stmt) × (o ≡ some h) × (h.stmt ≡ none)
  plain_has_no_stmt none e = cc
  plain_has_no_stmt (some h) e = elim (Option-cases h.stmt) [
    | inl n ↦ (h, refl, n)
    | inr (s, y) ↦ cc (rw y at e)
  ]

  prepared_has_stmt :
      (o : Option (SqlStm Stmt))
      → status o ≡ prepared
      → (h : SqlStm Stmt) × (s : Stmt) × (o ≡ some h) × (h.stmt ≡ some s)
  prepared_has_stmt none e = cc
  prepared_has_stmt (some h) e = elim (Option-cases h.stmt) [
    | inl n ↦ ground (arith, rw n at e)
    | inr (s, y) ↦ (h, s, refl, y)
  ]

  -- For every database driver: after calls of `PreparexAddSql` that came back, at a table that did not
  -- have the text before, `Select` with a pointer, at a text that the specification of the cache says is
  -- prepared, asks the driver with the statement that the driver gave when it prepared this text, or
  -- with the transaction's version of it where there is a transaction, and passes the answer on.
  pub select-prepared :
      (cs : List (String × Bool)) (rs : List (Option Failure)) (db db' : Db Stmt W)
      → (external_id : ℕ) (tx : Option Tx) (sql : String) (args : Args)
      → find sql db.sql_stms ≡ none
      → run_calls d cs db ≡ returns rs db'
      → connected db' ≡ true
      → replay cs rs (view_of db) sql ≡ prepared
      → (s : Stmt) × MadeFor d sql s
        × (select d external_id tx sql pointer args db'
            ≡ answered external_id tx args (some s) (next_id db'))
  select-prepared cs rs db db' external_id tx sql args n e c r =
      let (h, s, f, y) =
        prepared_has_stmt (find sql db'.sql_stms) (run_calls-replay d cs rs db db' e sql ∙ r) in
      let o = run_calls-Origin d sql cs rs db db' (λ g q. absurd (none-some g (sym n ∙ q))) e in
      (
        s,
        (o h f).1 s y,
        select-answered external_id tx sql args h db' c f
            ∙ ap (λ x. answered external_id tx args x (next_id db')) y,
      )

  -- The driver panics at a statement that is nil.
  abbrev pub NilPanics : Type 0
  NilPanics = (args : Args) (w : W) → (p : Panic) × (v : W) × (d.select none args w ≡ panics p v)

  panic_answered :
      (external_id : ℕ) (args : Args) (p : Panic) (v : W) (db : Db Stmt W)
      → d.select none args db.world ≡ panics p v
      → answered external_id none args none db
        ≡ returns (some (get_recover_error p external_id)) (record db { world = v })
  panic_answered external_id args p v db e = rw e refl

  -- If the driver panics at a nil statement, `Select` outside of a transaction never gives rows for a text
  -- that was registered without preparation: the nil dereference is recovered and given back as an
  -- error, also when later calls of `PreparexAddSql` asked for the preparation and succeeded.
  pub select-plain :
      (cs : List (String × Bool)) (rs : List (Option Failure)) (db db' : Db Stmt W)
      → (external_id : ℕ) (sql : String) (args : Args) → NilPanics
      → run_calls d cs db ≡ returns rs db'
      → connected db' ≡ true
      → replay cs rs (view_of db) sql ≡ plain
      → (p : Panic) × (v : W) × (select d external_id none sql pointer args db'
          ≡ returns (some (get_recover_error p external_id)) (record (next_id db') { world = v }))
  select-plain cs rs db db' external_id sql args n e c r =
      let (h, f, y) =
        plain_has_no_stmt (find sql db'.sql_stms) (run_calls-replay d cs rs db db' e sql ∙ r) in
      let (p, v, q) = n args db'.world in
      (
        p,
        v,
        select-answered external_id none sql args h db' c f
            ∙ ap (λ x. answered external_id none args x (next_id db')) y
            ∙ panic_answered external_id args p v (next_id db') q,
      )
