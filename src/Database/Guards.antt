-- ===== src/Database/Guards.antt =====
-- What the commands check before the driver is asked, and that no panic leaves them.
use goapp.Base.{
  find, ℕ, ◌+◌, ◌%◌, ◌^◌, Bool, true, false, Option, none, some, String, ◌≡◌, refl, is_some,
  if_cases, arith,
}
use goapp.GoRuntime.{M, Out, returns, panics, blocks, does_panic, does_panic-catch, catch_out}
use goapp.Errors.{Failure}
use goapp.Database.{
  SqlStm, Driver, Db, Given, nothing, pointer, plain_value, recovered, connected, lookup,
}
use goapp.Database.Commands.{
  Executed, begin_tx, beginx, rollback_tx, rollback, commit_tx, commit, select, get, exec,
  query_rowx_struct_scan, with_tx, with_stm, select_stm, get_stm, get_found, exec_found, exec_stm,
  exec_tx, scan_stm,
}

-- Behind the check of the pointer, the table can be read.
pub lookup-connected :
    {Stmt W : Type 0} (sql : String) (db : Db Stmt W)
    → connected db ≡ true
    → lookup sql db ≡ returns (find sql db.sql_stms) db
unfolding lookup
lookup-connected sql db c = ground arith

module _ {Stmt Tx Done Args W : Type 0} (d : Driver Stmt Tx Done Args W) where
  abbrev bump : Db Stmt W → Db Stmt W
  bump db = record db { sql_id = (db.sql_id + 1) % 2 ^ 64 }

  with_stm-does_not_panic :
      (external_id : ℕ) (o : Option (SqlStm Stmt))
      (f : SqlStm Stmt → M (Db Stmt W) (Option Failure))
      → (db : Db Stmt W) → does_panic (with_stm d external_id o f db) ≡ false
  unfolding with_stm
  with_stm-does_not_panic external_id none f db = refl
  with_stm-does_not_panic external_id (some h) f db =
      does_panic-catch (f h db) (recovered external_id) (λ _ _. refl)

  get_found-does_not_panic :
      (external_id : ℕ) (tx : Option Tx) (dest : Given) (args : Args) (o : Option (SqlStm Stmt))
      → (db : Db Stmt W) → does_panic (get_found d external_id tx dest args o db) ≡ false
  unfolding get_found
  get_found-does_not_panic external_id tx dest args none db = refl
  get_found-does_not_panic external_id tx dest args (some h) db =
      does_panic-catch (get_stm d external_id tx dest args h db) _ (λ _ _. refl)

  exec_found-does_not_panic :
      (external_id : ℕ) (tx : Option Tx) (given : Given) (args : Args) (o : Option (SqlStm Stmt))
      → (db : Db Stmt W) → does_panic (exec_found d external_id tx given args o db) ≡ false
  unfolding exec_found
  exec_found-does_not_panic external_id tx given args none db = refl
  exec_found-does_not_panic external_id tx given args (some h) db =
      does_panic-catch (exec_stm d external_id tx given args h db) _ (λ _ _. refl)

  transactions_do_not_panic :
      (external_id : ℕ) (tx : Option Tx) (db : Db Stmt W)
      → (does_panic (beginx d external_id db) ≡ false)
        × (does_panic (rollback d external_id tx db) ≡ false)
        × (does_panic (commit d external_id tx db) ≡ false)
  unfolding beginx rollback commit
  transactions_do_not_panic external_id tx db = (
    does_panic-catch (begin_tx d external_id db) _ (λ _ _. refl),
    does_panic-catch (rollback_tx d external_id tx db) (recovered external_id) (λ _ _. refl),
    does_panic-catch (commit_tx d external_id tx db) (recovered external_id) (λ _ _. refl),
  )

  -- Whatever the driver does, no panic leaves `Beginx`, `Rollback`, `Commit`, `Select`, `Get`, `Exec` and
  -- `QueryRowxStructScan`, also not at a pointer that is nil, whose table cannot be read, and not at
  -- arguments of a kind that cannot be nil.
  pub commands_do_not_panic :
      (external_id : ℕ) (tx : Option Tx) (sql : String) (given : Given) (args : Args)
      (db : Db Stmt W)
      → ((does_panic (beginx d external_id db) ≡ false)
          × (does_panic (rollback d external_id tx db) ≡ false)
          × (does_panic (commit d external_id tx db) ≡ false))
        × (does_panic (select d external_id tx sql given args db) ≡ false)
        × (does_panic (get d external_id tx sql given args db) ≡ false)
        × (does_panic (exec d external_id tx sql given args db) ≡ false)
        × (does_panic (query_rowx_struct_scan d external_id tx sql given args db) ≡ false)
  unfolding select get exec query_rowx_struct_scan
  commands_do_not_panic external_id tx sql given args db = (
    transactions_do_not_panic external_id tx db,
    if_cases (λ (o : Out (Db Stmt W) (Option Failure)). does_panic o ≡ false) (connected db) _ _
        (λ c. rw (lookup-connected sql (bump db) c) (
          with_stm-does_not_panic external_id (find sql db.sql_stms)
            (select_stm d external_id tx given args) (bump db)))
        (λ _. refl),
    if_cases (λ (o : Out (Db Stmt W) (Bool × Option Failure)). does_panic o ≡ false) (connected db)
        _ _
        (λ c.
          rw (lookup-connected sql (bump db) c)
            (get_found-does_not_panic external_id tx given args (find sql db.sql_stms) (bump db)))
        (λ _. refl),
    if_cases (λ (o : Out (Db Stmt W) Executed). does_panic o ≡ false) (connected db) _ _
        (λ c.
          rw (lookup-connected sql (bump db) c)
            (exec_found-does_not_panic external_id tx given args (find sql db.sql_stms) (bump db)))
        (λ _. refl),
    if_cases (λ (o : Out (Db Stmt W) (Option Failure)). does_panic o ≡ false) (connected db) _ _
        (λ c. rw (lookup-connected sql (bump db) c) (
          with_stm-does_not_panic external_id (find sql db.sql_stms)
            (scan_stm d external_id tx given args) (bump db)))
        (λ _. refl),
  )

  -- Of the end of a command: an error, and the state of the server as it was.
  abbrev pub Refused : {A : Type 0} → (A → Option Failure) → W → Out (Db Stmt W) A → Type 0
  Refused err w (returns a db) = (is_some (err a) ≡ true) × (db.world ≡ w)
  Refused err w (panics p db) = ⊥
  Refused err w (blocks db) = ⊥

  exec_found-Refused :
      (external_id : ℕ) (given : Given) (args : Args) (o : Option (SqlStm Stmt)) (db : Db Stmt W)
      → Refused (λ x. x.err) db.world (exec_found d external_id none given args o db)
  unfolding exec_found exec_stm exec_tx
  exec_found-Refused external_id given args none db = (refl, refl)
  exec_found-Refused external_id nothing args (some h) db = (refl, refl)
  exec_found-Refused external_id pointer args (some h) db = (refl, refl)
  exec_found-Refused external_id plain_value args (some h) db = (refl, refl)

  scan_found-Refused :
      (external_id : ℕ) (dest : Given) (args : Args) (o : Option (SqlStm Stmt)) (db : Db Stmt W)
      → Refused
          (λ e. e)
          db.world
          (with_stm d external_id o (scan_stm d external_id none dest args) db)
  unfolding with_stm scan_stm with_tx
  scan_found-Refused external_id dest args none db = (refl, refl)
  scan_found-Refused external_id nothing args (some h) db = (refl, refl)
  scan_found-Refused external_id pointer args (some h) db = (refl, refl)
  scan_found-Refused external_id plain_value args (some h) db = (refl, refl)

  ends-Refused :
      (external_id : ℕ) (db : Db Stmt W)
      → Refused (λ e. e) db.world (rollback d external_id none db)
        × Refused (λ e. e) db.world (commit d external_id none db)
  unfolding rollback rollback_tx commit commit_tx with_tx
  ends-Refused external_id db = (
    if_cases
        (λ (o : Out (Db Stmt W) (Option Failure)).
          Refused (λ e. e) db.world (catch_out o (recovered external_id)))
        (connected db) _ _ (λ _. (refl, refl)) (λ _. (refl, refl)),
    if_cases
        (λ (o : Out (Db Stmt W) (Option Failure)).
          Refused (λ e. e) db.world (catch_out o (recovered external_id)))
        (connected db) _ _ (λ _. (refl, refl)) (λ _. (refl, refl)),
  )

  -- Without a transaction, `Exec`, `QueryRowxStructScan`, `Rollback` and `Commit` come back with an error and
  -- leave the database server as it is, whatever the statement and the arguments are.
  pub no_transaction-Refused :
      (external_id : ℕ) (sql : String) (given : Given) (args : Args) (db : Db Stmt W)
      → Refused (λ x. x.err) db.world (exec d external_id none sql given args db)
        × Refused (λ e. e) db.world (query_rowx_struct_scan d external_id none sql given args db)
        × Refused (λ e. e) db.world (rollback d external_id none db)
        × Refused (λ e. e) db.world (commit d external_id none db)
  unfolding exec query_rowx_struct_scan
  no_transaction-Refused external_id sql given args db = (
    if_cases (Refused (λ x. x.err) db.world) (connected db) _ _
        (λ c.
          rw (lookup-connected sql (bump db) c)
            (exec_found-Refused external_id given args (find sql db.sql_stms) (bump db)))
        (λ _. (refl, refl)),
    if_cases (Refused (λ e. e) db.world) (connected db) _ _
        (λ c.
          rw (lookup-connected sql (bump db) c)
            (scan_found-Refused external_id given args (find sql db.sql_stms) (bump db)))
        (λ _. (refl, refl)),
    (ends-Refused external_id db).0,
    (ends-Refused external_id db).1,
  )
