-- ===== src/Database/Commands.antt =====
-- pkg/common/sqlxx/sqlxx.go: the transactions, and the commands `Select`, `Get`, `Exec` and
-- `QueryRowxStructScan`.
use goapp.Base.{ℕ, ℤ, pos, Bool, true, false, Option, none, some, String, if◌then◌else◌}
use goapp.GoRuntime.{M, returns, ◌>>=◌, ◌>>◌, pure, defer_recover}
use goapp.Errors.{
  Failure, Result, ok, failed, new_typed, with_cause_typed, get_recover_error, incorrect_call_error,
  db_tx_create_error, db_tx_not_defined_error, db_tx_rollbak_error, db_tx_commit_error,
  db_sql_stm_not_defined_error, db_select_error, db_get_error, db_exec_error,
  db_exec_row_count_error, db_queryrowx_error,
}
use goapp.Database.{
  SqlStm, Driver, Db, Given, is_given, Row, one_row, no_rows, row_error, on_world, recovered,
  get_next_sql_id, if_connected, connected, lookup,
}

-- `(rowsAffected, lastInsertId, myerr)`
pub record Executed : Type 0 where
  pub rows_affected : ℤ
  pub last_insert_id : ℤ
  pub err : Option Failure

abbrev pub not_executed : Failure → Executed
not_executed e = record { rows_affected = pos 0; last_insert_id = pos 0; err = some e }

-- `WithCauseTyped` of an error, if there is one.
abbrev pub caused : (Failure → Failure) → Option Failure → Option Failure
caused f none = none
caused f (some e) = some (f e)

module _ {Stmt Tx Done Args W : Type 0} (d : Driver Stmt Tx Done Args W) where
  begun : ℕ → Result Tx → Option Tx × Option Failure
  begun external_id (ok tx) = (some tx, none)
  begun external_id (failed e) = (none, some (with_cause_typed db_tx_create_error external_id e))

  unfoldable pub begin_tx : ℕ → M (Db Stmt W) (Option Tx × Option Failure)
  unfolding begun
  begin_tx external_id db =
      if connected db
      then (on_world d.beginx >>= λ r. pure (begun external_id r)) db
      else returns (none, some (new_typed incorrect_call_error external_id)) db

  -- `Beginx`
  unfoldable pub beginx : ℕ → M (Db Stmt W) (Option Tx × Option Failure)
  unfolding begin_tx
  beginx external_id =
      defer_recover (λ p. pure (none, some (get_recover_error p external_id)))
        (begin_tx external_id)

  -- What `Rollback` and `Commit` share: the check of the transaction, and the call of the driver.
  unfoldable pub with_tx :
      ℕ → Option Tx → (Tx → M (Db Stmt W) (Option Failure)) → M (Db Stmt W) (Option Failure)
  with_tx external_id none f = pure (some (new_typed db_tx_not_defined_error external_id))
  with_tx external_id (some tx) f = f tx

  unfoldable pub rollback_tx : ℕ → Option Tx → M (Db Stmt W) (Option Failure)
  unfolding with_tx
  rollback_tx external_id tx = if_connected external_id (
      with_tx external_id tx λ t. on_world (d.rollback t) >>= λ e.
      pure (caused (with_cause_typed db_tx_rollbak_error external_id) e))

  -- `Rollback`
  unfoldable pub rollback : ℕ → Option Tx → M (Db Stmt W) (Option Failure)
  unfolding rollback_tx
  rollback external_id tx = defer_recover (recovered external_id) (rollback_tx external_id tx)

  unfoldable pub commit_tx : ℕ → Option Tx → M (Db Stmt W) (Option Failure)
  unfolding with_tx
  commit_tx external_id tx = if_connected external_id (
      with_tx external_id tx λ t. on_world (d.commit t) >>= λ e.
      pure (caused (with_cause_typed db_tx_commit_error external_id) e))

  -- `Commit`
  unfoldable pub commit : ℕ → Option Tx → M (Db Stmt W) (Option Failure)
  unfolding commit_tx
  commit external_id tx = defer_recover (recovered external_id) (commit_tx external_id tx)

  -- The lookup of the statement that the commands share. Behind it, a panic is recovered.
  unfoldable pub with_stm :
      ℕ
      → Option (SqlStm Stmt)
      → (SqlStm Stmt → M (Db Stmt W) (Option Failure))
      → M (Db Stmt W) (Option Failure)
  with_stm external_id none f = pure (some (new_typed db_sql_stm_not_defined_error external_id))
  with_stm external_id (some h) f = defer_recover (recovered external_id) (f h)

  -- `stm := sqlStm.Stmt; if tx != nil { stm = tx.Stmtx(sqlStm.Stmt) }`
  unfoldable pub stm_in_tx : Option Tx → SqlStm Stmt → M (Db Stmt W) (Option Stmt)
  stm_in_tx none h = pure h.stmt
  stm_in_tx (some tx) h = on_world (d.stmtx tx h.stmt)

  unfoldable pub select_stm :
      ℕ → Option Tx → Given → Args → SqlStm Stmt → M (Db Stmt W) (Option Failure)
  unfolding stm_in_tx
  select_stm external_id tx dest args h = do
    given ← is_given dest
    if given
        then (do
          stm ← stm_in_tx tx h
          err ← on_world (d.select stm args)
          pure (caused (with_cause_typed db_select_error external_id) err))
        else pure (some (new_typed incorrect_call_error external_id))

  -- `Select`; what the rows are is up to the driver.
  unfoldable pub select : ℕ → Option Tx → String → Given → Args → M (Db Stmt W) (Option Failure)
  unfolding with_stm select_stm lookup
  select external_id tx sql dest args =
      get_next_sql_id
      >> if_connected external_id
          (lookup sql >>= λ o. with_stm external_id o (select_stm external_id tx dest args))

  unfoldable pub got : ℕ → Row → Bool × Option Failure
  got external_id one_row = (true, none)
  got external_id no_rows = (false, none)
  got external_id (row_error e) = (false, some (with_cause_typed db_get_error external_id e))

  unfoldable pub get_stm :
      ℕ → Option Tx → Given → Args → SqlStm Stmt → M (Db Stmt W) (Bool × Option Failure)
  unfolding stm_in_tx got
  get_stm external_id tx dest args h = do
    given ← is_given dest
    if given
        then (do stm ← stm_in_tx tx h; row ← on_world (d.get stm args); pure (got external_id row))
        else pure (false, some (new_typed incorrect_call_error external_id))

  unfoldable pub get_found :
      ℕ → Option Tx → Given → Args → Option (SqlStm Stmt) → M (Db Stmt W) (Bool × Option Failure)
  unfolding get_stm
  get_found external_id tx dest args none =
      pure (false, some (new_typed db_sql_stm_not_defined_error external_id))
  get_found external_id tx dest args (some h) =
      defer_recover (λ p. pure (false, some (get_recover_error p external_id)))
        (get_stm external_id tx dest args h)

  -- `Get`; the first result says whether there is a row.
  unfoldable pub get : ℕ → Option Tx → String → Given → Args → M (Db Stmt W) (Bool × Option Failure)
  unfolding get_found lookup
  get external_id tx sql dest args = get_next_sql_id >> λ db.
      if connected db
      then (lookup sql >>= λ o. get_found external_id tx dest args o) db
      else returns (false, some (new_typed incorrect_call_error external_id)) db

  unfoldable pub counted : ℕ → ℤ → Result ℤ → Executed
  counted external_id id (ok n) = record { rows_affected = n; last_insert_id = id; err = none }
  counted external_id id (failed e) =
      not_executed (with_cause_typed db_exec_row_count_error external_id e)

  -- Behind the command, where `lastInsertId` is set already when `RowsAffected` panics.
  unfoldable pub exec_done : ℕ → Result Done → M (Db Stmt W) Executed
  unfolding counted
  exec_done external_id (failed e) =
      pure (not_executed (with_cause_typed db_exec_error external_id e))
  exec_done external_id (ok done) = on_world (d.last_insert_id done) >>= λ id.
      defer_recover
        (λ p. pure (record {
          rows_affected = pos 0;
          last_insert_id = id.0;
          err = some (get_recover_error p external_id);
        }))
        (on_world (d.rows_affected done) >>= λ r. pure (counted external_id id.0 r))

  unfoldable pub exec_tx : ℕ → Option Tx → Args → SqlStm Stmt → M (Db Stmt W) Executed
  unfolding exec_done
  exec_tx external_id none args h =
      pure (not_executed (new_typed db_tx_not_defined_error external_id))
  exec_tx external_id (some tx) args h =
      on_world (d.named_exec tx h.text args) >>= exec_done external_id

  unfoldable pub exec_stm : ℕ → Option Tx → Given → Args → SqlStm Stmt → M (Db Stmt W) Executed
  unfolding exec_tx
  exec_stm external_id tx given_args args h = do
    given ← is_given given_args
    if given
        then exec_tx external_id tx args h
        else pure (not_executed (new_typed incorrect_call_error external_id))

  unfoldable pub exec_found :
      ℕ → Option Tx → Given → Args → Option (SqlStm Stmt) → M (Db Stmt W) Executed
  unfolding exec_stm
  exec_found external_id tx given_args args none =
      pure (not_executed (new_typed db_sql_stm_not_defined_error external_id))
  exec_found external_id tx given_args args (some h) =
      defer_recover (λ p. pure (not_executed (get_recover_error p external_id)))
        (exec_stm external_id tx given_args args h)

  -- `Exec`
  unfoldable pub exec : ℕ → Option Tx → String → Given → Args → M (Db Stmt W) Executed
  unfolding exec_found lookup
  exec external_id tx sql given_args args = get_next_sql_id >> λ db.
      if connected db
      then (lookup sql >>= λ o. exec_found external_id tx given_args args o) db
      else returns (not_executed (new_typed incorrect_call_error external_id)) db

  unfoldable pub scan_stm :
      ℕ → Option Tx → Given → Args → SqlStm Stmt → M (Db Stmt W) (Option Failure)
  unfolding with_tx
  scan_stm external_id tx dest args h = do
    given ← is_given dest
    if given
        then (with_tx external_id tx λ t. on_world (d.struct_scan t h.text args) >>= λ e.
            pure (caused (with_cause_typed db_queryrowx_error external_id) e))
        else pure (some (new_typed incorrect_call_error external_id))

  -- `QueryRowxStructScan`
  unfoldable pub query_rowx_struct_scan :
      ℕ → Option Tx → String → Given → Args → M (Db Stmt W) (Option Failure)
  unfolding with_stm scan_stm lookup
  query_rowx_struct_scan external_id tx sql dest args =
      get_next_sql_id
      >> if_connected external_id
          (lookup sql >>= λ o. with_stm external_id o (scan_stm external_id tx dest args))
