-- ===== src/Database/Statements.antt =====
-- pkg/common/sqlxx/sqlxx.go: `New`, `Close` and the table of statements.
use Prim.Native.String.{◌++◌}
use goapp.Base.{
  Bool, false, Option, none, some, List, [], ◌∷◌, String, str_eq, if◌then◌else◌, is_some, find,
  store,
}
use goapp.GoRuntime.{M, returns, ◌>>=◌, pure}
use goapp.Errors.{
  Failure, Result, ok, failed, new_typed, with_cause_typed, incorrect_call_error, db_close_error,
  db_connection_error, db_sql_stm_prepare_error,
}
use goapp.Database.{SqlStm, Driver, Db, on_world, if_connected}

-- The part of `Config` that makes the connection.
pub record DbConfig : Type 0 where
  pub host : String
  pub port : String
  pub dbname : String
  pub ssl_mode : String
  pub user : String
  pub pass : String
  pub driver_name : String

abbrev pub connect_string : DbConfig → String
connect_string c =
    "host="
    ++ (c.host
        ++ (" port="
            ++ (c.port
                ++ (" dbname="
                    ++ (c.dbname
                        ++ (" sslmode="
                            ++ (c.ssl_mode
                                ++ (" user="
                                    ++ (c.user ++ (" password=" ++ (c.pass ++ " ")))))))))))

module _ {Stmt Tx Done Args W : Type 0} (d : Driver Stmt Tx Done Args W) where
  unfoldable pub prepare_rest :
      String
      → SqlStm Stmt
      → Result Stmt
      → List (String × SqlStm Stmt)
      → M W (List (String × SqlStm Stmt) × Option Failure)
      → M W (List (String × SqlStm Stmt) × Option Failure)
  prepare_rest k h (ok s) rest later =
      later >>= λ r. pure ((k, record h { stmt = some s }) ∷ r.0, r.1)
  prepare_rest k h (failed e) rest later =
      pure
        ((k, record h { stmt = none }) ∷ rest, some (with_cause_typed db_sql_stm_prepare_error 0 e))

  -- The loop of `PreparexAll`, in some order of the map. The statement that fails is the last one that
  -- is touched.
  unfoldable pub prepare_all :
      List (String × SqlStm Stmt) → M W (List (String × SqlStm Stmt) × Option Failure)
  unfolding prepare_rest
  prepare_all [] = pure ([], none)
  prepare_all ((k, h) ∷ rest) =
      let later = prepare_all rest in
      if h.need_prepare
      then (d.preparex h.text >>= λ r. prepare_rest k h r rest later)
      else (later >>= λ r. pure ((k, h) ∷ r.0, r.1))

  abbrev pub opened :
      List (String × SqlStm Stmt) × Option Failure → M W (Result (List (String × SqlStm Stmt)))
  opened (t, none) = pure (ok t)
  opened (t, some e) = pure (failed e)

  abbrev pub after_connect :
      List (String × SqlStm Stmt) → Option Failure → M W (Result (List (String × SqlStm Stmt)))
  after_connect stms none = prepare_all stms >>= opened
  after_connect stms (some e) = pure (failed (with_cause_typed db_connection_error 0 e))

  -- `New`: the table of the new `DB`. The settings of the pool of connections are left out.
  unfoldable pub new :
      Option DbConfig → List (String × SqlStm Stmt) → M W (Result (List (String × SqlStm Stmt)))
  new none stms = pure (failed (new_typed incorrect_call_error 0))
  new (some c) stms = d.connect c.driver_name (connect_string c) >>= after_connect stms

  abbrev closed : Option Failure → M (Db Stmt W) (Option Failure)
  closed none = pure none
  closed (some e) = pure (some (with_cause_typed db_close_error 0 e))

  -- `Close`
  unfoldable pub close : M (Db Stmt W) (Option Failure)
  close = if_connected 0 (on_world d.close >>= closed)

  -- The entry that `PreparexAddSql` goes on with.
  abbrev pub entry : String → Bool → Option (SqlStm Stmt) → SqlStm Stmt
  entry sql need_prepare (some h) = h
  entry sql need_prepare none = record { text = sql; stmt = none; need_prepare = need_prepare }

  abbrev pub has_stmt : Option (SqlStm Stmt) → Bool
  has_stmt (some h) = is_some h.stmt
  has_stmt none = false

  abbrev pub stored : String → SqlStm Stmt → M (Db Stmt W) (Option Failure)
  stored sql h db = returns none (record db { sql_stms = store sql h db.sql_stms })

  -- The entry is a pointer: an error leaves an entry that was in the table without a statement, and one
  -- that was not stays out of the table.
  abbrev pub forget : String → Option (SqlStm Stmt) → Db Stmt W → Db Stmt W
  forget sql (some h) db = record db { sql_stms = store sql (record h { stmt = none }) db.sql_stms }
  forget sql none db = db

  abbrev pub add_prepared :
      String → Option (SqlStm Stmt) → SqlStm Stmt → Result Stmt → M (Db Stmt W) (Option Failure)
  add_prepared sql old h (ok s) db = stored sql (record h { stmt = some s }) db
  add_prepared sql old h (failed e) db =
      returns (some (with_cause_typed db_sql_stm_prepare_error 0 e)) (forget sql old db)

  abbrev pub add_entry :
      String → Option (SqlStm Stmt) → SqlStm Stmt → M (Db Stmt W) (Option Failure)
  add_entry sql old h =
      if h.need_prepare
      then on_world (d.preparex h.text) >>= add_prepared sql old h
      else stored sql h

  abbrev pub add_found : String → Bool → Option (SqlStm Stmt) → M (Db Stmt W) (Option Failure)
  add_found sql need_prepare old =
      if has_stmt old then pure none else add_entry sql old (entry sql need_prepare old)

  -- `PreparexAddSql`
  unfoldable pub preparex_add_sql : String → Bool → M (Db Stmt W) (Option Failure)
  preparex_add_sql sql need_prepare = if_connected 0 λ db.
      if str_eq sql ""
      then returns none db
      else add_found sql need_prepare (find sql db.sql_stms) db
