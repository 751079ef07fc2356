-- ===== src/Database.antt =====
-- pkg/common/sqlxx/sqlxx.go: the database of the program, its table of SQL statements and its
-- transactions, over the driver as an interface. An argument of `fmt.Sprintf` in an error, the log and
-- the metrics are left out.
pub mod Statements
pub mod Commands
pub mod Prepared
pub mod Cache
pub mod Guards
pub mod Origins
pub mod Selects
use goapp.Base.{
  ℕ, ◌+◌, ◌%◌, ◌^◌, ℤ, Bool, true, false, Option, none, some, List, String, if◌then◌else◌, not,
  ◌||◌, find,
}
use goapp.GoRuntime.{
  M, Out, returns, panics, blocks, Panic, raised, nil_dereference, pure, defer_recover, modify,
}
use goapp.Errors.{Failure, Result, new_typed, incorrect_call_error, get_recover_error}

-- `SQLStm`, with the prepared statement of the driver in `stmt`.
pub record SqlStm (Stmt : Type 0) : Type 0 where
  pub text : String
  pub stmt : Option Stmt
  pub need_prepare : Bool

-- What `stm.Get` gives: a row, no row, or another error.
pub data Row : Type 0 where
  one_row : Row
  no_rows : Row
  row_error : Failure → Row

-- What the program uses of the driver, over the state `W` of the database server. Methods may panic,
-- as they do at a statement that is nil.
pub record Driver (Stmt Tx Done Args W : Type 0) : Type 0 where
  pub connect : String → String → W → Out W (Option Failure)
  pub close : W → Out W (Option Failure)
  pub preparex : String → W → Out W (Result Stmt)
  pub beginx : W → Out W (Result Tx)
  pub rollback : Tx → W → Out W (Option Failure)
  pub commit : Tx → W → Out W (Option Failure)
  pub stmtx : Tx → Option Stmt → W → Out W (Option Stmt)
  pub select : Option Stmt → Args → W → Out W (Option Failure)
  pub get : Option Stmt → Args → W → Out W Row
  pub named_exec : Tx → String → Args → W → Out W (Result Done)
  pub last_insert_id : Done → W → Out W (ℤ × Option Failure)
  pub rows_affected : Done → W → Out W (Result ℤ)
  pub struct_scan : Tx → String → Args → W → Out W (Option Failure)

-- A pointer to a `DB`, and what it stands on: whether the pointer is nil, whether its `DB` is not, and its
-- table. `sql_id` is the global counter `sqlIDGlobal`.
pub record Db (Stmt W : Type 0) : Type 0 where
  pub is_nil : Bool
  pub has_db : Bool
  pub sql_stms : List (String × SqlStm Stmt)
  pub sql_id : ℕ
  pub world : W

-- The value behind an `interface{}`, as `reflect.ValueOf(v).IsNil()` sees it: no value or a nil pointer,
-- a pointer, or a value of a kind that cannot be nil, at which `IsNil` panics.
pub data Given : Type 0 where
  nothing : Given
  pointer : Given
  plain_value : Given

-- `v != nil && !reflect.ValueOf(v).IsNil()`
abbrev pub is_given {ℓ} : {S : Type ℓ} → Given → M S Bool
is_given nothing s = returns false s
is_given pointer s = returns true s
is_given plain_value s = panics (raised true 0) s

module _ {Stmt W : Type 0} where
  abbrev pub around {ℓ} : {A : Type ℓ} → Db Stmt W → Out W A → Out (Db Stmt W) A
  around db (returns a w) = returns a (record db { world = w })
  around db (panics p w) = panics p (record db { world = w })
  around db (blocks w) = blocks (record db { world = w })

  -- A call of the driver.
  abbrev pub on_world {ℓ} : {A : Type ℓ} → (W → Out W A) → M (Db Stmt W) A
  on_world f db = around db (f db.world)

  -- `GetNextSQLID`
  abbrev pub get_next_sql_id : M (Db Stmt W) (Unit {0})
  get_next_sql_id = modify (λ db. record db { sql_id = (db.sql_id + 1) % 2 ^ 64 })

  -- The deferred function of the commands that give an error only.
  abbrev pub recovered : ℕ → Panic → M (Db Stmt W) (Option Failure)
  recovered external_id p = pure (some (get_recover_error p external_id))

  -- `!(db == nil || db.DB == nil)`
  abbrev pub connected : Db Stmt W → Bool
  connected db = not (db.is_nil || not db.has_db)

  -- `sqlStm, ok := db.sqlStms[sqlT]`, which panics at a pointer that is nil.
  unfoldable pub lookup : String → M (Db Stmt W) (Option (SqlStm Stmt))
  lookup sql db = if db.is_nil then panics nil_dereference db else returns (find sql db.sql_stms) db

  -- The check that every command starts with.
  abbrev pub if_connected : ℕ → M (Db Stmt W) (Option Failure) → M (Db Stmt W) (Option Failure)
  if_connected external_id m db =
      if connected db then m db else returns (some (new_typed incorrect_call_error external_id)) db
