-- ===== src/Examples/Databases.antt =====
-- The theorems about the database at a driver that counts the statements that it prepares.
use goapp.Base.{
  ℕ, ◌+◌, pos, Bool, true, false, Option, none, some, List, [], ◌∷◌, String, ◌≡◌, refl, find, store,
}
use goapp.GoRuntime.{Out, returns, panics, nil_dereference, does_panic}
use goapp.Errors.{Failure, ok}
use goapp.Database.{SqlStm, Driver, Db, one_row, pointer, plain_value}
use goapp.Database.Statements.{DbConfig, new, prepare_all, prepare_rest, preparex_add_sql}
use goapp.Database.Commands.{select, beginx, rollback, commit, get, exec, query_rowx_struct_scan}
use goapp.Database.Cache.{run_calls, run_calls-replay, replay, view_of, prepared}
use goapp.Database.Prepared.{AllSettled, run_calls-AllSettled}
use goapp.Database.Guards.{commands_do_not_panic}
use goapp.Database.Origins.{MadeFor}
use goapp.Database.Selects.{answered, next_id, select-prepared}

abbrev asked_at : Option ℕ → ℕ → Out ℕ (Option Failure)
asked_at none w = panics nil_dereference w
asked_at (some s) w = returns none w

abbrev driver : Driver ℕ ℕ ℕ ℕ ℕ
driver = record {
  connect = λ name spec w. returns none w;
  close = λ w. returns none w;
  preparex = λ text w. returns (ok w) (w + 1);
  beginx = λ w. returns (ok 7) w;
  rollback = λ tx w. returns none w;
  commit = λ tx w. returns none w;
  stmtx = λ tx s w. returns s w;
  select = λ s args w. asked_at s w;
  get = λ s args w. returns one_row w;
  named_exec = λ tx text args w. returns (ok 3) (w + 1);
  last_insert_id = λ done w. returns (pos 1, none) w;
  rows_affected = λ done w. returns (ok (pos 1)) w;
  struct_scan = λ tx text args w. returns none w;
}

abbrev config : DbConfig
config = record {
  host = "localhost";
  port = "5432";
  dbname = "app";
  ssl_mode = "disable";
  user = "app";
  pass = "secret";
  driver_name = "pgx";
}

abbrev to_prepare : SqlStm ℕ
to_prepare = record { text = "SELECT 0"; stmt = none; need_prepare = true }

abbrev first_table : List (String × SqlStm ℕ)
first_table = ("zero", record to_prepare { stmt = some 0 }) ∷ []

abbrev db : Db ℕ ℕ
db = record { is_nil = false; has_db = true; sql_stms = first_table; sql_id = 0; world = 1 }

abbrev calls : List (String × Bool)
calls = ("SELECT 1", true) ∷ ("SELECT 1", true) ∷ ("SELECT 2", false) ∷ []

abbrev results : List (Option Failure)
results = none ∷ none ∷ none ∷ []

abbrev one_stm : SqlStm ℕ
one_stm = record { text = "SELECT 1"; stmt = some 1; need_prepare = true }

abbrev two_stm : SqlStm ℕ
two_stm = record { text = "SELECT 2"; stmt = none; need_prepare = false }

abbrev db_after : Db ℕ ℕ
db_after = record db {
  sql_stms =
      ("zero", record to_prepare { stmt = some 0 })
      ∷ ("SELECT 1", one_stm)
      ∷ ("SELECT 2", two_stm)
      ∷ [];
  world = 2;
}

opened : new driver (some config) (("zero", to_prepare) ∷ []) 0 ≡ returns (ok first_table) 1
unfolding new prepare_all prepare_rest
opened = refl

ran : run_calls driver calls db ≡ returns results db_after
unfolding run_calls preparex_add_sql find store
ran = refl

is_prepared : replay calls results (view_of db) "SELECT 1" ≡ prepared
unfolding find
is_prepared = refl

run_calls-replay_example :
    view_of db_after "SELECT 2" ≡ replay calls results (view_of db) "SELECT 2"
run_calls-replay_example = run_calls-replay driver calls results db db_after ran "SELECT 2"

run_calls-AllSettled_example : AllSettled db_after.sql_stms
run_calls-AllSettled_example =
    run_calls-AllSettled driver (some config) (("zero", to_prepare) ∷ []) first_table 0 1 calls
      results 0 db_after opened ran

abbrev no_db : Db ℕ ℕ
no_db = record db_after { is_nil = true; has_db = false }

commands_do_not_panic_example :
    ((does_panic (beginx driver 5 no_db) ≡ false)
      × (does_panic (rollback driver 5 none no_db) ≡ false)
      × (does_panic (commit driver 5 none no_db) ≡ false))
    × (does_panic (select driver 5 none "SELECT 2" plain_value 0 no_db) ≡ false)
    × (does_panic (get driver 5 none "SELECT 2" plain_value 0 no_db) ≡ false)
    × (does_panic (exec driver 5 none "SELECT 2" plain_value 0 no_db) ≡ false)
    × (does_panic (query_rowx_struct_scan driver 5 none "SELECT 2" plain_value 0 no_db) ≡ false)
commands_do_not_panic_example = commands_do_not_panic driver 5 none "SELECT 2" plain_value 0 no_db

is_unknown : find "SELECT 1" db.sql_stms ≡ none
unfolding find
is_unknown = refl

select-prepared_example :
    (s : ℕ) × MadeFor driver "SELECT 1" s
    × (select driver 5 (some 7) "SELECT 1" pointer 0 db_after
        ≡ answered driver 5 (some 7) 0 (some s) (next_id driver db_after))
select-prepared_example =
    select-prepared driver calls results db db_after 5 (some 7) "SELECT 1" 0 is_unknown ran refl
      is_prepared
