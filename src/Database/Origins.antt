-- ===== src/Database/Origins.antt =====
-- Where a statement of the table comes from: it was prepared for the text that it stands under.
use goapp.Base.{
  Bool, true, Option, none, some, List, [], ◌∷◌, String, str_eq, eq_iff, ◌≡◌, refl, sym, ap, subst,
  ◌∙◌, Bool-cases, inl, inr, if_cases, find, store, find-store,
}
use goapp.GoRuntime.{M, Out, returns, panics, blocks, bind, bind-returned}
use goapp.Errors.{Failure, Result, ok, failed}
use goapp.Database.{SqlStm, Driver, Db, connected, around}
use goapp.Database.Statements.{entry, has_stmt, add_prepared, add_found, forget, preparex_add_sql}
use goapp.Database.Cache.{run_calls}

module _ {Stmt Tx Done Args W : Type 0} (d : Driver Stmt Tx Done Args W) (k : String) where
  -- The driver gave this statement for the text, at some state of the server.
  abbrev pub MadeFor : Stmt → Type 0
  MadeFor s = (w : W) × (v : W) × (d.preparex k w ≡ returns (ok s) v)

  abbrev IsEntry : SqlStm Stmt → Type 0
  IsEntry h = (h.text ≡ k) × ((s : Stmt) → h.stmt ≡ some s → MadeFor s)

  abbrev pub Origin : List (String × SqlStm Stmt) → Type 0
  Origin t = (h : SqlStm Stmt) → find k t ≡ some h → IsEntry h

  abbrev Keeps : Out (Db Stmt W) (Option Failure) → Type 0
  Keeps (returns r db) = Origin db.sql_stms
  Keeps (panics p db) = Unit
  Keeps (blocks db) = Unit

  some_same : (a b : SqlStm Stmt) → some a ≡ some b → a ≡ b
  some_same a b e = cc

  store-Origin :
      (sql : String) (h : SqlStm Stmt) (t : List (String × SqlStm Stmt))
      → (str_eq sql k ≡ true → IsEntry h)
      → Origin t
      → Origin (store sql h t)
  store-Origin sql h t i o g e = elim (Bool-cases (str_eq sql k)) [
    | inl y ↦ subst IsEntry (some_same h g (rw (find-store sql k h t, y) at e)) (i y)
    | inr n ↦ o g (rw (find-store sql k h t, n) at e)
  ]

  prepared-IsEntry :
      (h : SqlStm Stmt) (s : Stmt) (w v : W)
      → h.text ≡ k
      → d.preparex h.text w ≡ returns (ok s) v
      → IsEntry (record h { stmt = some s })
  prepared-IsEntry h s w v t e =
      (t, λ u f. (w, v, subst (λ x. d.preparex x w ≡ returns (ok u) v) t (same_stmt u f)))
    where
      same_stmt : (u : Stmt) → some s ≡ some u → d.preparex h.text w ≡ returns (ok u) v
      same_stmt u f = cc

  forget-Keeps :
      (sql : String) (old : Option (SqlStm Stmt)) (e : Option Failure) (db : Db Stmt W)
      → ((h : SqlStm Stmt) → old ≡ some h → str_eq sql k ≡ true → IsEntry h)
      → Origin db.sql_stms
      → Keeps (returns e (forget d sql old db))
  forget-Keeps sql none e db i o = o
  forget-Keeps sql (some h) e db i o =
      store-Origin sql (record h { stmt = none }) db.sql_stms (λ y. ((i h refl y).0, λ s f. cc)) o

  add_prepared-Keeps :
      (sql : String) (old : Option (SqlStm Stmt)) (h : SqlStm Stmt) (o : Out W (Result Stmt))
      (db : Db Stmt W)
      → d.preparex h.text db.world ≡ o
      → (str_eq sql k ≡ true → IsEntry h)
      → ((g : SqlStm Stmt) → old ≡ some g → str_eq sql k ≡ true → IsEntry g)
      → Origin db.sql_stms
      → Keeps (bind (around db o) (add_prepared d sql old h))
  add_prepared-Keeps sql old h (returns (ok s) v) db e i j o =
      store-Origin sql (record h { stmt = some s }) db.sql_stms
        (λ y. prepared-IsEntry h s db.world v (i y).0 e) o
  add_prepared-Keeps sql old h (returns (failed x) v) db e i j o =
      forget-Keeps sql old none (record db { world = v }) j o
  add_prepared-Keeps sql old h (panics p v) db e i j o = tt
  add_prepared-Keeps sql old h (blocks v) db e i j o = tt

  entry-IsEntry :
      (sql : String) (need : Bool) (old : Option (SqlStm Stmt))
      → ((h : SqlStm Stmt) → old ≡ some h → str_eq sql k ≡ true → IsEntry h)
      → str_eq sql k ≡ true
      → IsEntry (entry d sql need old)
  entry-IsEntry sql need none i y = ((eq_iff sql k).0 y, λ s f. cc)
  entry-IsEntry sql need (some h) i y = i h refl y

  add_found-Keeps :
      (sql : String) (need : Bool) (old : Option (SqlStm Stmt)) (db : Db Stmt W)
      → ((h : SqlStm Stmt) → old ≡ some h → str_eq sql k ≡ true → IsEntry h)
      → Origin db.sql_stms
      → Keeps (add_found d sql need old db)
  add_found-Keeps sql need old db i o =
      let h = entry d sql need old in
      let e = entry-IsEntry sql need old i in
      if_cases {A = M (Db Stmt W) (Option Failure)} (λ m. Keeps (m db)) (has_stmt d old) _ _
        (λ _. o)
        (λ _.
          if_cases {A = M (Db Stmt W) (Option Failure)} (λ m. Keeps (m db)) h.need_prepare _ _
            (λ _. add_prepared-Keeps sql old h (d.preparex h.text db.world) db refl e i o)
            (λ _. store-Origin sql h db.sql_stms e o))

  preparex_add_sql-Keeps :
      (sql : String) (need : Bool) (db : Db Stmt W)
      → Origin db.sql_stms
      → Keeps (preparex_add_sql d sql need db)
  unfolding preparex_add_sql
  preparex_add_sql-Keeps sql need db o =
      if_cases Keeps (connected db) _ _
        (λ _.
          if_cases Keeps (str_eq sql "") _ _ (λ _. o)
            (λ _.
              add_found-Keeps sql need (find sql db.sql_stms) db
                (λ h f y. o h (ap (λ x. find x db.sql_stms) (sym ((eq_iff sql k).0 y)) ∙ f)) o))
        (λ _. o)

  pub run_calls-Origin :
      (cs : List (String × Bool)) (rs : List (Option Failure)) (db db' : Db Stmt W)
      → Origin db.sql_stms
      → run_calls d cs db ≡ returns rs db'
      → Origin db'.sql_stms
  unfolding run_calls
  run_calls-Origin [] rs db db' o e = subst (λ x. Origin x.sql_stms) (same_db e) o
    where
      same_db : returns [] db ≡ returns rs db' → db ≡ db'
      same_db e = cc
  run_calls-Origin ((sql, need) ∷ cs) rs db db' o e =
      let (r, db1, e1, f1) = bind-returned (preparex_add_sql d sql need db) _ rs db' e in
      let (rs1, db2, e2, f2) = bind-returned (run_calls d cs db1) _ rs db' f1 in
      let o1 = subst Keeps e1 (preparex_add_sql-Keeps sql need db o) in
      subst (λ x. Origin x.sql_stms) (same_db db2 rs1 r f2) (run_calls-Origin cs rs1 db1 db2 o1 e2)
    where
      same_db :
          (db2 : Db Stmt W) (rs1 : List (Option Failure)) (r : Option Failure)
          → returns (r ∷ rs1) db2 ≡ returns rs db'
          → db2 ≡ db'
      same_db db2 rs1 r e = cc
