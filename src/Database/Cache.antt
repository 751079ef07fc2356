-- ===== src/Database/Cache.antt =====
-- The table of statements is a cache: its specification is a status for each text of a statement.
use goapp.Base.{
  Bool, true, false, Option, none, some, List, [], ◌∷◌, String, str_eq, eq_iff, if◌then◌else◌, not,
  ◌≡◌, refl, arith, ap, sym, subst, ◌∙◌, ◌&&◌, Bool-cases, inl, inr, if_cases, find, store,
  find-store, is_some,
}
use goapp.GoRuntime.{M, Out, returns, panics, blocks, bind, pure, ◌>>=◌, bind-returned}
use goapp.Errors.{Failure, Result, ok, failed}
use goapp.Database.{SqlStm, Driver, Db, connected, around}
use goapp.Database.Statements.{
  entry, has_stmt, add_prepared, add_entry, add_found, preparex_add_sql,
}

-- What is known of a text: nothing, that it needs no preparation, that it needs one, or that it is
-- prepared.
pub data Status : Type 0 where
  unknown plain pending prepared : Status

abbrev pub status_of_stm : Bool → Bool → Status
status_of_stm has need = if has then prepared else (if need then pending else plain)

abbrev pub status : {Stmt : Type 0} → Option (SqlStm Stmt) → Status
status none = unknown
status (some h) = status_of_stm (is_some h.stmt) h.need_prepare

-- The specification of one call: what it asks for, whether it succeeded, and the status before.
abbrev pub next_status : Bool → Bool → Status → Status
next_status need false u = u
next_status need true unknown = if need then prepared else plain
next_status need true plain = plain
next_status need true pending = prepared
next_status need true prepared = prepared

abbrev pub next : String → Bool → Bool → (String → Status) → String → Status
next sql need success view k =
    if str_eq sql k && not (str_eq sql "") then next_status need success (view k) else view k

abbrev pub replay :
    List (String × Bool) → List (Option Failure) → (String → Status) → String → Status
replay ((sql, need) ∷ cs) (r ∷ rs) view = replay cs rs (next sql need (not (is_some r)) view)
replay _ _ view = view

abbrev pub view_of : {Stmt W : Type 0} → Db Stmt W → String → Status
view_of db k = status (find k db.sql_stms)

returned_same {ℓ κ} :
    {S : Type ℓ} {A : Type κ} (a b : A) (s t : S) → returns a s ≡ returns b t → (a ≡ b) × (s ≡ t)
returned_same a b s t e = (cc, cc)

either {ℓ} : {A : Type ℓ} {x y : A} (b : Bool) → x ≡ y → x ≡ (if b then y else x)
either true e = e
either false e = refl

module _ {Stmt Tx Done Args W : Type 0} (d : Driver Stmt Tx Done Args W) where
  -- Calls of `PreparexAddSql`, one behind the other, and their results.
  unfoldable pub run_calls : List (String × Bool) → M (Db Stmt W) (List (Option Failure))
  run_calls [] = pure []
  run_calls ((sql, need) ∷ cs) =
      preparex_add_sql d sql need >>= λ r. run_calls cs >>= λ rs. pure (r ∷ rs)

  same_key :
      (sql k : String) (db : Db Stmt W)
      → str_eq sql k ≡ true
      → find k db.sql_stms ≡ find sql db.sql_stms
  same_key sql k db t = ap (λ x. find x db.sql_stms) (sym ((eq_iff sql k).0 t))

  stored_view :
      (sql k : String) (need success : Bool) (h : SqlStm Stmt) (db : Db Stmt W)
      → str_eq sql "" ≡ false
      → status (some h) ≡ next_status need success (status (find sql db.sql_stms))
      → status (find k (store sql h db.sql_stms)) ≡ next sql need success (view_of db) k
  stored_view sql k need success h db n e = elim (Bool-cases (str_eq sql k)) [
    | inl t ↦ rw (find-store sql k h db.sql_stms, same_key sql k db t, t, n) e
    | inr f ↦ rw (find-store sql k h db.sql_stms, f) refl
  ]

  -- A call that leaves the table alone.
  same_view :
      (sql k : String) (need success : Bool) (db : Db Stmt W)
      → view_of db sql ≡ next_status need success (view_of db sql)
      → view_of db k ≡ next sql need success (view_of db) k
  same_view sql k need success db e = elim (Bool-cases (str_eq sql k)) [
    | inl t ↦ rw (same_key sql k db t, t) (either (not (str_eq sql "")) e)
    | inr f ↦ rw f refl
  ]

  empty_view :
      (sql k : String) (need success : Bool) (db : Db Stmt W)
      → str_eq sql "" ≡ true
      → view_of db k ≡ next sql need success (view_of db) k
  empty_view sql k need success db e = elim (Bool-cases (str_eq sql k)) [
    | inl t ↦ rw (t, e) refl
    | inr f ↦ rw f refl
  ]

  -- A call that comes back has followed the specification.
  abbrev Follows : String → Bool → (String → Status) → Out (Db Stmt W) (Option Failure) → Type 0
  Follows sql need view (returns e db) =
      (k : String) → view_of db k ≡ next sql need (not (is_some e)) view k
  Follows sql need view (panics p db) = Unit
  Follows sql need view (blocks db) = Unit

  add_prepared-Follows :
      (sql : String) (need : Bool) (old : Option (SqlStm Stmt)) (r : Result Stmt) (db : Db Stmt W)
      → str_eq sql "" ≡ false
      → find sql db.sql_stms ≡ old
      → has_stmt d old ≡ false
      → (entry d sql need old).need_prepare ≡ true
      → Follows sql need (view_of db) (add_prepared d sql old (entry d sql need old) r db)
  add_prepared-Follows sql need none (ok s) db n f h p = λ k.
      stored_view sql k need true (record (entry d sql need none) { stmt = some s }) db n
        (rw f (ground (arith, p)))
  add_prepared-Follows sql need (some g) (ok s) db n f h p = λ k.
      stored_view sql k need true (record g { stmt = some s }) db n (rw f (ground (arith, h, p)))
  add_prepared-Follows sql need none (failed x) db n f h p = λ k. same_view sql k need false db refl
  add_prepared-Follows sql need (some g) (failed x) db n f h p = λ k.
      stored_view sql k need false (record g { stmt = none }) db n (rw f (ground (arith, h, p)))

  answered-Follows :
      (sql : String) (need : Bool) (old : Option (SqlStm Stmt)) (o : Out W (Result Stmt))
      → (db : Db Stmt W) → str_eq sql "" ≡ false
      → find sql db.sql_stms ≡ old
      → has_stmt d old ≡ false
      → (entry d sql need old).need_prepare ≡ true
      → Follows sql need
          (view_of db)
          (bind (around db o) (add_prepared d sql old (entry d sql need old)))
  answered-Follows sql need old (returns r w) db n f h p =
      add_prepared-Follows sql need old r (record db { world = w }) n f h p
  answered-Follows sql need old (panics q w) db n f h p = tt
  answered-Follows sql need old (blocks w) db n f h p = tt

  plain_entry :
      (sql : String) (need : Bool) (old : Option (SqlStm Stmt))
      → has_stmt d old ≡ false
      → (entry d sql need old).need_prepare ≡ false
      → status (some (entry d sql need old)) ≡ next_status need true (status old)
  plain_entry sql need none h p = ground arith
  plain_entry sql need (some g) h p = rw (h, p) refl

  add_entry-Follows :
      (sql : String) (need : Bool) (old : Option (SqlStm Stmt)) (db : Db Stmt W)
      → str_eq sql "" ≡ false
      → find sql db.sql_stms ≡ old
      → has_stmt d old ≡ false
      → Follows sql need (view_of db) (add_entry d sql old (entry d sql need old) db)
  add_entry-Follows sql need old db n f h = elim (Bool-cases (entry d sql need old).need_prepare) [
    | inl p ↦
        rw p (
          answered-Follows sql need old (d.preparex (entry d sql need old).text db.world) db n f h
            p)
    | inr p ↦ rw p λ k.
        stored_view sql k need true (entry d sql need old) db n
          (rw f (plain_entry sql need old h p))
  ]

  found_prepared :
      (need : Bool) (old : Option (SqlStm Stmt))
      → has_stmt d old ≡ true
      → status old ≡ next_status need true (status old)
  found_prepared need none h = cc
  found_prepared need (some g) h = rw h refl

  add_found-Follows :
      (sql : String) (need : Bool) (db : Db Stmt W)
      → str_eq sql "" ≡ false
      → Follows sql need (view_of db) (add_found d sql need (find sql db.sql_stms) db)
  add_found-Follows sql need db n = elim (Bool-cases (has_stmt d (find sql db.sql_stms))) [
    | inl t ↦ rw t λ k. same_view sql k need true db (found_prepared need (find sql db.sql_stms) t)
    | inr f ↦ rw f (add_entry-Follows sql need (find sql db.sql_stms) db n refl f)
  ]

  preparex_add_sql-Follows :
      (sql : String) (need : Bool) (db : Db Stmt W)
      → Follows sql need (view_of db) (preparex_add_sql d sql need db)
  unfolding preparex_add_sql
  preparex_add_sql-Follows sql need db =
      if_cases (Follows sql need (view_of db)) (connected db) _ _
        (λ _.
          if_cases (Follows sql need (view_of db)) (str_eq sql "") _ _
            (λ t. λ k. empty_view sql k need true db t) (λ f. add_found-Follows sql need db f))
        (λ _. λ k. same_view sql k need false db refl)

  next_same :
      (sql : String) (need success : Bool) (u v : String → Status) (k : String)
      → u k ≡ v k
      → next sql need success u k ≡ next sql need success v k
  next_same sql need success u v k e = rw e refl

  replay_same :
      (cs : List (String × Bool)) (rs : List (Option Failure)) (u v : String → Status)
      → ((k : String) → u k ≡ v k)
      → (k : String) → replay cs rs u k ≡ replay cs rs v k
  replay_same [] rs u v h k = h k
  replay_same (c ∷ cs) [] u v h k = h k
  replay_same ((sql, need) ∷ cs) (r ∷ rs) u v h k =
      replay_same cs rs _ _ (λ j. next_same sql need (not (is_some r)) u v j (h j)) k

  Follows-at :
      (sql : String) (need : Bool) (view : String → Status) (o : Out (Db Stmt W) (Option Failure))
      → (e : Option Failure) (db : Db Stmt W) → Follows sql need view o
      → o ≡ returns e db
      → (k : String) → view_of db k ≡ next sql need (not (is_some e)) view k
  Follows-at sql need view o e db f q = subst (Follows sql need view) q f

  -- For every database driver, what the table says of each text after a row of calls of `PreparexAddSql`
  -- that came back is what the specification of the cache, a function from texts to statuses, makes
  -- of the results of the calls: a text is registered by its first successful call, whose flag stays, an
  -- entry that needs preparation is prepared by the next successful call, and a call that fails
  -- changes no status.
  pub run_calls-replay :
      (cs : List (String × Bool)) (rs : List (Option Failure)) (db db' : Db Stmt W)
      → run_calls cs db ≡ returns rs db'
      → (k : String) → view_of db' k ≡ replay cs rs (view_of db) k
  unfolding run_calls
  run_calls-replay [] rs db db' e k = cc
  run_calls-replay ((sql, need) ∷ cs) rs db db' e k =
      let (r, db1, e1, f1) = bind-returned (preparex_add_sql d sql need db) _ rs db' e in
      let (rs2, db2, e2, f2) = bind-returned (run_calls cs db1) _ rs db' f1 in
      let (er, ed) = returned_same (r ∷ rs2) rs db2 db' f2 in
      ap (λ x. view_of x k) (sym ed)
      ∙ run_calls-replay cs rs2 db1 db2 e2 k
      ∙ replay_same cs rs2 (view_of db1) (next sql need (not (is_some r)) (view_of db))
          (Follows-at sql need (view_of db) (preparex_add_sql d sql need db) r db1
            (preparex_add_sql-Follows sql need db) e1)
          k
      ∙ ap (λ x. replay ((sql, need) ∷ cs) x (view_of db) k) er
