-- ===== src/Schema/Agreement.antt =====
-- Open of internal/store/store.go against migrate of internal/stored1/stored1.go: both stores run the same
-- statements on their rows, so a new database has to get the same tables from both.
use mathlib.Core.List.{append_assoc, append-nil}
use mcptunnels.Prelude.{
  Str, lit, Bool, true, false, none, some, List, [], ◌∷◌, ◌++◌, ◌==◌, find, any, update, All, ◌⊎◌,
  ◌≡◌, refl, ap, ◌∙◌, arith, is_empty, Bool-cases, inl, inr,
}
use mcptunnels.Schema.{
  Column, Table, Schema, add_column, duplicate_column, is_table, is_column, widened, apply, exec,
  exec_all,
}
use mcptunnels.Schema.Remote.{d1_tables}
use mcptunnels.Schema.Tables.{
  creations, sqlite_tables, tenants, services, tenants_table, services_base, auth_mode,
  password_hash, optional,
}
use mcptunnels.Schema.Open.{
  Messages, is_duplicate_column, Calls, opened, add_columns, added_columns, migrate_tables,
  open_database, migrate,
}

-- What SQLite says of a column that is there.
abbrev pub NamesRepeats : Messages → Type 0
NamesRepeats message = (n : Str) → is_duplicate_column message (duplicate_column n) ≡ true

-- The directory is made, the database opens and answers, and no statement fails.
pub record IsHealthy (calls : Calls) : Type 0 where
  pub mkdir_ok : calls.mkdir_ok ≡ true
  pub open_ok : calls.open_ok ≡ true
  pub ping_ok : calls.ping_ok ≡ true
  pub faults : calls.faults ≡ []

-- None of the tables is there: a new file, or one with other tables.
abbrev pub IsNew : Schema → Type 0
IsNew s = All (λ (t : Table). any (is_table t.name) s ≡ false) d1_tables

module _ {A : Type 0} (p : A → Bool) where
  pub any-append : (xs ys : List A) → any p xs ≡ false → any p (xs ++ ys) ≡ any p ys
  unfolding any
  any-append [] ys h = refl
  any-append (x ∷ xs) ys h = ground (arith, any-append xs ys)

  pub find-append : (xs ys : List A) → any p xs ≡ false → find p (xs ++ ys) ≡ find p ys
  unfolding any find
  find-append [] ys h = refl
  find-append (x ∷ xs) ys h = ground (arith, find-append xs ys)

  update-append :
      (f : A → A) (xs ys : List A) → any p xs ≡ false → update p f (xs ++ ys) ≡ xs ++ update p f ys
  unfolding any update
  update-append f [] ys h = refl
  update-append f (x ∷ xs) ys h = ground (arith, update-append f xs ys)

-- Each of the tables is missing when its turn comes, with `made` made before it.
abbrev AreNew : Schema → List Table → List Table → Type 0
AreNew s made [] = Unit {0}
AreNew s made (t ∷ ts) =
    (any (is_table t.name) (s ++ made) ≡ false) × AreNew s (made ++ (t ∷ [])) ts

creations_lem :
    (s : Schema) (made ts : List Table)
    → AreNew s made ts
    → exec_all (creations ts) [] (s ++ made) ≡ (none, [], s ++ (made ++ ts))
unfolding exec_all exec apply
creations_lem s made [] h = rw (append-nil made) refl
creations_lem s made (t ∷ ts) (h, hs) =
    let rest = creations_lem s (made ++ (t ∷ [])) ts hs in
    rw h (rw (append_assoc s made (t ∷ [])) (rest ∙ (rw (append_assoc made (t ∷ []) ts) refl)))

-- A statement of either list makes a table that no other statement of the list names.
AreNew-tables : (s : Schema) → IsNew s → AreNew s [] d1_tables × AreNew s [] sqlite_tables
unfolding any ◌==◌
AreNew-tables s (a, (b, (c, (d, (e, (f, u)))))) =
    let new = λ (n : Str) (made : List Table). any-append (is_table n) s made in
    (
      (new _ [] a, (new _ _ b, (new _ _ c, (new _ _ d, (new _ _ e, (new _ _ f, tt)))))),
      (new _ [] a, (new _ _ b, (new _ _ c, (new _ _ d, (new _ _ e, (new _ _ f, tt)))))),
    )

-- A column is added where it is missing, and the code goes on where it is there.
module _ (s : Schema) (made : List Table) where
  exec-repeated :
      (n : Str) (c : Column) (t : Table)
      → any (is_table n) s ≡ false
      → find (is_table n) made ≡ some t
      → any (is_column c.name) t.columns ≡ true
      → exec (add_column n c) [] (s ++ made) ≡ (some (duplicate_column c.name), [], s ++ made)
  unfolding exec apply
  exec-repeated n c t h p q = rw (find-append (is_table n) s made h ∙ p, apply) (rw q refl)

  exec-missing :
      (n : Str) (c : Column) (t : Table)
      → any (is_table n) s ≡ false
      → find (is_table n) made ≡ some t
      → any (is_column c.name) t.columns ≡ false
      → exec (add_column n c) [] (s ++ made)
        ≡ (none, [], s ++ update (is_table n) (widened (c ∷ [])) made)
  unfolding exec apply
  exec-missing n c t h p q =
      rw (find-append (is_table n) s made h ∙ p, apply)
        (rw q (
          ap (λ (x : Schema). (none, [], x))
            (update-append (is_table n) (widened (c ∷ [])) s made h)))

module _ (message : Messages) (repeats : NamesRepeats message) where
  -- A column that is added, or that the database says is there: the code goes on to the next.
  pub add_columns-next :
      (n : Str) (c : Column) (more : List (Str × Column)) (faults faults' : List Bool)
      (s s' : Schema)
      → (exec (add_column n c) faults s ≡ (none, faults', s'))
        ⊎ ((k : Str) × (exec (add_column n c) faults s ≡ (some (duplicate_column k), faults', s')))
      → add_columns message ((n, c) ∷ more) faults s ≡ add_columns message more faults' s'
  unfolding add_columns
  add_columns-next n c more faults faults' s s' (inl e) =
      rw (ap (λ r. r.0) e, add_columns) (rw (ap (λ r. r.1) e, ap (λ r. r.2) e) refl)
  add_columns-next n c more faults faults' s s' (inr (k, e)) =
      rw (ap (λ r. r.0) e, add_columns) (rw (repeats k, ap (λ r. r.1) e, ap (λ r. r.2) e) refl)

  added_columns_lem :
      (s : Schema)
      → IsNew s
      → add_columns message added_columns [] (s ++ sqlite_tables) ≡ (opened, s ++ d1_tables)
  unfolding add_columns any find update ◌==◌
  added_columns_lem s (a, (b, _)) =
      let c1 = optional (lit "expires_at") in
      let with_mode = update (is_table services) (widened (auth_mode ∷ [])) sqlite_tables in
      add_columns-next tenants c1 ((services, auth_mode) ∷ (services, password_hash) ∷ []) _ _ _ _
        (inr (_, exec-repeated s sqlite_tables tenants c1 tenants_table a refl refl))
      ∙ (add_columns-next services auth_mode ((services, password_hash) ∷ []) _ _ _ _
            (inl (exec-missing s sqlite_tables services auth_mode services_base b refl refl))
          ∙ (add_columns-next services password_hash [] _ _ _ _ (
                inl (
                  exec-missing s with_mode services password_hash
                    (widened (auth_mode ∷ []) services_base) b refl refl))
              ∙ refl))

  migrate_tables_lem :
      (s : Schema) → IsNew s → migrate_tables message [] s ≡ (opened, s ++ d1_tables)
  unfolding migrate_tables
  migrate_tables_lem s h =
      let made = rw (append-nil s) at (creations_lem s [] sqlite_tables (AreNew-tables s h).1) in
      rw (ap (λ r. r.0) made, migrate_tables)
        (rw (ap (λ r. r.1) made, ap (λ r. r.2) made) (added_columns_lem s h))

  pub open_healthy :
      (calls : Calls) (path : Str) (s : Schema)
      → is_empty path ≡ false
      → IsHealthy calls
      → open_database message calls path s ≡ migrate_tables message [] s
  unfolding open_database
  open_healthy calls path s p ok =
      rw (p, ok.mkdir_ok, ok.open_ok, ok.ping_ok, ok.faults)
        (elim (Bool-cases (path == lit ":memory:")) [ inl e ↦ rw e refl | inr e ↦ rw e refl ])

  -- On a healthy database with none of the tables, Open and migrate both succeed and leave the same
  -- tables, in the same order and after what was there, column by column, with the same keys, defaults and
  -- cascades: those that the D1 store declares.
  pub open_database-migrate :
      (calls : Calls) (path : Str) (s : Schema)
      → is_empty path ≡ false
      → IsHealthy calls
      → IsNew s
      → (open_database message calls path s ≡ (opened, s ++ d1_tables))
        × (migrate [] s ≡ (none, s ++ d1_tables))
  unfolding migrate
  open_database-migrate calls path s p ok h =
      let made = rw (append-nil s) at (creations_lem s [] d1_tables (AreNew-tables s h).0) in
      (open_healthy calls path s p ok ∙ migrate_tables_lem s h, rw (made, migrate) refl)
