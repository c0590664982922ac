-- ===== src/Schema/Reopen.antt =====
-- Open of internal/store/store.go, once it has succeeded: what the database has, and the next Open of it.
use mathlib.Core.Path.{subst}
use mcptunnels.Prelude.{
  Str, Bool, true, false, none, some, List, [], ◌∷◌, All, ◌⊎◌, ◌≡◌, refl, sym, ap, ◌∙◌, arith,
  is_empty, Bool-cases, Option-cases, inl, inr, any_of_find,
}
use mcptunnels.Schema.{
  Column, Table, Schema, add_column, DdlError, duplicate_column, io_failed, is_table, apply, exec,
  exec_all,
}
use mcptunnels.Schema.Tables.{creations, sqlite_tables}
use mcptunnels.Schema.Open.{
  Messages, is_duplicate_column, Calls, Opened, opened, not_migrated, add_columns, added_columns,
  migrate_tables, open_database,
}
use mcptunnels.Schema.Extension.{
  open_database-Extends, Extends, HasTable, HasColumn, exec-Extends, add_columns-Extends,
}
use mcptunnels.Schema.Agreement.{NamesRepeats, IsHealthy, open_healthy, add_columns-next}
use mcptunnels.Schema.Presence.{
  HasColumn-Extends, exec_all-HasTable, exec-HasColumn, tables_hold, tables_there,
}

-- The tables that the code creates, and the columns that it adds.
pub record IsMigrated (s : Schema) : Type 0 where
  pub tables : All (λ (t : Table). HasTable s t.name) sqlite_tables
  pub columns : All (λ (k : Str × Column). HasColumn s k.0 k.1) added_columns

-- A second run of the statements, none of them failing, changes nothing.
creations-again :
    (ts : List Table) (s : Schema)
    → All (λ (t : Table). HasTable s t.name) ts
    → exec_all (creations ts) [] s ≡ (none, [], s)
unfolding exec_all exec apply
creations-again [] s h = refl
creations-again (t ∷ ts) s ((u, e), hs) =
    rw (any_of_find (is_table t.name) s u e) (creations-again ts s hs)

exec-again :
    (n : Str) (c : Column) (s : Schema)
    → HasColumn s n c
    → exec (add_column n c) [] s ≡ (some (duplicate_column c.name), [], s)
unfolding exec apply
exec-again n c s (t, e, h) = rw (e, apply) (rw h refl)

module _ (message : Messages) (repeats : NamesRepeats message) where
  add_columns-again :
      (cs : List (Str × Column)) (s : Schema)
      → All (λ (k : Str × Column). HasColumn s k.0 k.1) cs
      → add_columns message cs [] s ≡ (opened, s)
  unfolding add_columns
  add_columns-again [] s h = refl
  add_columns-again ((n, c) ∷ cs) s (h, hs) =
      add_columns-next message repeats n c cs _ _ _ _ (inr (_, exec-again n c s h))
      ∙ add_columns-again cs s hs

  module _ (quiet : is_duplicate_column message io_failed ≡ false) where
    -- The code goes on to the next column only when the column is there.
    exec-Passes :
        (n : Str) (c : Column) (faults : List Bool) (s : Schema)
        → HasTable s n
        → ((exec (add_column n c) faults s).0 ≡ none)
          ⊎ ((x : DdlError) × ((exec (add_column n c) faults s).0 ≡ some x)
              × (is_duplicate_column message x ≡ true))
        → HasColumn (exec (add_column n c) faults s).2 n c
    exec-Passes n c faults s h p = elim (exec-HasColumn n c faults s h) [
      | inr col ↦ col
      | inl e ↦ elim p [
        | inl e' ↦ ground (arith, e, e')
        | inr (x, e', d) ↦ ground (arith, e, e', d, quiet)
      ]
    ]

    add_columns-HasColumn :
        (cs : List (Str × Column)) (faults : List Bool) (s : Schema)
        → All (λ (k : Str × Column). HasTable s k.0) cs
        → (add_columns message cs faults s).0 ≡ opened
        → All (λ (k : Str × Column). HasColumn (add_columns message cs faults s).1 k.0 k.1) cs
    unfolding add_columns
    add_columns-HasColumn [] faults s hs h = tt
    add_columns-HasColumn ((n, c) ∷ cs) faults s (t, ts) h =
        let r = exec (add_column n c) faults s in
        let rest = add_columns message cs r.1 r.2 in
        let goes_on =
          λ (same : add_columns message ((n, c) ∷ cs) faults s ≡ rest) (here : HasColumn r.2 n c).
            subst
              (λ (o : Opened × Schema).
                All (λ (k : Str × Column). HasColumn o.1 k.0 k.1) ((n, c) ∷ cs))
              (sym same)
              (
                HasColumn-Extends r.2 rest.1 n c (add_columns-Extends message cs r.1 r.2) here,
                add_columns-HasColumn cs r.1 r.2
                    (tables_there cs s r.2 (exec-Extends (add_column n c) faults s) ts)
                    (sym (ap (λ o. o.0) same) ∙ h),
              ) in
        elim (Option-cases r.0) [
          | inl e ↦ goes_on (rw (e, add_columns) refl) (exec-Passes n c faults s t (inl e))
          | inr (x, e) ↦ elim (Bool-cases (is_duplicate_column message x)) [
            | inl d ↦
                goes_on (rw (e, add_columns) (rw d refl))
                  (exec-Passes n c faults s t (inr (x, e, d)))
            | inr d ↦
                let stopped : (add_columns message ((n, c) ∷ cs) faults s).0 ≡ not_migrated x =
                  rw (e, add_columns) (rw d refl) in
                ground (arith, stopped, h)
          ]
        ]

    migrate_tables-IsMigrated :
        (faults : List Bool) (s : Schema)
        → (migrate_tables message faults s).0 ≡ opened
        → IsMigrated (migrate_tables message faults s).1
    unfolding migrate_tables
    migrate_tables-IsMigrated faults s h =
        let r = exec_all (creations sqlite_tables) faults s in
        elim (Option-cases r.0) [
          | inl e ↦
              let same : migrate_tables message faults s
                  ≡ add_columns message added_columns r.1 r.2 =
                rw (e, migrate_tables) refl in
              let tables = exec_all-HasTable sqlite_tables faults s e in
              let kept = add_columns-Extends message added_columns r.1 r.2 in
              let columns =
                add_columns-HasColumn added_columns r.1 r.2
                  (tables.0, (tables.1.0, (tables.1.0, tt))) (sym (ap (λ o. o.0) same) ∙ h) in
              subst (λ (o : Opened × Schema). IsMigrated o.1) (sym same)
                record { tables = tables_hold sqlite_tables r.2 _ kept tables; columns = columns }
          | inr (x, e) ↦
              let stopped : (migrate_tables message faults s).0 ≡ not_migrated x =
                rw (e, migrate_tables) refl in
              ground (arith, stopped, h)
        ]

    migrate_tables-again : (s : Schema) → IsMigrated s → migrate_tables message [] s ≡ (opened, s)
    unfolding migrate_tables
    migrate_tables-again s h =
        let made = creations-again sqlite_tables s h.tables in
        rw (ap (λ r. r.0) made, migrate_tables)
          (rw (ap (λ r. r.1) made, ap (λ r. r.2) made)
            (add_columns-again added_columns s h.columns))

    -- Nothing is opened but by the statements.
    opened_by_migrate :
        (calls : Calls) (path : Str) (s : Schema)
        → (open_database message calls path s).0 ≡ opened
        → open_database message calls path s ≡ migrate_tables message calls.faults s
    unfolding open_database
    opened_by_migrate calls path s h = ground arith

    -- When Open says that it has opened, whatever the database held and whichever statements failed on the
    -- way: each table that was there still is, with its columns as they were and before any new ones; the
    -- six tables and the three columns added later are there; and an Open of the same database under any
    -- path, when nothing fails in it, succeeds and changes none of its tables.
    pub open_database-again :
        (calls calls' : Calls) (path path' : Str) (s : Schema)
        → (open_database message calls path s).0 ≡ opened
        → is_empty path' ≡ false
        → IsHealthy calls'
        → Extends s (open_database message calls path s).1
          × IsMigrated (open_database message calls path s).1
          × (open_database message calls' path' (open_database message calls path s).1
              ≡ (opened, (open_database message calls path s).1))
    open_database-again calls calls' path path' s h p ok =
        let by = opened_by_migrate calls path s h in
        let m =
          subst (λ (o : Opened × Schema). IsMigrated o.1) (sym by)
            (migrate_tables-IsMigrated calls.faults s (sym (ap (λ o. o.0) by) ∙ h)) in
        (
          open_database-Extends message calls path s,
          m,
          open_healthy message repeats calls' path' _ p ok ∙ migrate_tables-again _ m,
        )
