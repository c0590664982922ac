-- ===== src/Schema/Extension.antt =====
-- Open of internal/store/store.go on a database that an older version, or a failed Open, has left: what it
-- keeps, and what a success means.
use mathlib.Core.List.{append_assoc, append-nil}
use mcptunnels.Prelude.{
  Str, lit, Bool, true, false, not, ◌&&◌, some, List, [], ◌∷◌, ◌++◌, ◌==◌, find, any, update,
  if◌then◌else◌, ◌≡◌, refl, ap, ◌∙◌, arith, Bool-cases, Option-cases, inl, inr, is_empty, if_has,
}
use mcptunnels.Schema.{
  Column, Table, Schema, Ddl, create_table, add_column, is_table, is_column, widened, apply, exec,
  exec_all,
}
use mcptunnels.Schema.Tables.{creations, sqlite_tables}
use mcptunnels.Schema.Open.{
  Messages, is_duplicate_column, Calls, Opened, add_columns, added_columns, migrate_tables,
  open_database,
}

-- Each table is there, with its columns, in their order, before any others.
abbrev pub Extends : Schema → Schema → Type 0
Extends s s' =
    (n : Str) (t : Table)
    → find (is_table n) s ≡ some t
    → (more : List Column) × (find (is_table n) s' ≡ some (widened more t))

abbrev pub HasTable : Schema → Str → Type 0
HasTable s n = (t : Table) × (find (is_table n) s ≡ some t)

abbrev pub HasColumn : Schema → Str → Column → Type 0
HasColumn s n c =
    (t : Table) × (find (is_table n) s ≡ some t) × (any (is_column c.name) t.columns ≡ true)

widened-nil : (t : Table) → t ≡ widened [] t
widened-nil t = rw (append-nil t.columns) refl

Extends-self : (s : Schema) → Extends s s
Extends-self s n t h = ([], h ∙ ap some (widened-nil t))

pub Extends-trans : (a b c : Schema) → Extends a b → Extends b c → Extends a c
Extends-trans a b c p q n t h =
    let (m, e) = p n t h in
    let (m', e') = q n (widened m t) e in (m ++ m', rw (e', append_assoc) refl)

pub find-append_found :
    {A : Type 0} (p : A → Bool) (xs ys : List A) (x : A)
    → find p xs ≡ some x
    → find p (xs ++ ys) ≡ some x
unfolding find
find-append_found p [] ys x h = ground arith
find-append_found p (y ∷ xs) ys x h = ground (arith, find-append_found p xs ys x)

pub find-widened :
    (n m : Str) (c : Column) (s : Schema) (t : Table)
    → find (is_table n) s ≡ some t
    → find (is_table n) (update (is_table m) (widened (c ∷ [])) s)
      ≡ some (if t.name == m then widened (c ∷ []) t else t)
unfolding find update
find-widened n m c [] t h = ground arith
find-widened n m c (u ∷ s) t h = ground (arith, find-widened n m c s t)

-- One step of a chain.
step-Extends : (d : Ddl) (s : Schema) → Extends s (apply d s).1
unfolding apply
step-Extends (create_table t) s =
    if_has (Extends s) (any (is_table t.name) s) _ _ (Extends-self s)
      (λ n u h. ([], find-append_found (is_table n) s _ u h ∙ ap some (widened-nil u)))
step-Extends (add_column m c) s = elim (Option-cases (find (is_table m) s)) [
  | inl e ↦ rw (e, apply) (Extends-self s)
  | inr (t, e) ↦
      rw (e, apply)
        (elim (Bool-cases (any (is_column c.name) t.columns)) [
          | inl f ↦ rw f (Extends-self s)
          | inr f ↦ rw f (λ n u h. elim (Bool-cases (u.name == m)) [
            | inl g ↦ (c ∷ [], find-widened n m c s u h ∙ (rw g refl))
            | inr g ↦ ([], find-widened n m c s u h ∙ (rw g (ap some (widened-nil u))))
          ])
        ])
]

pub exec-Extends : (d : Ddl) (faults : List Bool) (s : Schema) → Extends s (exec d faults s).2
unfolding exec
exec-Extends d [] s = step-Extends d s
exec-Extends d (true ∷ faults) s = Extends-self s
exec-Extends d (false ∷ faults) s = step-Extends d s

pub exec_all-Extends :
    (ds : List Ddl) (faults : List Bool) (s : Schema) → Extends s (exec_all ds faults s).2
unfolding exec_all
exec_all-Extends [] faults s = Extends-self s
exec_all-Extends (d ∷ ds) faults s =
    let r = exec d faults s in
    let h = exec-Extends d faults s in
    elim (Option-cases r.0) [
      | inl e ↦ rw (e, exec_all) (Extends-trans s r.2 _ h (exec_all-Extends ds r.1 r.2))
      | inr (x, e) ↦ rw (e, exec_all) h
    ]

module _ (message : Messages) where
  pub add_columns-Extends :
      (cs : List (Str × Column)) (faults : List Bool) (s : Schema)
      → Extends s (add_columns message cs faults s).1
  unfolding add_columns
  add_columns-Extends [] faults s = Extends-self s
  add_columns-Extends ((n, c) ∷ cs) faults s =
      let r = exec (add_column n c) faults s in
      let h = exec-Extends (add_column n c) faults s in
      let more = Extends-trans s r.2 _ h (add_columns-Extends cs r.1 r.2) in
      elim (Option-cases r.0) [
        | inl e ↦ rw (e, add_columns) more
        | inr (x, e) ↦
            rw (e, add_columns)
              (if_has (λ (o : Opened × Schema). Extends s o.1) (is_duplicate_column message x) _ _
                more h)
      ]

  pub migrate_tables-Extends :
      (faults : List Bool) (s : Schema) → Extends s (migrate_tables message faults s).1
  unfolding migrate_tables
  migrate_tables-Extends faults s =
      let r = exec_all (creations sqlite_tables) faults s in
      let h = exec_all-Extends (creations sqlite_tables) faults s in
      elim (Option-cases r.0) [
        | inl e ↦
            rw (e, migrate_tables)
              (Extends-trans s r.2 _ h (add_columns-Extends added_columns r.1 r.2))
        | inr (x, e) ↦ rw (e, migrate_tables) h
      ]

  -- Whatever the database holds and wherever Open stops, each table is still there under its name, with
  -- its columns as they were, in their order and before any that were added.
  pub open_database-Extends :
      (calls : Calls) (path : Str) (s : Schema) → Extends s (open_database message calls path s).1
  unfolding open_database
  open_database-Extends calls path s =
      let P = λ (o : Opened × Schema). Extends s o.1 in
      let same = Extends-self s in
      if_has P (is_empty path) _ _ same (
        if_has P (not (path == lit ":memory:") && not calls.mkdir_ok) _ _ same (
          if_has P (not calls.open_ok) _ _ same
            (if_has P (not calls.ping_ok) _ _ same (migrate_tables-Extends calls.faults s))))
