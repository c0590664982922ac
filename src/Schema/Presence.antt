-- ===== src/Schema/Presence.antt =====
-- The tables and columns that the statements of Open of internal/store/store.go leave in a database.
use mathlib.Core.Path.{subst}
use mcptunnels.Prelude.{
  Str, Bool, true, false, Option, none, some, List, [], ◌∷◌, ◌++◌, find, any, All, ◌⊎◌, ◌≡◌, refl,
  sym, ap, ◌∙◌, arith, Bool-cases, Option-cases, inl, inr, eq_refl, any_of_find, not_any_of_find,
  find_sound,
}
use mcptunnels.Schema.{
  Column, Table, Schema, create_table, add_column, DdlError, io_failed, is_table, is_column,
  widened, apply, exec, exec_all,
}
use mcptunnels.Schema.Tables.{creations}
use mcptunnels.Schema.Extension.{Extends, HasTable, HasColumn, exec_all-Extends, find-widened}
use mcptunnels.Schema.Agreement.{find-append}

pub HasTable-Extends : (a b : Schema) (n : Str) → Extends a b → HasTable a n → HasTable b n
HasTable-Extends a b n p (t, e) = let (more, e') = p n t e in (widened more t, e')

pub any-append_found :
    (p : Column → Bool) (xs ys : List Column) → any p xs ≡ true → any p (xs ++ ys) ≡ true
unfolding any
any-append_found p [] ys h = ground arith
any-append_found p (x ∷ xs) ys h = ground (arith, any-append_found p xs ys)

pub any-append_last :
    (p : Column → Bool) (xs : List Column) (c : Column) → p c ≡ true → any p (xs ++ (c ∷ [])) ≡ true
unfolding any
any-append_last p [] c h = ground arith
any-append_last p (x ∷ xs) c h = ground (arith, any-append_last p xs c)

pub HasColumn-Extends :
    (a b : Schema) (n : Str) (c : Column) → Extends a b → HasColumn a n c → HasColumn b n c
HasColumn-Extends a b n c p (t, e, h) =
    let (more, e') = p n t e in
    (widened more t, e', any-append_found (is_column c.name) t.columns more h)

-- A table that a statement has created is there.
pub apply-HasTable : (t : Table) (s : Schema) → HasTable (apply (create_table t) s).1 t.name
unfolding apply find any
apply-HasTable t s = elim (Option-cases (find (is_table t.name) s)) [
  | inl e ↦ (
    t,
    rw (not_any_of_find (is_table t.name) s e, apply)
        (find-append (is_table t.name) s (t ∷ []) (not_any_of_find (is_table t.name) s e)
          ∙ (rw (eq_refl t.name) refl)),
  )
  | inr (u, e) ↦ (u, rw (any_of_find (is_table t.name) s u e, apply) e)
]

pub exec-HasTable :
    (t : Table) (faults : List Bool) (s : Schema)
    → (exec (create_table t) faults s).0 ≡ none
    → HasTable (exec (create_table t) faults s).2 t.name
unfolding exec
exec-HasTable t [] s h = apply-HasTable t s
exec-HasTable t (true ∷ faults) s h = ground arith
exec-HasTable t (false ∷ faults) s h = apply-HasTable t s

pub exec_all-HasTable :
    (ts : List Table) (faults : List Bool) (s : Schema)
    → (exec_all (creations ts) faults s).0 ≡ none
    → All (λ (t : Table). HasTable (exec_all (creations ts) faults s).2 t.name) ts
unfolding exec_all
exec_all-HasTable [] faults s h = tt
exec_all-HasTable (t ∷ ts) faults s h =
    let r = exec (create_table t) faults s in
    elim (Option-cases r.0) [
      | inl e ↦
          let rest = exec_all (creations ts) r.1 r.2 in
          let same : exec_all (creations (t ∷ ts)) faults s ≡ rest = rw (e, exec_all) refl in
          let kept = exec_all-Extends (creations ts) r.1 r.2 in
          let here = HasTable-Extends r.2 rest.2 t.name kept (exec-HasTable t faults s e) in
          let more = exec_all-HasTable ts r.1 r.2 (sym (ap (λ r. r.0) same) ∙ h) in
          subst
            (λ (r : Option DdlError × List Bool × Schema).
              All (λ (t : Table). HasTable r.2 t.name) (t ∷ ts))
            (sym same) (here, more)
      | inr (x, e) ↦
          let same : (exec_all (creations (t ∷ ts)) faults s).0 ≡ some x = rw (e, exec_all) refl in
          ground (arith, same, h)
    ]

-- A column that is added, or that the database says is there, is there.
pub apply-HasColumn :
    (n : Str) (c : Column) (s : Schema) → HasTable s n → HasColumn (apply (add_column n c) s).1 n c
unfolding apply
apply-HasColumn n c s (t, e) = elim (Bool-cases (any (is_column c.name) t.columns)) [
  | inl f ↦ (t, rw (e, apply) (rw f e), f)
  | inr f ↦ (
    widened (c ∷ []) t,
    rw (e, apply) (rw f (find-widened n n c s t e ∙ (rw (find_sound (is_table n) s t e) refl))),
    any-append_last (is_column c.name) t.columns c (eq_refl c.name),
  )
]

pub exec-HasColumn :
    (n : Str) (c : Column) (faults : List Bool) (s : Schema)
    → HasTable s n
    → ((exec (add_column n c) faults s).0 ≡ some io_failed)
      ⊎ HasColumn (exec (add_column n c) faults s).2 n c
unfolding exec
exec-HasColumn n c [] s h = inr (apply-HasColumn n c s h)
exec-HasColumn n c (true ∷ faults) s h = inl refl
exec-HasColumn n c (false ∷ faults) s h = inr (apply-HasColumn n c s h)

pub tables_hold :
    (ts : List Table) (a b : Schema)
    → Extends a b
    → All (λ (t : Table). HasTable a t.name) ts
    → All (λ (t : Table). HasTable b t.name) ts
tables_hold [] a b p h = tt
tables_hold (t ∷ ts) a b p (h, hs) = (HasTable-Extends a b t.name p h, tables_hold ts a b p hs)

pub tables_there :
    (cs : List (Str × Column)) (a b : Schema)
    → Extends a b
    → All (λ (k : Str × Column). HasTable a k.0) cs
    → All (λ (k : Str × Column). HasTable b k.0) cs
tables_there [] a b p h = tt
tables_there ((n, c) ∷ cs) a b p (t, ts) = (HasTable-Extends a b n p t, tables_there cs a b p ts)
