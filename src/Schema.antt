-- ===== src/Schema.antt =====
-- The statements by which Open of internal/store/store.go and migrate of internal/stored1/stored1.go make
-- the tables, and what each does to the table definitions of a database. The rows are in Sql; a pragma is
-- no part of a definition.
pub mod Tables
pub mod Remote
pub mod Open
pub mod Extension
pub mod Agreement
pub mod Presence
pub mod Reopen
use mcptunnels.Prelude.{
  ℕ, Str, lit, Bool, true, false, not, Option, none, some, List, [], ◌∷◌, ◌++◌, ◌==◌, find, any,
  update, if◌then◌else◌,
}

pub data Kind : Type 0 where
  text : Kind
  integer : Kind

-- A column; `references` is a table whose deletes cascade.
pub record Column : Type 0 where
  pub name : Str
  pub kind : Kind
  pub not_null : Bool
  pub fallback : Option Str
  pub references : Option Str

pub record Table : Type 0 where
  pub name : Str
  pub columns : List Column
  pub primary_key : List Str

abbrev pub Schema : Type 0
Schema = List Table

-- CREATE TABLE IF NOT EXISTS, and ALTER TABLE ... ADD COLUMN.
pub data Ddl : Type 0 where
  create_table : Table → Ddl
  add_column : Str → Column → Ddl

pub data DdlError : Type 0 where
  duplicate_column : Str → DdlError
  no_such_table : Str → DdlError
  io_failed : DdlError

abbrev pub is_table : Str → Table → Bool
is_table n t = t.name == n

abbrev pub is_column : Str → Column → Bool
is_column n c = c.name == n

abbrev pub widened : List Column → Table → Table
widened more t = record t { columns = t.columns ++ more }

unfoldable pub apply : Ddl → Schema → Option DdlError × Schema
apply (create_table t) s = (none, if any (is_table t.name) s then s else s ++ (t ∷ []))
apply (add_column n c) s = elim (find (is_table n) s) [
  | none ↦ (some (no_such_table n), s)
  | some t ↦
      if any (is_column c.name) t.columns
      then (some (duplicate_column c.name), s)
      else (none, update (is_table n) (widened (c ∷ [])) s)
]

-- The next statement, on a tape that says whether the driver fails it.
unfoldable pub exec : Ddl → List Bool → Schema → Option DdlError × List Bool × Schema
exec d [] s = let (e, s') = apply d s in (e, [], s')
exec d (true ∷ faults) s = (some io_failed, faults, s)
exec d (false ∷ faults) s = let (e, s') = apply d s in (e, faults, s')

-- Statements in order, up to the first that fails.
unfoldable pub exec_all : List Ddl → List Bool → Schema → Option DdlError × List Bool × Schema
exec_all [] faults s = (none, faults, s)
exec_all (d ∷ ds) faults s =
    let (e, faults', s') = exec d faults s in
    let rest = exec_all ds faults' s' in elim e [ none ↦ rest | some x ↦ (some x, faults', s') ]
