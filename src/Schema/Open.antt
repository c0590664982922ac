-- ===== src/Schema/Open.antt =====
-- Open of internal/store/store.go, and migrate of internal/stored1/stored1.go. The text of an error is a
-- parameter: the code looks into it for "duplicate column name".
use mcptunnels.Prelude.{
  Str, lit, Bool, not, ◌&&◌, Option, none, some, List, [], ◌∷◌, ◌==◌, is_empty, contains,
  if◌then◌else◌,
}
use mcptunnels.Schema.{Column, Schema, add_column, DdlError, exec, exec_all}
use mcptunnels.Schema.Remote.{d1_tables}
use mcptunnels.Schema.Tables.{
  tenants, services, optional, auth_mode, password_hash, sqlite_tables, creations,
}

abbrev pub Messages : Type 0
Messages = DdlError → Str

-- isDuplicateColumn
abbrev pub is_duplicate_column : Messages → DdlError → Bool
is_duplicate_column message e = contains (lit "duplicate column name") (message e)

-- What the system calls of an Open come to, and which statements the driver fails.
pub record Calls : Type 0 where
  pub mkdir_ok : Bool
  pub open_ok : Bool
  pub ping_ok : Bool
  pub faults : List Bool

pub data Opened : Type 0 where
  opened : Opened
  path_required : Opened
  no_directory : Opened
  not_opened : Opened
  not_connected : Opened
  not_migrated : DdlError → Opened

abbrev pub added_columns : List (Str × Column)
added_columns =
    (tenants, optional (lit "expires_at")) ∷ (services, auth_mode) ∷ (services, password_hash) ∷ []

module _ (message : Messages) where
  -- Columns that are added where they are missing.
  unfoldable pub add_columns : List (Str × Column) → List Bool → Schema → Opened × Schema
  add_columns [] faults s = (opened, s)
  add_columns ((n, c) ∷ more) faults s =
      let (e, faults', s') = exec (add_column n c) faults s in
      let rest = add_columns more faults' s' in
      elim e [
        | none ↦ rest
        | some x ↦ if is_duplicate_column message x then rest else (not_migrated x, s')
      ]

  unfoldable pub migrate_tables : List Bool → Schema → Opened × Schema
  migrate_tables faults s =
      let (e, faults', s') = exec_all (creations sqlite_tables) faults s in
      let rest = add_columns added_columns faults' s' in
      elim e [ none ↦ rest | some x ↦ (not_migrated x, s') ]

  -- Open on a path, with the definitions that the database at the path has.
  unfoldable pub open_database : Calls → Str → Schema → Opened × Schema
  open_database calls path s =
      if is_empty path
      then (path_required, s)
      else if not (path == lit ":memory:") && not calls.mkdir_ok
      then (no_directory, s)
      else if not calls.open_ok
      then (not_opened, s)
      else if not calls.ping_ok
      then (not_connected, s)
      else migrate_tables calls.faults s

-- None is a migration that went well.
unfoldable pub migrate : List Bool → Schema → Option DdlError × Schema
migrate faults s = let (e, faults', s') = exec_all (creations d1_tables) faults s in (e, s')
