-- ===== src/Examples/Schemas.antt =====
-- Databases to open: none, one of the version before the added columns, and one that another program made.
use mcptunnels.Prelude.{
  Str, lit, true, false, none, [], ◌∷◌, ◌++◌, ◌≡◌, refl, find, any, update, contains, ◌==◌,
}
use mcptunnels.Schema.{
  Table, Schema, duplicate_column, no_such_table, io_failed, apply, exec, exec_all,
}
use mcptunnels.Schema.Remote.{d1_tables}
use mcptunnels.Schema.Tables.{services_base, tenants}
use mcptunnels.Schema.Open.{
  Messages, Calls, opened, not_migrated, add_columns, migrate_tables, open_database, migrate,
}
use mcptunnels.Schema.Agreement.{NamesRepeats, IsHealthy, open_database-migrate}
use mcptunnels.Schema.Reopen.{IsMigrated, open_database-again}
use mcptunnels.Schema.Extension.{Extends}

abbrev path : Str
path = lit "/var/lib/tunneld/db.sqlite"

abbrev sqlite_message : Messages
sqlite_message (duplicate_column n) = lit "SQL logic error: duplicate column name: " ++ n
sqlite_message (no_such_table n) = lit "SQL logic error: no such table: " ++ n
sqlite_message io_failed = lit "disk I/O error"

sqlite_message-NamesRepeats : NamesRepeats sqlite_message
unfolding contains
sqlite_message-NamesRepeats n = refl

abbrev healthy : Calls
healthy = record { mkdir_ok = true; open_ok = true; ping_ok = true; faults = [] }

healthy-IsHealthy : IsHealthy healthy
healthy-IsHealthy = record { mkdir_ok = refl; open_ok = refl; ping_ok = refl; faults = refl }

-- A table of another program.
abbrev notes : Table
notes = record { name = lit "notes"; columns = []; primary_key = [] }

open_database-migrate_example :
    (open_database sqlite_message healthy path (notes ∷ []) ≡ (opened, (notes ∷ []) ++ d1_tables))
    × (migrate [] (notes ∷ []) ≡ (none, (notes ∷ []) ++ d1_tables))
unfolding any ◌==◌
open_database-migrate_example =
    open_database-migrate sqlite_message sqlite_message-NamesRepeats healthy path (notes ∷ []) refl
      healthy-IsHealthy (refl, (refl, (refl, (refl, (refl, (refl, tt))))))

-- An older version's tables, without the columns that were added later.
abbrev older : Schema
older = record { name = tenants; columns = []; primary_key = [] } ∷ services_base ∷ notes ∷ []

-- The seventh statement makes the first column; then the driver fails.
abbrev failing : Calls
failing = record healthy {
  faults = false ∷ false ∷ false ∷ false ∷ false ∷ false ∷ false ∷ true ∷ [];
}

failing_open : (open_database sqlite_message failing path older).0 ≡ not_migrated io_failed
unfolding open_database migrate_tables add_columns exec_all exec apply any find contains ◌==◌
failing_open = refl

open_database-again_example :
    Extends older (open_database sqlite_message healthy path older).1
    × IsMigrated (open_database sqlite_message healthy path older).1
    × (open_database sqlite_message healthy path (open_database sqlite_message healthy path older).1
        ≡ (opened, (open_database sqlite_message healthy path older).1))
unfolding open_database migrate_tables add_columns exec_all exec apply any find update contains ◌==◌
open_database-again_example =
    open_database-again sqlite_message sqlite_message-NamesRepeats refl healthy healthy path path
      older refl refl healthy-IsHealthy
