-- ===== src/Driver.antt =====
-- The SQL driver under internal/store/store.go: one statement after another, each of which may
-- fail in the driver, and the columns that `Scan` reads. `faults` says, for the statements still to
-- come, which of them the driver fails.
use mcptunnels.Prelude.{ℕ, Str, Bool, true, false, some, none, List, [], ◌∷◌}
use mcptunnels.Sql.{
  Tables, Row, int, text, null, Statement, Outcome, failed, done, unique_failed, io_failed,
}
use mcptunnels.Sql.Run.{run}
use mcptunnels.Act.{Act, Result, ok, err, not_found, already_exists, driver, bad_column}
use mcptunnels.Store.{Tenant, Service, Grant}

pub record Db : Type 0 where
  pub tables : Tables
  pub faults : List Bool

abbrev pub Answer : Type 0
Answer = List Row × ℕ

abbrev answer : Outcome × Tables → List Bool → Result Answer × Db
answer (failed e, t) fs = (err (driver e), record { tables = t; faults = fs })
answer (done rows n, t) fs = (ok (rows, n), record { tables = t; faults = fs })

-- The next statement, on a tape that says whether the driver fails it.
abbrev attempt : List Bool → Statement → Tables → Result Answer × Db
attempt [] st t = answer (run st t) []
attempt (true ∷ fs) st t = (err (driver io_failed), record { tables = t; faults = fs })
attempt (false ∷ fs) st t = answer (run st t) fs

-- db.Exec, db.Query and db.QueryRow
unfoldable pub exec : Statement → Act Db Answer
exec st db = attempt db.faults st db.tables

-- if isUniqueViolation(err) { return ErrExists }
abbrev pub unique_exists {ℓ} : {A : Type ℓ} → Result A → Result A
unique_exists (err (driver unique_failed)) = err already_exists
unique_exists (ok a) = ok a
unique_exists (err e) = err e

-- QueryRow(...).Scan(...): sql.ErrNoRows is ErrNotFound.
abbrev pub first_row {ℓ} : {A : Type ℓ} → (Row → Result A) → List Row → Result A
first_row scan [] = err not_found
first_row scan (row ∷ rows) = scan row

abbrev pub scan_tenant : Row → Result Tenant
scan_tenant ((_, text s) ∷ (_, text d) ∷ (_, int c) ∷ (_, int e) ∷ []) =
    ok (record { slug = s; display_name = d; created_at = c; expires_at = some e })
scan_tenant ((_, text s) ∷ (_, text d) ∷ (_, int c) ∷ (_, null) ∷ []) =
    ok (record { slug = s; display_name = d; created_at = c; expires_at = none })
scan_tenant row = err bad_column

abbrev pub scan_service : Row → Result Service
scan_service ((_, text n) ∷ (_, text k) ∷ (_, text m) ∷ (_, text p) ∷ (_, int c) ∷ []) =
    ok (record { name = n; agent_key_hash = k; auth_mode = m; password_hash = p; created_at = c })
scan_service row = err bad_column

abbrev pub scan_grant : Row → Result Grant
scan_grant ((_, text s) ∷ (_, text i) ∷ (_, text u) ∷ (_, text c) ∷ []) =
    ok (record { tenant_slug = s; client_id = i; redirect_uri = u; code_challenge = c })
scan_grant row = err bad_column

abbrev pub scan_text : Row → Result Str
scan_text ((_, text s) ∷ []) = ok s
scan_text row = err bad_column

abbrev pub scan_int : Row → Result ℕ
scan_int ((_, int n) ∷ []) = ok n
scan_int row = err bad_column
