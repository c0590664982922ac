-- ===== src/D1/Conforms.antt =====
-- What the D1 endpoint is assumed to do, and when two methods agree.
use mcptunnels.Prelude.{ℕ, Str, lit, true, false, [], ◌∷◌, map, ◌≡◌, contains, leb}
use mcptunnels.Sql.{
  Tables, Row, Value, int, text, Statement, SqlError, unique_failed, foreign_key_failed, Outcome,
  failed, done, insert_tenant, select_tenant, insert_client, select_client, select_signing_key,
  insert_signing_key, insert_code, select_service, delete_tenant_row, count_live, prune_rate,
  upsert_rate, select_rate, claim_code, select_code, select_expired,
}
use mcptunnels.Sql
use mcptunnels.Sql.Run.{run}
use mcptunnels.Act.{Act, Result, ok, err, not_found, already_exists, invalid_agent_key, remote}
use mcptunnels.Driver.{Db}
use mcptunnels.D1.Wire.{Endpoint, Json, JsonRow, Reply, envelope, null, number, string}

abbrev pub json_of : Value → Json
json_of Sql.null = null
json_of (int n) = number n
json_of (text s) = string s

abbrev pub json_row : Row → JsonRow
json_row [] = []
json_row ((k, v) ∷ row) = (k, json_of v) ∷ json_row row

abbrev pub changes : Outcome → ℕ
changes (failed e) = 0
changes (done rows n) = n

-- What the endpoint answers for an outcome, given the error's text and the count of written rows.
abbrev pub encode : (SqlError → Str) → ℕ → Outcome → Reply
encode message written (failed e) = envelope 400 false (message e ∷ []) []
encode message written (done rows n) = envelope 200 true [] (
    record { success = true; results = map json_row rows; rows_written = written; errors = [] }
    ∷ [])

-- Cloudflare's documented behaviour, as the comments of stored1.go describe it: a statement runs
-- against the primary as SQLite would run it; a failure is reported by SQLite's message, which for a
-- UNIQUE violation, and for no other, holds "UNIQUE constraint"; rows_written is positive exactly
-- where the statement changed a row (a cascade adds to it).
pub record IsD1 {S : Type 0} (send : Endpoint S) (tables : S → Tables) : Type 0 where
  pub message : SqlError → Str
  pub written : Statement → Tables → ℕ
  pub state_law : (st : Statement) (s : S) → tables (send st s).1 ≡ (run st (tables s)).1
  pub reply_law :
      (st : Statement) (s : S)
      → (send st s).0 ≡ encode message (written st (tables s)) (run st (tables s)).0
  pub message_law :
      (e : SqlError)
      → contains (lit "UNIQUE constraint") (message e)
        ≡ elim e [ Sql.unique_failed ↦ true | _ ↦ false ]
  pub written_law :
      (st : Statement) (t : Tables) → leb 1 (written st t) ≡ leb 1 (changes (run st t).0)

-- What a caller can tell apart: a value, one of the three sentinels, or some other error.
abbrev pub blur {ℓ} : {A : Type ℓ} → Result A → Result A
blur (ok a) = ok a
blur (err not_found) = err not_found
blur (err already_exists) = err already_exists
blur (err invalid_agent_key) = err invalid_agent_key
blur (err e) = err remote

module _ {S : Type 0} (tables : S → Tables) where
  -- The SQLite database with the same rows, and no driver failure to come.
  abbrev pub local : S → Db
  local s = record { tables = tables s; faults = [] }

  -- The two methods answer alike and leave the same rows.
  abbrev pub Agrees : {A : Type 0} → Act S A → Act Db A → S → Type 0
  Agrees m n s = (blur (m s).0 ≡ blur (n (local s)).0) × (tables (m s).1 ≡ (n (local s)).1.tables)
