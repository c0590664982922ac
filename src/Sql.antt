-- ===== src/Sql.antt =====
-- The database of internal/store/store.go and internal/stored1/stored1.go: the tables of their
-- schema, and the SQL statements that they send, one constructor each, with what each does to the
-- tables. Times are unix seconds, as the columns hold them.
pub mod Run
pub mod Rows
pub mod Integrity
use mcptunnels.Prelude.{ℕ, Str, String, Option, none, some, List, [], ◌∷◌}

pub record TenantRow : Type 0 where
  pub slug : Str
  pub display_name : Str
  pub created_at : ℕ
  pub expires_at : Option ℕ

pub record ServiceRow : Type 0 where
  pub tenant_slug : Str
  pub name : Str
  pub agent_key_hash : Str
  pub created_at : ℕ
  pub auth_mode : Str
  pub password_hash : Str

pub record RateRow : Type 0 where
  pub ip : Str
  pub window_start : ℕ
  pub hits : ℕ

pub record KeyRow : Type 0 where
  pub tenant_slug : Str
  pub private_key_pem : Str
  pub created_at : ℕ

pub record ClientRow : Type 0 where
  pub tenant_slug : Str
  pub client_id : Str
  pub redirect_uris : Str
  pub created_at : ℕ

pub record CodeRow : Type 0 where
  pub code_hash : Str
  pub tenant_slug : Str
  pub client_id : Str
  pub redirect_uri : Str
  pub code_challenge : Str
  pub expires_at : ℕ
  pub used_at : Option ℕ

pub record Tables : Type 0 where
  pub tenants : List TenantRow
  pub services : List ServiceRow
  pub quick_rate : List RateRow
  pub signing_keys : List KeyRow
  pub oauth_clients : List ClientRow
  pub auth_codes : List CodeRow

-- What `CREATE TABLE IF NOT EXISTS` leaves in a fresh database.
abbrev pub no_rows : Tables
no_rows = record {
  tenants = [];
  services = [];
  quick_rate = [];
  signing_keys = [];
  oauth_clients = [];
  auth_codes = [];
}

-- A value of a result column.
pub data Value : Type 0 where
  null : Value
  int : ℕ → Value
  text : Str → Value

abbrev pub nullable : Option ℕ → Value
nullable none = null
nullable (some n) = int n

abbrev pub Row : Type 0
Row = List (String × Value)

-- The statements, with their bound parameters in the order of the placeholders.
pub data Statement : Type 0 where
  insert_tenant : Str → Str → ℕ → Option ℕ → Statement
  select_tenant : Str → Statement
  delete_tenant_row : Str → Statement
  select_expired : ℕ → Statement
  count_live : ℕ → Statement
  prune_rate : ℕ → Statement
  upsert_rate : Str → ℕ → Statement
  select_rate : Str → ℕ → Statement
  insert_service : ServiceRow → Statement
  insert_service_if_tenant : ServiceRow → Str → Statement
  select_service : Str → Str → Statement
  insert_signing_key : Str → Str → ℕ → Statement
  select_signing_key : Str → Statement
  insert_client : Str → Str → Str → ℕ → Statement
  select_client : Str → Str → Statement
  insert_code : Str → Str → Str → Str → Str → ℕ → Statement
  claim_code : ℕ → Str → Statement
  select_code : Str → Statement

pub data SqlError : Type 0 where
  unique_failed : SqlError
  foreign_key_failed : SqlError
  io_failed : SqlError

-- The rows of a query, and how many rows of its table a statement changed.
pub data Outcome : Type 0 where
  failed : SqlError → Outcome
  done : List Row → ℕ → Outcome
