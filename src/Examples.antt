-- ===== src/Examples.antt =====
-- Concrete values for the tests: a database with a tenant, its service and a code, a simple hash in
-- place of bcrypt, and an endpoint that runs its statements on tables.
pub mod Schemas
pub mod Exposures
pub mod Stores
pub mod Remote
pub mod Tunnels
pub mod Tokens
pub mod Gates
pub mod Flows
pub mod Sources
pub mod Bridges
pub mod Concurrent
pub mod Commands
pub mod Resolvers
pub mod Routes
use mcptunnels.Prelude.{
  ℕ, Str, lit, Bool, true, false, Option, none, some, List, [], ◌∷◌, ◌≡◌, refl, sym, ap, arith,
  ◌==◌, eq_iff, eq_refl, any, is_empty, find,
}
use mcptunnels.Sql.{Tables, TenantRow, ServiceRow, CodeRow, no_rows}
use mcptunnels.Sql.Integrity.{IsSound}
use mcptunnels.Driver.{Db}
use mcptunnels.Store.{Bcrypt, Service}

abbrev pub simple_compare : Str → Str → Bool
simple_compare [] plain = false
simple_compare (c ∷ hash) plain = hash == plain

pub simple_accepts :
    (salt plain hash : Str) → some (1 ∷ plain) ≡ some hash → simple_compare hash plain ≡ true
simple_accepts salt plain hash e = ground (arith, e, eq_refl plain)

pub simple_full : (salt plain hash : Str) → some (1 ∷ plain) ≡ some hash → is_empty hash ≡ false
simple_full salt plain hash e = ground (arith, e)

abbrev pub simple_bcrypt : Bcrypt
simple_bcrypt = record {
  generate = λ salt plain. some (1 ∷ plain);
  compare_hash = simple_compare;
  compare_generated = simple_accepts;
  generated_not_empty = simple_full;
}

abbrev pub acme : Str
acme = lit "acme"

abbrev pub acme_row : TenantRow
acme_row = record {
  slug = acme;
  display_name = lit "Acme";
  created_at = 10;
  expires_at = some 1000;
}

abbrev pub mcp_row : ServiceRow
mcp_row = record {
  tenant_slug = acme;
  name = lit "mcp";
  agent_key_hash = 1 ∷ lit "key";
  created_at = 10;
  auth_mode = lit "open";
  password_hash = [];
}

abbrev pub code_row : CodeRow
code_row = record {
  code_hash = lit "c0de";
  tenant_slug = acme;
  client_id = lit "mcp_1";
  redirect_uri = lit "https://client/cb";
  code_challenge = lit "challenge";
  expires_at = 100;
  used_at = none;
}

abbrev pub acme_tables : Tables
acme_tables = record {
  tenants = acme_row ∷ [];
  services = mcp_row ∷ [];
  quick_rate = [];
  signing_keys = [];
  oauth_clients = [];
  auth_codes = code_row ∷ [];
}

abbrev pub acme_db : Db
acme_db = record { tables = acme_tables; faults = [] }

abbrev pub empty_db : Db
empty_db = record { tables = no_rows; faults = [] }

pub acme-IsSound : IsSound acme_tables
unfolding any
acme-IsSound = ground (arith, eq_refl acme)

abbrev pub mcp : Service
mcp = record {
  name = lit "mcp";
  agent_key_hash = [];
  auth_mode = [];
  password_hash = [];
  created_at = 0;
}
