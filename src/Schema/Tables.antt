-- ===== src/Schema/Tables.antt =====
-- The tables of internal/store/store.go, column by column, and the ways to write a column that they share
-- with those of internal/stored1/stored1.go.
use mcptunnels.Prelude.{Str, lit, Bool, true, false, Option, none, some, List, [], ◌∷◌}
use mcptunnels.Schema.{Kind, text, integer, Column, Table, Ddl, create_table}

abbrev pub column : Str → Kind → Bool → Option Str → Option Str → Column
column n k nn d r = record { name = n; kind = k; not_null = nn; fallback = d; references = r }

-- A key, a column that is not null, the same with a default, and a column that may be null.
abbrev pub key_text : Str → Option Str → Column
key_text n r = column n text false none r

abbrev pub required : Str → Kind → Column
required n k = column n k true none none

abbrev pub required_or : Str → Str → Column
required_or n d = column n text true (some d) none

abbrev pub optional : Str → Column
optional n = column n integer false none none

abbrev pub of_tenant : Column
of_tenant = column (lit "tenant_slug") text true none (some (lit "tenants"))

abbrev pub tenants : Str
tenants = lit "tenants"

abbrev pub services : Str
services = lit "services"

abbrev pub tenants_table : Table
tenants_table = record {
  name = tenants;
  columns =
      key_text (lit "slug") none
      ∷ required_or (lit "display_name") []
      ∷ required (lit "created_at") integer
      ∷ optional (lit "expires_at")
      ∷ [];
  primary_key = lit "slug" ∷ [];
}

-- The services before the columns that Open adds.
abbrev pub services_base : Table
services_base = record {
  name = services;
  columns =
      of_tenant
      ∷ required (lit "name") text
      ∷ required (lit "agent_key_hash") text
      ∷ required (lit "created_at") integer
      ∷ [];
  primary_key = lit "tenant_slug" ∷ lit "name" ∷ [];
}

abbrev pub auth_mode : Column
auth_mode = required_or (lit "auth_mode") (lit "oauth")

abbrev pub password_hash : Column
password_hash = required_or (lit "password_hash") []

abbrev pub quick_rate_table : Table
quick_rate_table = record {
  name = lit "quick_rate";
  columns =
      required (lit "ip") text
      ∷ required (lit "window_start") integer
      ∷ required (lit "count") integer
      ∷ [];
  primary_key = lit "ip" ∷ lit "window_start" ∷ [];
}

abbrev pub signing_keys_table : Table
signing_keys_table = record {
  name = lit "signing_keys";
  columns =
      key_text (lit "tenant_slug") (some tenants)
      ∷ required (lit "private_key_pem") text
      ∷ required (lit "created_at") integer
      ∷ [];
  primary_key = lit "tenant_slug" ∷ [];
}

abbrev pub oauth_clients_table : Table
oauth_clients_table = record {
  name = lit "oauth_clients";
  columns =
      of_tenant
      ∷ required (lit "client_id") text
      ∷ required_or (lit "redirect_uris") (lit "[]")
      ∷ required (lit "created_at") integer
      ∷ [];
  primary_key = lit "tenant_slug" ∷ lit "client_id" ∷ [];
}

abbrev pub auth_codes_table : Table
auth_codes_table = record {
  name = lit "auth_codes";
  columns =
      key_text (lit "code_hash") none
      ∷ of_tenant
      ∷ required (lit "client_id") text
      ∷ required (lit "redirect_uri") text
      ∷ required (lit "code_challenge") text
      ∷ required (lit "expires_at") integer
      ∷ optional (lit "used_at")
      ∷ [];
  primary_key = lit "code_hash" ∷ [];
}

abbrev pub sqlite_tables : List Table
sqlite_tables =
    tenants_table ∷ services_base ∷ quick_rate_table ∷ signing_keys_table ∷ oauth_clients_table
    ∷ auth_codes_table ∷ []

abbrev pub creations : List Table → List Ddl
creations [] = []
creations (t ∷ ts) = create_table t ∷ creations ts
