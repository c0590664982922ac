-- ===== src/Schema/Remote.antt =====
-- The tables of internal/stored1/stored1.go, column by column.
use mcptunnels.Prelude.{lit, none, some, List, [], ◌∷◌}
use mcptunnels.Schema.{text, integer, Table}
use mcptunnels.Schema.Tables.{tenants, key_text, required, required_or, optional, of_tenant}

abbrev pub d1_tenants : Table
d1_tenants = record {
  name = lit "tenants";
  columns =
      key_text (lit "slug") none
      ∷ required_or (lit "display_name") []
      ∷ required (lit "created_at") integer
      ∷ optional (lit "expires_at")
      ∷ [];
  primary_key = lit "slug" ∷ [];
}

abbrev pub d1_services : Table
d1_services = record {
  name = lit "services";
  columns =
      of_tenant
      ∷ required (lit "name") text
      ∷ required (lit "agent_key_hash") text
      ∷ required (lit "created_at") integer
      ∷ required_or (lit "auth_mode") (lit "oauth")
      ∷ required_or (lit "password_hash") []
      ∷ [];
  primary_key = lit "tenant_slug" ∷ lit "name" ∷ [];
}

abbrev pub d1_quick_rate : Table
d1_quick_rate = record {
  name = lit "quick_rate";
  columns =
      required (lit "ip") text
      ∷ required (lit "window_start") integer
      ∷ required (lit "count") integer
      ∷ [];
  primary_key = lit "ip" ∷ lit "window_start" ∷ [];
}

abbrev pub d1_signing_keys : Table
d1_signing_keys = record {
  name = lit "signing_keys";
  columns =
      key_text (lit "tenant_slug") (some tenants)
      ∷ required (lit "private_key_pem") text
      ∷ required (lit "created_at") integer
      ∷ [];
  primary_key = lit "tenant_slug" ∷ [];
}

abbrev pub d1_oauth_clients : Table
d1_oauth_clients = record {
  name = lit "oauth_clients";
  columns =
      of_tenant
      ∷ required (lit "client_id") text
      ∷ required_or (lit "redirect_uris") (lit "[]")
      ∷ required (lit "created_at") integer
      ∷ [];
  primary_key = lit "tenant_slug" ∷ lit "client_id" ∷ [];
}

abbrev pub d1_auth_codes : Table
d1_auth_codes = record {
  name = lit "auth_codes";
  columns =
      key_text (lit "code_hash") none
      ∷ of_tenant
      ∷ required (lit "client_id") text
      ∷ required (lit "redirect_uri") text
      ∷ required (lit "code_challenge") text
      ∷ required (lit "expires_at") integer
      ∷ optional (lit "used_at")
      ∷ [];
  primary_key = lit "code_hash" ∷ [];
}

abbrev pub d1_tables : List Table
d1_tables =
    d1_tenants ∷ d1_services ∷ d1_quick_rate ∷ d1_signing_keys ∷ d1_oauth_clients ∷ d1_auth_codes
    ∷ []
