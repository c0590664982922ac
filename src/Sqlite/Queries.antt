-- ===== src/Sqlite/Queries.antt =====
-- What the reading methods answer when the driver does not fail: the first row that their `WHERE`
-- clause accepts.
use mcptunnels.Prelude.{
  ℕ, Str, Bool, Option, none, some, List, [], ◌∷◌, map, ◌≡◌, refl, arith, find, keep, count,
}
use mcptunnels.Sql.{Row, TenantRow, ServiceRow, CodeRow}
use mcptunnels.Sql.Run.{
  run, is_tenant, is_service, is_key, is_client, is_live, tenant_columns, service_columns,
  key_columns, client_columns,
}
use mcptunnels.Act.{Result, ok, err, not_found}
use mcptunnels.Driver.{Db, exec, first_row, scan_tenant, scan_service, scan_text}
use mcptunnels.Store.{Tenant, Service, Grant}
use mcptunnels.Sqlite.{get_tenant, get_service, get_signing_key, get_client, count_live_tenants}

-- No statement to come fails in the driver.
abbrev pub IsHealthy : Db → Type 0
IsHealthy db = db.faults ≡ []

abbrev pub found {ℓ κ} : {A : Type ℓ} {B : Type κ} → (A → B) → Option A → Result B
found f none = err not_found
found f (some a) = ok (f a)

abbrev pub to_tenant : TenantRow → Tenant
to_tenant r = record {
  slug = r.slug;
  display_name = r.display_name;
  created_at = r.created_at;
  expires_at = r.expires_at;
}

abbrev pub to_service : ServiceRow → Service
to_service r = record {
  name = r.name;
  agent_key_hash = r.agent_key_hash;
  auth_mode = r.auth_mode;
  password_hash = r.password_hash;
  created_at = r.created_at;
}

abbrev pub to_grant : CodeRow → Grant
to_grant r = record {
  tenant_slug = r.tenant_slug;
  client_id = r.client_id;
  redirect_uri = r.redirect_uri;
  code_challenge = r.code_challenge;
}

pub first_row-keep {ℓ} :
    {A : Type ℓ} {B : Type 0} (scan : Row → Result B) (columns : A → Row) (f : A → B) (p : A → Bool)
    → ((a : A) → scan (columns a) ≡ ok (f a))
    → (xs : List A) → first_row scan (map columns (keep p xs)) ≡ found f (find p xs)
unfolding keep find
first_row-keep scan columns f p h [] = refl
first_row-keep scan columns f p h (x ∷ xs) =
    ground (arith, h x, first_row-keep scan columns f p h xs)

scan_tenant-columns : (r : TenantRow) → scan_tenant (tenant_columns r) ≡ ok (to_tenant r)
scan_tenant-columns r = ground arith

module _ (db : Db) (healthy : IsHealthy db) where
  pub get_tenant_lem :
      (slug : Str)
      → get_tenant slug db ≡ (found to_tenant (find (is_tenant slug) db.tables.tenants), db)
  unfolding get_tenant exec run
  get_tenant_lem slug = ground (
    arith,
    first_row-keep scan_tenant tenant_columns to_tenant (is_tenant slug) scan_tenant-columns
        db.tables.tenants,
  )

  pub get_service_lem :
      (slug name : Str)
      → get_service slug name db
        ≡ (found to_service (find (is_service slug name) db.tables.services), db)
  unfolding get_service exec run
  get_service_lem slug name = ground (
    arith,
    first_row-keep scan_service service_columns to_service (is_service slug name) (λ r. refl)
        db.tables.services,
  )

  pub get_signing_key_lem :
      (slug : Str)
      → get_signing_key slug db
        ≡ (found (λ r. r.private_key_pem) (find (is_key slug) db.tables.signing_keys), db)
  unfolding get_signing_key exec run
  get_signing_key_lem slug = ground (
    arith,
    first_row-keep scan_text key_columns (λ r. r.private_key_pem) (is_key slug) (λ r. refl)
        db.tables.signing_keys,
  )

  pub get_client_lem :
      (slug id : Str)
      → get_client slug id db
        ≡ (found (λ r. r.redirect_uris) (find (is_client slug id) db.tables.oauth_clients), db)
  unfolding get_client exec run
  get_client_lem slug id = ground (
    arith,
    first_row-keep scan_text client_columns (λ r. r.redirect_uris) (is_client slug id) (λ r. refl)
        db.tables.oauth_clients,
  )

  pub count_live_tenants_lem :
      (now : ℕ) → count_live_tenants now db ≡ (ok (count (is_live now) db.tables.tenants), db)
  unfolding count_live_tenants exec run
  count_live_tenants_lem now = ground arith
