-- ===== src/Sqlite/Tenants.antt =====
-- Creating, deleting and sweeping tenants.
use mcptunnels.Prelude.{
  ℕ, Str, Bool, not, ◌&&◌, ap, Option, List, [], ◌∷◌, ◌≡◌, ◌≢◌, refl, arith, find, count, any, inl,
  inr, if◌then◌else◌, ◌==◌, eq_iff, find-keep, find-keep-none, nat_eq, Bool-cases,
}
use mcptunnels.Sql.{TenantRow}
use mcptunnels.Sql.Run.{run, cascade, is_tenant}
use mcptunnels.Sql.Rows.{HasDistinct}
use mcptunnels.Sql.Integrity.{IsSound}
use mcptunnels.Act.{ok, err, not_found, already_exists}
use mcptunnels.Driver.{Db, exec}
use mcptunnels.Store.{Tenant}
use mcptunnels.Sqlite.{
  create_tenant_expiry, get_tenant, delete_tenant, get_service, get_signing_key, get_client,
}
use mcptunnels.Sqlite.Queries.{
  IsHealthy, found, to_tenant, to_service, get_tenant_lem, get_service_lem, get_signing_key_lem,
  get_client_lem,
}

abbrev pub new_tenant : Str → Str → Option ℕ → ℕ → Tenant
new_tenant slug name exp now = record {
  slug = slug;
  display_name = name;
  created_at = now;
  expires_at = exp;
}

abbrev pub taken : Str → Db → Bool
taken slug db = any (is_tenant slug) db.tables.tenants

abbrev pub with_tenant : Str → Str → Option ℕ → ℕ → Db → Db
with_tenant slug name exp now db = record db {
  tables = record (db.tables) {
    tenants =
        record { slug = slug; display_name = name; created_at = now; expires_at = exp }
        ∷ db.tables.tenants;
  };
}

pub create_tenant_lem :
    (slug name : Str) (exp : Option ℕ) (now : ℕ) (db : Db)
    → IsHealthy db
    → create_tenant_expiry slug name exp now db ≡ (
        if taken slug db
        then (err already_exists, db)
        else (ok tt, with_tenant slug name exp now db))
unfolding create_tenant_expiry exec run
create_tenant_lem slug name exp now db h = ground arith

-- With no driver failure, CreateTenantExpiry reports ErrExists exactly where the slug is taken.
-- Where it is not, GetTenant of the slug then returns the given fields; every other GetTenant
-- returns what it returned before, also after the refusal.
pub get-create_tenant :
    (slug other name : Str) (exp : Option ℕ) (now : ℕ) (db : Db)
    → IsHealthy db
    → ((create_tenant_expiry slug name exp now db).0
        ≡ (if taken slug db then err already_exists else ok tt))
      × ((get_tenant other (create_tenant_expiry slug name exp now db).1).0 ≡ (
          if not (taken slug db) && slug == other
          then ok (new_tenant slug name exp now)
          else (get_tenant other db).0))
unfolding find
get-create_tenant slug other name exp now db h = elim (Bool-cases (taken slug db)) [
  | inl e ↦ rw (create_tenant_lem slug name exp now db h) (rw e (refl, refl))
  | inr e ↦ rw (create_tenant_lem slug name exp now db h) (
      rw e (
        refl,
        ground (
          arith,
          get_tenant_lem (with_tenant slug name exp now db) h other,
          get_tenant_lem db h other,
        ),
      ))
]

pub delete_tenant_lem :
    (slug : Str) (db : Db)
    → IsHealthy db
    → delete_tenant slug db ≡ (
      ok (nat_eq (count (is_tenant slug) db.tables.tenants) 1),
      record db { tables = cascade slug db.tables },
    )
unfolding delete_tenant exec run
delete_tenant_lem slug db h = ground arith

abbrev pub deleted : Str → Db → Db
deleted slug db = record db { tables = cascade slug db.tables }

pub count-is_tenant :
    (slug : Str) (ts : List TenantRow)
    → HasDistinct (λ r. is_tenant r.slug) ts
    → count (is_tenant slug) ts ≡ (if any (is_tenant slug) ts then 1 else 0)
unfolding count any
count-is_tenant slug [] d = refl
count-is_tenant slug (x ∷ ts) d = ground (arith, eq_iff x.slug slug, count-is_tenant slug ts d.1)

-- With no driver failure and tables that meet the schema's constraints, DeleteTenant reports whether
-- the tenant was there; afterwards nothing of it can be read: not the tenant, its services, its
-- signing key or its OAuth clients.
pub get-delete_tenant_self :
    (slug name id : Str) (db : Db)
    → IsHealthy db
    → IsSound db.tables
    → let after = (delete_tenant slug db).1 in
      ((delete_tenant slug db).0 ≡ ok (taken slug db))
      × ((get_tenant slug after).0 ≡ err not_found)
      × ((get_service slug name after).0 ≡ err not_found)
      × ((get_signing_key slug after).0 ≡ err not_found)
      × ((get_client slug id after).0 ≡ err not_found)
unfolding cascade
get-delete_tenant_self slug name id db h v = rw (delete_tenant_lem slug db h) (
    rw
      (
        get_tenant_lem (deleted slug db) h slug,
        get_service_lem (deleted slug db) h slug name,
        get_signing_key_lem (deleted slug db) h slug,
        get_client_lem (deleted slug db) h slug id,
      )
      (
        ground (arith, count-is_tenant slug db.tables.tenants v.tenant_keys),
        ap (found to_tenant) (find-keep-none _ _ (λ r p. ground arith) db.tables.tenants),
        ap (found to_service) (find-keep-none _ _ (λ r p. ground arith) db.tables.services),
        ap (found (λ r. r.private_key_pem))
            (find-keep-none _ _ (λ r p. ground arith) db.tables.signing_keys),
        ap (found (λ r. r.redirect_uris))
            (find-keep-none _ _ (λ r p. ground arith) db.tables.oauth_clients),
      ))

-- With no driver failure, DeleteTenant leaves what can be read of every other tenant as it was.
pub get-delete_tenant_ne :
    (slug other name id : Str) (db : Db)
    → IsHealthy db
    → slug ≢ other
    → let after = (delete_tenant slug db).1 in
      ((get_tenant other after).0 ≡ (get_tenant other db).0)
      × ((get_service other name after).0 ≡ (get_service other name db).0)
      × ((get_signing_key other after).0 ≡ (get_signing_key other db).0)
      × ((get_client other id after).0 ≡ (get_client other id db).0)
unfolding cascade
get-delete_tenant_ne slug other name id db h ne = rw (delete_tenant_lem slug db h) (
    rw
      (
        get_tenant_lem (deleted slug db) h other,
        get_service_lem (deleted slug db) h other name,
        get_signing_key_lem (deleted slug db) h other,
        get_client_lem (deleted slug db) h other id,
        get_tenant_lem db h other,
        get_service_lem db h other name,
        get_signing_key_lem db h other,
        get_client_lem db h other id,
      )
      (
        ap (found to_tenant) (
            find-keep _ _ (λ r p. ground (arith, eq_iff r.slug other, eq_iff r.slug slug))
              db.tables.tenants),
        ap (found to_service) (
            find-keep _ _
              (λ r p. ground (arith, eq_iff r.tenant_slug other, eq_iff r.tenant_slug slug))
              db.tables.services),
        ap (found (λ r. r.private_key_pem)) (
            find-keep _ _
              (λ r p. ground (arith, eq_iff r.tenant_slug other, eq_iff r.tenant_slug slug))
              db.tables.signing_keys),
        ap (found (λ r. r.redirect_uris)) (
            find-keep _ _
              (λ r p. ground (arith, eq_iff r.tenant_slug other, eq_iff r.tenant_slug slug))
              db.tables.oauth_clients),
      ))
