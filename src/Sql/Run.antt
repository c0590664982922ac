-- ===== src/Sql/Run.antt =====
-- What each SQL statement of internal/store/store.go and internal/stored1/stored1.go does: the
-- primary keys and foreign keys of the schema, `WHERE`, `ON CONFLICT`, `INSERT OR IGNORE`,
-- `ON DELETE CASCADE`. Foreign keys are enforced, as the pragma in the DSN of Open asks for on every
-- connection. A statement that fails changes nothing. New rows go in front: no statement
-- of the program asks for an order.
use mcptunnels.Prelude.{
  ℕ, ◌+◌, Str, Bool, true, false, not, ◌&&◌, Option, none, some, [], ◌∷◌, map, ◌==◌, nat_eq, ltb,
  leb, if◌then◌else◌, any, keep, count, update,
}
use mcptunnels.Sql.{
  TenantRow, ServiceRow, RateRow, KeyRow, ClientRow, CodeRow, Tables, Row, Statement, int, text,
  nullable, insert_tenant, select_tenant, delete_tenant_row, select_expired, count_live, prune_rate,
  upsert_rate, select_rate, insert_service, insert_service_if_tenant, select_service,
  insert_signing_key, select_signing_key, insert_client, select_client, insert_code, claim_code,
  select_code, Outcome, failed, done, unique_failed, foreign_key_failed,
}

abbrev pub is_tenant : Str → TenantRow → Bool
is_tenant slug r = r.slug == slug

abbrev pub expires_by : ℕ → Option ℕ → Bool
expires_by now none = false
expires_by now (some e) = leb e now

abbrev pub expires_after : ℕ → Option ℕ → Bool
expires_after now none = false
expires_after now (some e) = ltb now e

abbrev pub is_expired : ℕ → TenantRow → Bool
is_expired now r = expires_by now r.expires_at

abbrev pub is_live : ℕ → TenantRow → Bool
is_live now r = expires_after now r.expires_at

abbrev pub is_service : Str → Str → ServiceRow → Bool
is_service slug name r = r.tenant_slug == slug && r.name == name

abbrev pub is_rate : Str → ℕ → RateRow → Bool
is_rate ip window r = r.ip == ip && nat_eq r.window_start window

abbrev pub is_key : Str → KeyRow → Bool
is_key slug r = r.tenant_slug == slug

abbrev pub is_client : Str → Str → ClientRow → Bool
is_client slug id r = r.tenant_slug == slug && r.client_id == id

abbrev pub is_code : Str → CodeRow → Bool
is_code hash r = r.code_hash == hash

abbrev pub is_none {ℓ} : {A : Type ℓ} → Option A → Bool
is_none none = true
is_none (some a) = false

-- WHERE code_hash = ? AND used_at IS NULL AND expires_at > ?
abbrev pub claimable : ℕ → Str → CodeRow → Bool
claimable now hash r = r.code_hash == hash && (is_none r.used_at && ltb now r.expires_at)

abbrev pub tenant_columns : TenantRow → Row
tenant_columns r =
    ("slug", text r.slug)
    ∷ ("display_name", text r.display_name)
    ∷ ("created_at", int r.created_at)
    ∷ ("expires_at", nullable r.expires_at)
    ∷ []

abbrev pub service_columns : ServiceRow → Row
service_columns r =
    ("name", text r.name)
    ∷ ("agent_key_hash", text r.agent_key_hash)
    ∷ ("auth_mode", text r.auth_mode)
    ∷ ("password_hash", text r.password_hash)
    ∷ ("created_at", int r.created_at)
    ∷ []

abbrev pub slug_columns : TenantRow → Row
slug_columns r = ("slug", text r.slug) ∷ []

abbrev pub rate_columns : RateRow → Row
rate_columns r = ("count", int r.hits) ∷ []

abbrev pub key_columns : KeyRow → Row
key_columns r = ("private_key_pem", text r.private_key_pem) ∷ []

abbrev pub client_columns : ClientRow → Row
client_columns r = ("redirect_uris", text r.redirect_uris) ∷ []

abbrev pub code_columns : CodeRow → Row
code_columns r =
    ("tenant_slug", text r.tenant_slug)
    ∷ ("client_id", text r.client_id)
    ∷ ("redirect_uri", text r.redirect_uri)
    ∷ ("code_challenge", text r.code_challenge)
    ∷ []

-- DELETE FROM tenants WHERE slug = ?, with the rows below the tenant in the other tables.
unfoldable pub cascade : Str → Tables → Tables
cascade slug t = record t {
  tenants = keep (λ r. not (is_tenant slug r)) t.tenants;
  services = keep (λ r. not (r.tenant_slug == slug)) t.services;
  signing_keys = keep (λ r. not (r.tenant_slug == slug)) t.signing_keys;
  oauth_clients = keep (λ r. not (r.tenant_slug == slug)) t.oauth_clients;
  auth_codes = keep (λ r. not (r.tenant_slug == slug)) t.auth_codes;
}

-- INSERT INTO services: the primary key, then the reference to the tenant.
unfoldable pub insert_service_row : ServiceRow → Tables → Outcome × Tables
insert_service_row r t =
    if any (is_service r.tenant_slug r.name) t.services
    then (failed unique_failed, t)
    else if any (is_tenant r.tenant_slug) t.tenants
    then (done [] 1, record t { services = r ∷ t.services })
    else (failed foreign_key_failed, t)

unfoldable pub run : Statement → Tables → Outcome × Tables
unfolding cascade insert_service_row
run (insert_tenant slug name created exp) t =
    if any (is_tenant slug) t.tenants then (failed unique_failed, t) else (
      done [] 1,
      record t {
        tenants =
            record { slug = slug; display_name = name; created_at = created; expires_at = exp }
            ∷ t.tenants;
      },
    )
run (select_tenant slug) t = (done (map tenant_columns (keep (is_tenant slug) t.tenants)) 0, t)
run (delete_tenant_row slug) t = (done [] (count (is_tenant slug) t.tenants), cascade slug t)
run (select_expired now) t = (done (map slug_columns (keep (is_expired now) t.tenants)) 0, t)
run (count_live now) t = (done ((("n", int (count (is_live now) t.tenants)) ∷ []) ∷ []) 0, t)
run (prune_rate oldest) t = (
  done [] (count (λ r. ltb r.window_start oldest) t.quick_rate),
  record t { quick_rate = keep (λ r. not (ltb r.window_start oldest)) t.quick_rate },
)
run (upsert_rate ip window) t =
    if any (is_rate ip window) t.quick_rate
    then (
      done [] 1,
      record t {
        quick_rate = update (is_rate ip window) (λ r. record r { hits = r.hits + 1 }) t.quick_rate;
      },
    )
    else (
      done [] 1,
      record t { quick_rate = record { ip = ip; window_start = window; hits = 1 } ∷ t.quick_rate },
    )
run (select_rate ip window) t =
    (done (map rate_columns (keep (is_rate ip window) t.quick_rate)) 0, t)
run (insert_service r) t = insert_service_row r t
run (insert_service_if_tenant r slug) t =
    if any (is_tenant slug) t.tenants then insert_service_row r t else (done [] 0, t)
run (select_service slug name) t =
    (done (map service_columns (keep (is_service slug name) t.services)) 0, t)
run (insert_signing_key slug pem created) t =
    if any (is_key slug) t.signing_keys
    then (done [] 0, t)
    else if any (is_tenant slug) t.tenants
    then (
      done [] 1,
      record t {
        signing_keys =
            record { tenant_slug = slug; private_key_pem = pem; created_at = created }
            ∷ t.signing_keys;
      },
    )
    else (failed foreign_key_failed, t)
run (select_signing_key slug) t = (done (map key_columns (keep (is_key slug) t.signing_keys)) 0, t)
run (insert_client slug id uris created) t =
    if any (is_client slug id) t.oauth_clients
    then (failed unique_failed, t)
    else if any (is_tenant slug) t.tenants
    then (
      done [] 1,
      record t {
        oauth_clients =
            record {
              tenant_slug = slug;
              client_id = id;
              redirect_uris = uris;
              created_at = created;
            }
            ∷ t.oauth_clients;
      },
    )
    else (failed foreign_key_failed, t)
run (select_client slug id) t =
    (done (map client_columns (keep (is_client slug id) t.oauth_clients)) 0, t)
run (insert_code hash slug id uri challenge expires) t =
    if any (is_code hash) t.auth_codes
    then (failed unique_failed, t)
    else if any (is_tenant slug) t.tenants
    then (
      done [] 1,
      record t {
        auth_codes =
            record {
              code_hash = hash;
              tenant_slug = slug;
              client_id = id;
              redirect_uri = uri;
              code_challenge = challenge;
              expires_at = expires;
              used_at = none;
            }
            ∷ t.auth_codes;
      },
    )
    else (failed foreign_key_failed, t)
run (claim_code now hash) t = (
  done [] (count (claimable now hash) t.auth_codes),
  record t {
    auth_codes = update (claimable now hash) (λ r. record r { used_at = some now }) t.auth_codes;
  },
)
run (select_code hash) t = (done (map code_columns (keep (is_code hash) t.auth_codes)) 0, t)
