-- ===== src/Sql/Integrity.antt =====
-- The schema's constraints, which every statement keeps: no two rows of a table share a primary
-- key, and every row below a tenant names a tenant that is there.
use mcptunnels.Prelude.{ℕ, Str, Option, List, refl, arith, any, Bool-cases, inl, inr}
use mcptunnels.Sql.{
  Tables, TenantRow, ServiceRow, RateRow, CodeRow, Statement, insert_tenant, delete_tenant_row,
  prune_rate, upsert_rate, insert_service, insert_service_if_tenant, insert_signing_key,
  insert_client, insert_code, claim_code, no_rows,
}
use mcptunnels.Sql.Run.{
  run, cascade, insert_service_row, is_tenant, is_service, is_rate, is_key, is_client, is_code,
  claimable,
}
use mcptunnels.Sql.Rows.{
  HasDistinct, HasReferences, keep-HasDistinct, update-HasDistinct, cascade-HasReferences,
  HasReferences-grow, update-HasReferences,
}

pub record IsSound (t : Tables) : Type 0 where
  pub tenant_keys : HasDistinct (λ r. is_tenant r.slug) t.tenants
  pub service_keys : HasDistinct (λ r. is_service r.tenant_slug r.name) t.services
  pub rate_keys : HasDistinct (λ r. is_rate r.ip r.window_start) t.quick_rate
  pub signing_key_keys : HasDistinct (λ r. is_key r.tenant_slug) t.signing_keys
  pub client_keys : HasDistinct (λ r. is_client r.tenant_slug r.client_id) t.oauth_clients
  pub code_keys : HasDistinct (λ r. is_code r.code_hash) t.auth_codes
  pub service_tenants : HasReferences (λ r. r.tenant_slug) t.tenants t.services
  pub key_tenants : HasReferences (λ r. r.tenant_slug) t.tenants t.signing_keys
  pub client_tenants : HasReferences (λ r. r.tenant_slug) t.tenants t.oauth_clients
  pub code_tenants : HasReferences (λ r. r.tenant_slug) t.tenants t.auth_codes

pub no_rows-IsSound : IsSound no_rows
no_rows-IsSound = ground arith

cascade-IsSound : (slug : Str) {t : Tables} → IsSound t → IsSound (cascade slug t)
unfolding cascade
cascade-IsSound slug {t} v = record {
  tenant_keys = keep-HasDistinct _ _ t.tenants v.tenant_keys;
  service_keys = keep-HasDistinct _ _ t.services v.service_keys;
  rate_keys = v.rate_keys;
  signing_key_keys = keep-HasDistinct _ _ t.signing_keys v.signing_key_keys;
  client_keys = keep-HasDistinct _ _ t.oauth_clients v.client_keys;
  code_keys = keep-HasDistinct _ _ t.auth_codes v.code_keys;
  service_tenants =
      cascade-HasReferences (λ r. r.tenant_slug) slug t.tenants t.services v.service_tenants;
  key_tenants =
      cascade-HasReferences (λ r. r.tenant_slug) slug t.tenants t.signing_keys v.key_tenants;
  client_tenants =
      cascade-HasReferences (λ r. r.tenant_slug) slug t.tenants t.oauth_clients v.client_tenants;
  code_tenants =
      cascade-HasReferences (λ r. r.tenant_slug) slug t.tenants t.auth_codes v.code_tenants;
}

insert_service_row-IsSound :
    (r : ServiceRow) {t : Tables} → IsSound t → IsSound (insert_service_row r t).1
unfolding insert_service_row
insert_service_row-IsSound r v = ground arith

-- The rate counters refer to nothing, so only their own keys matter.
rates-IsSound :
    (rs : List RateRow) {t : Tables}
    → HasDistinct (λ r. is_rate r.ip r.window_start) rs
    → IsSound t
    → IsSound (record t { quick_rate = rs })
rates-IsSound rs d v = record {
  tenant_keys = v.tenant_keys;
  service_keys = v.service_keys;
  rate_keys = d;
  signing_key_keys = v.signing_key_keys;
  client_keys = v.client_keys;
  code_keys = v.code_keys;
  service_tenants = v.service_tenants;
  key_tenants = v.key_tenants;
  client_tenants = v.client_tenants;
  code_tenants = v.code_tenants;
}

upsert-IsSound :
    (ip : Str) (window : ℕ) {t : Tables} → IsSound t → IsSound (run (upsert_rate ip window) t).1
unfolding run
upsert-IsSound ip window {t} v = elim (Bool-cases (any (is_rate ip window) t.quick_rate)) [
  | inl e ↦ rw e (
      rates-IsSound _
        (update-HasDistinct (λ (r : RateRow). is_rate r.ip r.window_start) (is_rate ip window) _
          (λ x y. refl) (λ x y. refl) t.quick_rate v.rate_keys)
        v)
  | inr e ↦ rw e (rates-IsSound _ (e, v.rate_keys) v)
]

claim-IsSound :
    (now : ℕ) (hash : Str) {t : Tables} → IsSound t → IsSound (run (claim_code now hash) t).1
unfolding run
claim-IsSound now hash {t} v = record {
  tenant_keys = v.tenant_keys;
  service_keys = v.service_keys;
  rate_keys = v.rate_keys;
  signing_key_keys = v.signing_key_keys;
  client_keys = v.client_keys;
  code_keys =
      update-HasDistinct (λ (r : CodeRow). is_code r.code_hash) (claimable now hash) _ (λ x y. refl)
        (λ x y. refl) t.auth_codes v.code_keys;
  service_tenants = v.service_tenants;
  key_tenants = v.key_tenants;
  client_tenants = v.client_tenants;
  code_tenants =
      update-HasReferences (λ r. r.tenant_slug) t.tenants (claimable now hash) _ (λ x. refl)
        t.auth_codes v.code_tenants;
}

insert_tenant-IsSound :
    (slug name : Str) (created : ℕ) (exp : Option ℕ) {t : Tables}
    → IsSound t
    → IsSound (run (insert_tenant slug name created exp) t).1
unfolding run
insert_tenant-IsSound slug name created exp {t} v =
    elim (Bool-cases (any (is_tenant slug) t.tenants)) [
      | inl e ↦ rw e v
      | inr e ↦
          let row : TenantRow = record {
            slug = slug;
            display_name = name;
            created_at = created;
            expires_at = exp;
          } in
          rw e (record {
            tenant_keys = (e, v.tenant_keys);
            service_keys = v.service_keys;
            rate_keys = v.rate_keys;
            signing_key_keys = v.signing_key_keys;
            client_keys = v.client_keys;
            code_keys = v.code_keys;
            service_tenants = HasReferences-grow _ row t.tenants t.services v.service_tenants;
            key_tenants = HasReferences-grow _ row t.tenants t.signing_keys v.key_tenants;
            client_tenants = HasReferences-grow _ row t.tenants t.oauth_clients v.client_tenants;
            code_tenants = HasReferences-grow _ row t.tenants t.auth_codes v.code_tenants;
          })
    ]

-- Every statement, with any parameters and whether it fails or not, keeps the constraints.
pub run-IsSound : (st : Statement) (t : Tables) → IsSound t → IsSound (run st t).1
unfolding run
run-IsSound (insert_tenant slug name created exp) t v =
    insert_tenant-IsSound slug name created exp v
run-IsSound (delete_tenant_row slug) t v = cascade-IsSound slug v
run-IsSound (prune_rate oldest) t v =
    rates-IsSound _ (keep-HasDistinct _ _ t.quick_rate v.rate_keys) v
run-IsSound (upsert_rate ip window) t v = upsert-IsSound ip window v
run-IsSound (insert_service r) t v = insert_service_row-IsSound r v
run-IsSound (insert_service_if_tenant r slug) t v = ground (arith, insert_service_row-IsSound r v)
run-IsSound (insert_signing_key slug pem created) t v = ground arith
run-IsSound (insert_client slug id uris created) t v = ground arith
run-IsSound (insert_code hash slug id uri challenge expires) t v = ground arith
run-IsSound (claim_code now hash) t v = claim-IsSound now hash v
run-IsSound st t v = v
