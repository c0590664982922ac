-- ===== src/ControlPlane/Deletion.antt =====
-- DELETE /quick/{tenant}: only the holder of the agent key deletes a tunnel.
use mcptunnels.Prelude.{
  Str, Bool, true, false, not, Bool-cases, ◌||◌, some, List, [], ◌∷◌, ◌≡◌, ◌≢◌, ◌⊎◌, inl, inr,
  arith, any, find, keep, eq_iff, is_empty, any-keep-none,
}
use mcptunnels.Sql.{TenantRow, ServiceRow}
use mcptunnels.Sql.Run.{run, cascade, is_tenant, is_service}
use mcptunnels.Sql.Rows.{HasReferences}
use mcptunnels.Sql.Integrity.{IsSound}
use mcptunnels.Act.{Error, ok, err, Result-cases}
use mcptunnels.Driver.{Db, exec}
use mcptunnels.Store.{Bcrypt}
use mcptunnels.Sqlite.{sqlite_api, validate_agent_key, delete_tenant, get_service}
use mcptunnels.Sqlite.Tenants.{count-is_tenant}
use mcptunnels.Sqlite.Services.{validate_agent_key_sound}
use mcptunnels.ControlPlane.{DeleteRequest, no_content, handle_delete, bearer_key}

has_tenant :
    (p : ServiceRow → Bool) (ts : List TenantRow) (xs : List ServiceRow) (r : ServiceRow)
    → HasReferences (λ x. x.tenant_slug) ts xs
    → find p xs ≡ some r
    → any (is_tenant r.tenant_slug) ts ≡ true
unfolding find
has_tenant p ts [] r v h = ground arith
has_tenant p ts (x ∷ xs) r v h = ground (arith, has_tenant p ts xs r v.1)

find_slug :
    (slug name : Str) (xs : List ServiceRow) (r : ServiceRow)
    → find (is_service slug name) xs ≡ some r
    → r.tenant_slug ≡ slug
unfolding find
find_slug slug name [] r h = ground arith
find_slug slug name (x ∷ xs) r h =
    ground (arith, eq_iff x.tenant_slug slug, find_slug slug name xs r)

gone :
    (slug : Str) (ts : List TenantRow)
    → any (is_tenant slug) (keep (λ r. not (is_tenant slug r)) ts) ≡ false
gone slug ts = any-keep-none (is_tenant slug) _ (λ r p. ground arith) ts

-- What DeleteTenant leaves, in the three ways that it can end.
delete_outcomes :
    (slug : Str) (db : Db)
    → IsSound db.tables
    → any (is_tenant slug) db.tables.tenants ≡ true
    → (((delete_tenant slug db).0 ≡ ok true)
        × (any (is_tenant slug) (delete_tenant slug db).1.tables.tenants ≡ false))
      ⊎ (e : Error) × ((delete_tenant slug db).0 ≡ err e)
        × ((delete_tenant slug db).1.tables ≡ db.tables)
unfolding delete_tenant exec run cascade
delete_outcomes slug db v there =
    ground
      (arith, count-is_tenant slug db.tables.tenants v.tenant_keys, gone slug db.tables.tenants)

-- A method that reads leaves the tables.
validate_agent_key-tables :
    (bcrypt : Bcrypt) (slug name key : Str) (db : Db)
    → (validate_agent_key bcrypt slug name key db).1.tables ≡ db.tables
unfolding validate_agent_key get_service exec run
validate_agent_key-tables bcrypt slug name key db = ground arith

-- Over tables that meet the schema's constraints, and whatever the driver does, DELETE /quick/{tenant}
-- either answers 204, and then the key in the Authorization header is accepted by the hash of a
-- service of that tenant under the given name and the tenant is gone; or it answers otherwise, and then
-- all tables are as they were.
pub handle_delete_cases :
    (bcrypt : Bcrypt) (req : DeleteRequest) (db : Db)
    → IsSound db.tables
    → let (response, after) = handle_delete (sqlite_api bcrypt) req db in
      ((response ≡ no_content)
        × (any (is_tenant req.tenant) after.tables.tenants ≡ false)
        × ((r : ServiceRow) × (find (is_service req.tenant req.service_name) db.tables.services
              ≡ some r)
            × (bcrypt.compare_hash r.agent_key_hash (bearer_key req.authorization) ≡ true)))
      ⊎ (response ≢ no_content) × (after.tables ≡ db.tables)
unfolding handle_delete
handle_delete_cases bcrypt req db v =
    let key = bearer_key req.authorization in
    let checked = validate_agent_key bcrypt req.tenant req.service_name key db in
    let same = validate_agent_key-tables bcrypt req.tenant req.service_name key db in
    elim (Bool-cases (is_empty req.service_name || is_empty key)) [
      | inl e ↦ inr (ground (arith, e), ground (arith, e))
      | inr e ↦ elim (Result-cases checked.0) [
        | inr (x, e') ↦ inr (ground (arith, e, e'), ground (arith, e, e', same))
        | inl (svc, e') ↦
            let (r, at, _, _, accepts) =
              validate_agent_key_sound bcrypt req.tenant req.service_name key svc db e' in
            let there : any (is_tenant req.tenant) db.tables.tenants ≡ true =
              rw (find_slug _ _ db.tables.services r at) at
                (has_tenant _ db.tables.tenants db.tables.services r v.service_tenants at) in
            elim (delete_outcomes req.tenant checked.1 (rw same v) (rw same there)) [
              | inl (done, left) ↦
                  inl (
                    ground (arith, e, e', done),
                    ground (arith, e, e', done, left),
                    (r, at, accepts),
                  )
              | inr (x, failed, left) ↦
                  inr (ground (arith, e, e', failed), ground (arith, e, e', failed, left, same))
            ]
      ]
    ]
