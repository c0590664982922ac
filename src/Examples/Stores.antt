-- ===== src/Examples/Stores.antt =====
-- The theorems on the SQLite store at concrete values.
use mcptunnels.Prelude.{keep, not, ◌≡◌, if◌then◌else◌, lit, none, refl}
use mcptunnels.Act.{err, not_found}
use mcptunnels.Sql.Run.{is_expired}
use mcptunnels.Sqlite.{delete_expired_tenants, count_live_tenants, get_tenant, get_service}
use mcptunnels.Sqlite.Sweep.{names, listed, tenants-delete_expired, get-delete_expired}
use mcptunnels.Examples.{acme, acme_db, acme-IsSound}

tenants-delete_expired_example :
    let after = (delete_expired_tenants 1000 acme_db).1 in
    ((delete_expired_tenants 1000 acme_db).0
      ≡ (names (keep (is_expired 1000) acme_db.tables.tenants), none))
    × (after.tables.tenants ≡ keep (λ r. not (is_expired 1000 r)) acme_db.tables.tenants)
    × ((count_live_tenants 1000 after).0 ≡ (count_live_tenants 1000 acme_db).0)
tenants-delete_expired_example = tenants-delete_expired 1000 acme_db refl acme-IsSound

get-delete_expired_example :
    let (swept, after) = delete_expired_tenants 1000 acme_db in
    ((get_tenant acme after).0
      ≡ (if listed swept.0 acme then err not_found else (get_tenant acme acme_db).0))
    × ((get_service acme (lit "mcp") after).0
        ≡ (if listed swept.0 acme then err not_found else (get_service acme (lit "mcp") acme_db).0))
get-delete_expired_example = get-delete_expired 1000 acme (lit "mcp") acme_db refl
