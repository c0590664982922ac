-- ===== src/Examples/Tunnels.antt =====
-- The theorems on quick tunnels at concrete requests.
use mcptunnels.Prelude.{
  ◌+◌, ◌≤◌, List, Str, lit, true, false, none, some, [], ◌∷◌, ◌≡◌, ◌≢◌, ◌⊎◌, refl, arith, keep, any,
  find, count, update, ◌==◌, is_empty, hex_encode,
}
use mcptunnels.Sql.{ServiceRow}
use mcptunnels.Sql.Run.{run, is_service, is_tenant}
use mcptunnels.Act.{ok}
use mcptunnels.Driver.{exec}
use mcptunnels.Store.{Service}
use mcptunnels.Sqlite.{
  quick_rate_hit, count_live_tenants, create_tenant_expiry, hash_secret, create_service,
  create_signing_key, sqlite_api, get_tenant, validate_password, validate_agent_key,
}
use mcptunnels.Sqlite.Queries.{to_tenant}
use mcptunnels.ControlPlane.{
  QuickRequest, decoded, bad_json, Environment, json_error, no_content, handle_quick, DeleteRequest,
  handle_delete, quick_slug, bearer_key, quick_ttl,
}
use mcptunnels.ControlPlane.Quick.{handle_quick_created}
use mcptunnels.ControlPlane.Tunnel.{new_tenant_row}
use mcptunnels.ControlPlane.Limits.{live, handle_quick-live_cap}
use mcptunnels.ControlPlane.Attempts.{post_all, handle_quick-post_all}
use mcptunnels.ControlPlane.Deletion.{handle_delete_cases}
use mcptunnels.Examples.{simple_bcrypt, acme, acme_db, acme-IsSound}

abbrev pub noon : Environment
noon = record {
  split_host = λ addr. none;
  rate_time = 7200;
  count_time = 7200;
  expiry_time = 7200;
  tenant_time = 7200;
  service_time = 7200;
  key_time = 7200;
  draw = λ i. i ∷ 1 ∷ 2 ∷ [];
  password_salt = [];
  key_random = 7 ∷ [];
  key_salt = [];
  generated_pem = some (lit "pem");
}

abbrev pub secret_request : QuickRequest
secret_request = record { remote_addr = lit "10.0.0.1"; body = decoded none (lit "pw") }

abbrev pub made_slug : Str
made_slug = lit "q-abc"

abbrev pub made_key : Str
made_key = lit "tun_agent_07"

handle_quick_created_example :
    let after =
      (handle_quick (sqlite_api simple_bcrypt) simple_bcrypt noon secret_request acme_db).1 in
    ((get_tenant made_slug after).0 ≡ ok (to_tenant (new_tenant_row simple_bcrypt noon made_slug)))
    × (7200 + quick_ttl ≡ 7200 + quick_ttl)
    × ((validate_password simple_bcrypt made_slug (lit "mcp") (lit "pw") after).0 ≡ ok true)
    × ((svc : Service) × ((validate_agent_key simple_bcrypt made_slug (lit "mcp") made_key after).0
          ≡ ok svc)
        × (svc.auth_mode ≡ lit "oauth")
        × (is_empty svc.password_hash ≡ false))
unfolding handle_quick exec run any find keep count update ◌==◌ hex_encode quick_rate_hit
    count_live_tenants create_tenant_expiry quick_slug hash_secret create_service create_signing_key
handle_quick_created_example =
    handle_quick_created simple_bcrypt noon secret_request made_slug made_key (7200 + quick_ttl)
      acme_db refl refl

-- One host at any port, with requests whose bodies are not JSON, and then a proper one.
abbrev one_host : Environment
one_host = record noon { split_host = λ addr. some (lit "10.0.0.1") }

abbrev attempt : Str → Environment × QuickRequest
attempt addr = (one_host, record { remote_addr = addr; body = bad_json })

abbrev attempts : List (Environment × QuickRequest)
attempts =
    attempt (lit "10.0.0.1:1")
    ∷ attempt (lit "10.0.0.1:2")
    ∷ attempt (lit "10.0.0.1:3")
    ∷ attempt (lit "10.0.0.1:4")
    ∷ attempt (lit "10.0.0.1:5")
    ∷ attempt (lit "10.0.0.1:6")
    ∷ attempt (lit "10.0.0.1:7")
    ∷ attempt (lit "10.0.0.1:8")
    ∷ attempt (lit "10.0.0.1:9")
    ∷ attempt (lit "10.0.0.1:10")
    ∷ []

handle_quick-post_all_example :
    let tried = post_all simple_bcrypt attempts acme_db in
    let hit = (quick_rate_hit (lit "10.0.0.1") 7200 tried).1 in
    (handle_quick (sqlite_api simple_bcrypt) simple_bcrypt one_host secret_request tried
      ≡ (json_error 429 "quick tunnel rate limit exceeded; try again later", hit))
    × (hit.tables.tenants ≡ tried.tables.tenants)
unfolding find
handle_quick-post_all_example =
    handle_quick-post_all simple_bcrypt (lit "10.0.0.1") attempts one_host secret_request acme_db
      refl
      (
        (refl, refl),
        (
          (refl, refl),
          (
            (refl, refl),
            (
              (refl, refl),
              (
                (refl, refl),
                ((refl, refl), ((refl, refl), ((refl, refl), ((refl, refl), ((refl, refl), tt))))),
              ),
            ),
          ),
        ),
      )
      refl

handle_quick-live_cap_example :
    live simple_bcrypt noon 7200
      (handle_quick (sqlite_api simple_bcrypt) simple_bcrypt noon secret_request acme_db).1
    ≤ 500
unfolding count
handle_quick-live_cap_example =
    handle_quick-live_cap simple_bcrypt noon secret_request acme_db (ground arith)

abbrev delete_request : DeleteRequest
delete_request = record {
  tenant = acme;
  service_name = lit "mcp";
  authorization = lit "Bearer key";
}

handle_delete_cases_example :
    let (response, after) = handle_delete (sqlite_api simple_bcrypt) delete_request acme_db in
    ((response ≡ no_content)
      × (any (is_tenant acme) after.tables.tenants ≡ false)
      × ((r : ServiceRow) × (find (is_service acme (lit "mcp")) acme_db.tables.services ≡ some r)
          × (simple_bcrypt.compare_hash r.agent_key_hash (bearer_key (lit "Bearer key")) ≡ true)))
    ⊎ (response ≢ no_content) × (after.tables ≡ acme_db.tables)
handle_delete_cases_example = handle_delete_cases simple_bcrypt delete_request acme_db acme-IsSound
