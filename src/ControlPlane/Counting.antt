-- ===== src/ControlPlane/Counting.antt =====
-- What POST /quick of internal/controlplane/controlplane.go does to the counters of the addresses, over the
-- SQLite store without driver failures.
use mcptunnels.Prelude.{
  ℕ, zero, suc, ◌+◌, Str, lit, Bool, true, false, some, List, ◌≡◌, inl, inr, refl, arith,
  Option-cases, none,
}
use mcptunnels.Sql.{RateRow, Statement, Row}
use mcptunnels.Sql.Run.{run}
use mcptunnels.Act.{Result, lift, Result-cases}
use mcptunnels.Act.Keeps.{Keeps, pure-Keeps, lift-Keeps, bind-Keeps}
use mcptunnels.Driver.{Db, exec}
use mcptunnels.Store.{Service, Bcrypt}
use mcptunnels.Sqlite.{
  sqlite_api, insert_unique, query_row, get_tenant, create_service, create_signing_key,
  count_live_tenants, new_agent_key, create_tenant_expiry,
}
use mcptunnels.Sqlite.Queries.{IsHealthy}
use mcptunnels.ControlPlane.{
  Body, no_body, bad_json, decoded, Environment, within_capacity, read_body, create_tunnel,
  add_service, finish_quick, create_quick_tenant, quick_slug, mcp_service, password_hash, quick_ttl,
}

module _ (rs : List RateRow) where
  -- The counters, where no failure is to come.
  abbrev pub HasRates : Db → Type 0
  HasRates db = (db.tables.quick_rate ≡ rs) × IsHealthy db

  abbrev Apart : Statement → Type 0
  Apart st = (db : Db) → (run st db.tables).1.quick_rate ≡ db.tables.quick_rate

  exec-HasRates : (st : Statement) → Apart st → Keeps HasRates (exec st)
  unfolding exec
  exec-HasRates st h = record { holds = λ db v. (ground (arith, h db, v), ground (arith, v)) }

  query_row-HasRates :
      {A : Type 0} (st : Statement) (scan : Row → Result A)
      → Apart st
      → Keeps HasRates (query_row st scan)
  unfolding query_row
  query_row-HasRates st scan h = bind-Keeps (exec st) _ (exec-HasRates st h) (λ a. lift-Keeps _)

  insert_unique-HasRates : (st : Statement) → Apart st → Keeps HasRates (insert_unique st)
  unfolding insert_unique
  insert_unique-HasRates st h = record {
    holds = λ db v.
        let (a, b) = (exec-HasRates st h).holds db v in (ground (arith, a), ground (arith, b));
  }

  count_live_tenants-HasRates : (now : ℕ) → Keeps HasRates (count_live_tenants now)
  unfolding count_live_tenants run
  count_live_tenants-HasRates now = query_row-HasRates _ _ (λ db. refl)

  create_signing_key-HasRates :
      (slug pem : Str) (now : ℕ) → Keeps HasRates (create_signing_key slug pem now)
  unfolding create_signing_key run
  create_signing_key-HasRates slug pem now =
      bind-Keeps (exec _) _ (exec-HasRates _ (λ db. ground arith)) (λ a. pure-Keeps _)

  create_tenant-HasRates :
      (slug name : Str) (expires now : ℕ)
      → Keeps HasRates (create_tenant_expiry slug name (some expires) now)
  unfolding create_tenant_expiry run
  create_tenant-HasRates slug name expires now = insert_unique-HasRates _ (λ db. ground arith)

  create_service-HasRates :
      (bcrypt : Bcrypt) (random salt slug : Str) (svc : Service) (now : ℕ)
      → Keeps HasRates (create_service bcrypt random salt slug svc now)
  unfolding create_service get_tenant run
  create_service-HasRates bcrypt random salt slug svc now =
      bind-Keeps (query_row _ _) _ (query_row-HasRates _ _ (λ db. refl)) λ t.
        bind-Keeps (lift (new_agent_key bcrypt random salt)) _ (lift-Keeps _) λ k.
          bind-Keeps (insert_unique _) _ (insert_unique-HasRates _ (λ db. ground arith))
            λ u. pure-Keeps _

  module _ (bcrypt : Bcrypt) (env : Environment) where
    create_quick_tenant-HasRates :
        (tries i expires : ℕ) (db : Db)
        → HasRates db
        → HasRates (create_quick_tenant (sqlite_api bcrypt) bcrypt env tries i expires db).1
    unfolding create_quick_tenant
    create_quick_tenant-HasRates zero i expires db h = h
    create_quick_tenant-HasRates (suc tries) i expires db h =
        let slug = quick_slug (env.draw i) in
        let name = lit "quick tunnel" in
        let made = create_tenant_expiry slug name (some expires) env.tenant_time db in
        let (a, b) = (create_tenant-HasRates slug name expires env.tenant_time).holds db h in
        let (c, d) = create_quick_tenant-HasRates tries (i + 1) expires made.1 (a, b) in
        (ground (arith, a, c), ground (arith, b, d))

    finish_quick-HasRates :
        (auth : Bool) (slug key : Str) (expires : ℕ) (db : Db)
        → HasRates db
        → HasRates (finish_quick (sqlite_api bcrypt) bcrypt env auth slug key expires db).1
    unfolding finish_quick
    finish_quick-HasRates false slug key expires db h = h
    finish_quick-HasRates true slug key expires db h = elim (Option-cases env.generated_pem) [
      | inl e ↦ (ground (arith, e, h), ground (arith, e, h))
      | inr (pem, e) ↦
          let (a, b) = (create_signing_key-HasRates slug pem env.key_time).holds db h in
          (ground (arith, e, a), ground (arith, e, b))
    ]

    add_service-HasRates :
        (auth : Bool) (hash slug : Str) (expires : ℕ) (db : Db)
        → HasRates db
        → HasRates (add_service (sqlite_api bcrypt) bcrypt env auth hash slug expires db).1
    unfolding add_service
    add_service-HasRates auth hash slug expires db h =
        let svc = mcp_service (sqlite_api bcrypt) bcrypt env auth hash in
        let made = create_service bcrypt env.key_random env.key_salt slug svc env.service_time db in
        let (a, b) =
          (create_service-HasRates bcrypt env.key_random env.key_salt slug svc
              env.service_time).holds
            db h in
        elim (Result-cases made.0) [
          | inl (key, e) ↦
              let (c, d) = finish_quick-HasRates auth slug key expires made.1 (a, b) in
              (ground (arith, e, c), ground (arith, e, d))
          | inr (x, e) ↦ (ground (arith, e, a), ground (arith, e, b))
        ]

    create_tunnel-HasRates :
        (auth : Bool) (password : Str) (db : Db)
        → HasRates db
        → HasRates (create_tunnel (sqlite_api bcrypt) bcrypt env auth password db).1
    unfolding create_tunnel
    create_tunnel-HasRates auth password db h =
        let expires : ℕ = env.expiry_time + quick_ttl in
        let made = create_quick_tenant (sqlite_api bcrypt) bcrypt env 10 0 expires db in
        let (a, b) = create_quick_tenant-HasRates 10 0 expires db h in
        let hash = password_hash (sqlite_api bcrypt) bcrypt env auth password in
        elim (Result-cases made.0) [
          | inr (x, e) ↦ (ground (arith, e, a), ground (arith, e, b))
          | inl (slug, e) ↦ elim (Result-cases hash) [
            | inr (x, e') ↦ (ground (arith, e, e', a), ground (arith, e, e', b))
            | inl (k, e') ↦
                let (c, d) = add_service-HasRates auth k slug expires made.1 (a, b) in
                (ground (arith, e, e', c), ground (arith, e, e', d))
          ]
        ]

    checked-HasRates :
        (auth : Bool) (password : Str) (db : Db)
        → HasRates db
        → HasRates (read_body (sqlite_api bcrypt) bcrypt env (decoded (some auth) password) db).1
    unfolding read_body
    checked-HasRates auth password db h =
        let (a, b) = create_tunnel-HasRates auth password db h in
        (ground (arith, a, h), ground (arith, b, h))

    read_body-HasRates :
        (body : Body) (db : Db)
        → HasRates db
        → HasRates (read_body (sqlite_api bcrypt) bcrypt env body db).1
    unfolding read_body
    read_body-HasRates no_body db h = h
    read_body-HasRates bad_json db h = h
    read_body-HasRates (decoded none password) db h = checked-HasRates true password db h
    read_body-HasRates (decoded (some auth) password) db h = checked-HasRates auth password db h

    pub within_capacity-HasRates :
        (body : Body) (db : Db)
        → HasRates db
        → HasRates (within_capacity (sqlite_api bcrypt) bcrypt env body db).1
    unfolding within_capacity
    within_capacity-HasRates body db h =
        let counted = count_live_tenants env.count_time db in
        let (a, b) = (count_live_tenants-HasRates env.count_time).holds db h in
        let (c, d) = read_body-HasRates body counted.1 (a, b) in
        elim (Result-cases counted.0) [
          | inr (x, e) ↦ (ground (arith, e, a), ground (arith, e, b))
          | inl (n, e) ↦ (ground (arith, e, a, c), ground (arith, e, b, d))
        ]
