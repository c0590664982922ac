-- ===== src/ControlPlane/Tunnel.antt =====
-- What the handler of POST /quick leaves in the store: the tenant, the service and their fields.
use mcptunnels.Prelude.{
  ℕ, zero, suc, ◌+◌, Str, lit, Bool, true, false, some, Option-cases, List, [], ◌∷◌, ◌≡◌, inl, inr,
  sym, ◌∙◌, arith, is_empty, Bool-cases,
}
use mcptunnels.Sql.{TenantRow, ServiceRow}
use mcptunnels.Sql.Run.{run}
use mcptunnels.Act.{ok, Result-cases}
use mcptunnels.Driver.{Db, exec}
use mcptunnels.Store.{Bcrypt, Service}
use mcptunnels.Sqlite.{sqlite_api, create_service, create_signing_key, check_secret, agent_key_of}
use mcptunnels.Sqlite.Queries.{IsHealthy}
use mcptunnels.Sqlite.Tenants.{taken, with_tenant, create_tenant_lem}
use mcptunnels.Sqlite.Services.{service_row, create_service_lem, key_accepted, drawn_key}
use mcptunnels.ControlPlane.{
  Environment, created, create_tunnel, add_service, finish_quick, create_quick_tenant, quick_slug,
  mcp_service, password_hash, quick_ttl,
}

module _ (bcrypt : Bcrypt) (env : Environment) where
  -- Where a slug was found, the tenant with that slug is the only change.
  create_quick_tenant_lem :
      (tries i expires : ℕ) (slug : Str) (db : Db)
      → IsHealthy db
      → (create_quick_tenant (sqlite_api bcrypt) bcrypt env tries i expires db).0 ≡ ok slug
      → (taken slug db ≡ false)
        × ((j : ℕ) × (slug ≡ quick_slug (env.draw j)))
        × ((create_quick_tenant (sqlite_api bcrypt) bcrypt env tries i expires db).1
            ≡ with_tenant slug (lit "quick tunnel") (some expires) env.tenant_time db)
  unfolding create_quick_tenant
  create_quick_tenant_lem zero i expires slug db h e = absurd (ground arith)
  create_quick_tenant_lem (suc tries) i expires slug db h e =
      let drawn = quick_slug (env.draw i) in
      let made = create_tenant_lem drawn (lit "quick tunnel") (some expires) env.tenant_time db h in
      elim (Bool-cases (taken drawn db)) [
        | inl t ↦
            let (free, drawn_at, state) =
              create_quick_tenant_lem tries (i + 1) expires slug db h (ground (arith, made, t)) in
            (free, drawn_at, ground (arith, made, t, state))
        | inr t ↦ (ground (arith, made, t), (i, ground (arith, made, t)), ground (arith, made, t))
      ]

  abbrev with_service : Str → Service → Str → Db → Db
  with_service slug svc hash db = record db {
    tables = record (db.tables) {
      services = service_row bcrypt slug svc hash env.service_time ∷ db.tables.services;
    };
  }

  abbrev with_key : Str → Str → Db → Db
  with_key slug pem db = record db {
    tables = record (db.tables) {
      signing_keys =
          record { tenant_slug = slug; private_key_pem = pem; created_at = env.key_time }
          ∷ db.tables.signing_keys;
    };
  }

  -- The store after the tunnel's signing key, where it has OAuth.
  finish_quick_lem :
      (auth : Bool) (slug slug' key key' : Str) (expires expires' : ℕ) (db : Db)
      → IsHealthy db
      → (finish_quick (sqlite_api bcrypt) bcrypt env auth slug key expires db).0
        ≡ created slug' key' expires'
      → (slug ≡ slug')
        × (key ≡ key')
        × (expires ≡ expires')
        × ((finish_quick (sqlite_api bcrypt) bcrypt env auth slug key expires db).1.tables.tenants
            ≡ db.tables.tenants)
        × ((finish_quick (sqlite_api bcrypt) bcrypt env auth slug key expires db).1.tables.services
            ≡ db.tables.services)
        × ((finish_quick (sqlite_api bcrypt) bcrypt env auth slug key expires db).1.faults ≡ [])
  unfolding finish_quick create_signing_key exec run
  finish_quick_lem false slug slug' key key' expires expires' db h e = ground arith
  finish_quick_lem true slug slug' key key' expires expires' db h e =
      elim (Option-cases env.generated_pem) [
        | inl g ↦ absurd (ground (arith, g))
        | inr (pem, g) ↦ (
          ground (arith, g),
          ground (arith, g),
          ground (arith, g),
          ground (arith, g),
          ground (arith, g),
          ground (arith, g),
        )
      ]

  -- The tenants, services and health of a store.
  abbrev pub Holds : List TenantRow → List ServiceRow → Db → Type 0
  Holds ts ss db = (db.tables.tenants ≡ ts) × (db.tables.services ≡ ss) × IsHealthy db

  abbrev pub new_service : Bool → Str → Str → Str → ServiceRow
  new_service auth hash slug agent_hash =
      service_row bcrypt slug (mcp_service (sqlite_api bcrypt) bcrypt env auth hash) agent_hash
        env.service_time

  add_service_lem :
      (auth : Bool) (hash slug slug' key : Str) (expires expires' : ℕ) (db : Db)
      → IsHealthy db
      → (add_service (sqlite_api bcrypt) bcrypt env auth hash slug expires db).0
        ≡ created slug' key expires'
      → (slug ≡ slug')
        × (expires ≡ expires')
        × ((agent_hash : Str) × (key ≡ agent_key_of env.key_random)
            × (is_empty key ≡ false)
            × (check_secret bcrypt agent_hash key ≡ true)
            × Holds db.tables.tenants
                (new_service auth hash slug agent_hash ∷ db.tables.services)
                (add_service (sqlite_api bcrypt) bcrypt env auth hash slug expires db).1)
  unfolding add_service
  add_service_lem auth hash slug slug' key expires expires' db h e =
      let svc = mcp_service (sqlite_api bcrypt) bcrypt env auth hash in
      let made = create_service bcrypt env.key_random env.key_salt slug svc env.service_time db in
      elim (Result-cases made.0) [
        | inr (x, r) ↦ absurd (ground (arith, r))
        | inl (key', r) ↦
            let (agent_hash, drawn, state) =
              create_service_lem bcrypt env.key_random env.key_salt slug key' svc env.service_time
                db h r in
            let (full, accepts) =
              key_accepted bcrypt env.key_random env.key_salt key' agent_hash drawn in
            let healthy : IsHealthy made.1 = rw state h in
            let finished : (finish_quick (sqlite_api bcrypt) bcrypt env auth slug key' expires
                  made.1).0
                ≡ created slug' key expires' =
              ground (arith, r) in
            let (s, k, x, ts, ss, f) =
              finish_quick_lem auth slug slug' key' key expires expires' made.1 healthy finished in
            (
              s,
              x,
              (
                agent_hash,
                rw (← k) (drawn_key bcrypt env.key_random env.key_salt key' agent_hash drawn),
                rw (← k) full,
                rw (← k) accepts,
                (ground (arith, r, ts, state), ground (arith, r, ss, state), ground (arith, r, f)),
              ),
            )
      ]

  abbrev pub new_tenant_row : Str → TenantRow
  new_tenant_row slug = record {
    slug = slug;
    display_name = lit "quick tunnel";
    created_at = env.tenant_time;
    expires_at = some (env.expiry_time + quick_ttl);
  }

  -- What a created tunnel leaves in the store: its tenant, and its service with the two hashes.
  abbrev pub Tunnel : Bool → Str → Str → Str → Db → Type 0
  Tunnel auth password slug key db =
      (ts : List TenantRow) × (ss : List ServiceRow) × (hash : Str) × (agent_hash : Str)
      × (password_hash (sqlite_api bcrypt) bcrypt env auth password ≡ ok hash)
      × ((i : ℕ) × (slug ≡ quick_slug (env.draw i)))
      × (key ≡ agent_key_of env.key_random)
      × (is_empty key ≡ false)
      × (check_secret bcrypt agent_hash key ≡ true)
      × Holds (new_tenant_row slug ∷ ts) (new_service auth hash slug agent_hash ∷ ss) db

  pub create_tunnel_lem :
      (auth : Bool) (password slug key : Str) (expires : ℕ) (db : Db)
      → IsHealthy db
      → (create_tunnel (sqlite_api bcrypt) bcrypt env auth password db).0 ≡ created slug key expires
      → (expires ≡ env.expiry_time + quick_ttl)
        × Tunnel auth password slug key
            (create_tunnel (sqlite_api bcrypt) bcrypt env auth password db).1
  unfolding create_tunnel
  create_tunnel_lem auth password slug key expires db h e =
      let until : ℕ = env.expiry_time + quick_ttl in
      let made = create_quick_tenant (sqlite_api bcrypt) bcrypt env 10 0 until db in
      elim (Result-cases made.0) [
        | inr (x, r) ↦ absurd (ground (arith, r))
        | inl (drawn, r) ↦
            elim (Result-cases (password_hash (sqlite_api bcrypt) bcrypt env auth password)) [
              | inr (x, p) ↦ absurd (ground (arith, r, p))
              | inl (hash, p) ↦
                  let (free, drawn_at, state) = create_quick_tenant_lem 10 0 until drawn db h r in
                  let healthy : IsHealthy made.1 = rw state h in
                  let added : (add_service (sqlite_api bcrypt) bcrypt env auth hash drawn until
                        made.1).0
                      ≡ created slug key expires =
                    ground (arith, r, p) in
                  let (s, x, rest) =
                    add_service_lem auth hash drawn slug key until expires made.1 healthy added in
                  let (agent_hash, drawn_key, full, accepts, holds) = rest in
                  (
                    sym x,
                    (
                      db.tables.tenants,
                      db.tables.services,
                      hash,
                      agent_hash,
                      p,
                      (drawn_at.0, sym s ∙ drawn_at.1),
                      drawn_key,
                      full,
                      accepts,
                      (
                        ground (arith, r, p, holds.0, state, s),
                        ground (arith, r, p, holds.1, state, s),
                        ground (arith, r, p, holds.2),
                      ),
                    ),
                  )
            ]
      ]
