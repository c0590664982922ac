-- ===== src/ControlPlane/Quick.antt =====
-- What a tunnel that POST /quick has answered with 201 can be used for.
use mcptunnels.ControlPlane.Tunnel.{new_service, Tunnel, new_tenant_row, create_tunnel_lem}
use mcptunnels.Prelude.{
  ℕ, ◌+◌, Str, lit, Bool, true, false, not, ◌||◌, ◌&&◌, none, some, Option-cases, [], ◌≡◌, inl, inr,
  refl, arith, find, eq_refl, is_empty, if◌then◌else◌, Bool-cases,
}
use mcptunnels.Sql.Run.{is_service}
use mcptunnels.Act.{ok}
use mcptunnels.Driver.{Db}
use mcptunnels.Store.{Bcrypt, Service}
use mcptunnels.Sqlite.{
  sqlite_api, quick_rate_hit, get_tenant, validate_agent_key, validate_password, or_oauth,
  check_secret, hash_secret,
}
use mcptunnels.Sqlite.Queries.{
  IsHealthy, to_service, to_tenant, get_tenant_lem, get_service_lem, count_live_tenants_lem,
}
use mcptunnels.Sqlite.Rates.{quick_rate_hit_lem}
use mcptunnels.ControlPlane.{
  QuickRequest, Body, no_body, bad_json, decoded, Environment, created, remote_ip, handle_quick,
  within_capacity, read_body, create_tunnel, checked_tunnel, password_hash, quick_ttl,
}

module _ (bcrypt : Bcrypt) (env : Environment) where
  abbrev pub wants_auth : Body → Bool
  wants_auth (decoded (some auth) password) = auth
  wants_auth body = true

  abbrev pub password_of : Body → Str
  password_of (decoded auth password) = password
  password_of body = []

  checked_tunnel_lem :
      (auth : Bool) (password slug key : Str) (expires : ℕ) (db : Db)
      → IsHealthy db
      → (checked_tunnel (sqlite_api bcrypt) bcrypt env auth password db).0
        ≡ created slug key expires
      → ((auth && is_empty password) ≡ false)
        × (expires ≡ env.expiry_time + quick_ttl)
        × Tunnel bcrypt env auth password slug key
            (checked_tunnel (sqlite_api bcrypt) bcrypt env auth password db).1
  checked_tunnel_lem auth password slug key expires db h e =
      elim (Bool-cases (auth && is_empty password)) [
        | inl b ↦ absurd (ground (arith, b))
        | inr b ↦
            let made : (create_tunnel (sqlite_api bcrypt) bcrypt env auth password db).0
                ≡ created slug key expires =
              ground (arith, b) in
            let (x, tunnel) =
              create_tunnel_lem bcrypt env auth password slug key expires db h made in
            (b, x, rw b tunnel)
      ]

  read_body_lem :
      (body : Body) (slug key : Str) (expires : ℕ) (db : Db)
      → IsHealthy db
      → (read_body (sqlite_api bcrypt) bcrypt env body db).0 ≡ created slug key expires
      → ((wants_auth body && is_empty (password_of body)) ≡ false)
        × (expires ≡ env.expiry_time + quick_ttl)
        × Tunnel bcrypt env
            (wants_auth body)
            (password_of body)
            slug
            key
            (read_body (sqlite_api bcrypt) bcrypt env body db).1
  unfolding read_body
  read_body_lem no_body slug key expires db h e = absurd (ground arith)
  read_body_lem bad_json slug key expires db h e = absurd (ground arith)
  read_body_lem (decoded none password) slug key expires db h e =
      checked_tunnel_lem true password slug key expires db h e
  read_body_lem (decoded (some auth) password) slug key expires db h e =
      checked_tunnel_lem auth password slug key expires db h e

  pub handle_quick_lem :
      (req : QuickRequest) (slug key : Str) (expires : ℕ) (db : Db)
      → IsHealthy db
      → (handle_quick (sqlite_api bcrypt) bcrypt env req db).0 ≡ created slug key expires
      → ((wants_auth req.body && is_empty (password_of req.body)) ≡ false)
        × (expires ≡ env.expiry_time + quick_ttl)
        × Tunnel bcrypt env
            (wants_auth req.body)
            (password_of req.body)
            slug
            key
            (handle_quick (sqlite_api bcrypt) bcrypt env req db).1
  unfolding handle_quick within_capacity
  handle_quick_lem req slug key expires db h e =
      let ip = remote_ip (sqlite_api bcrypt) bcrypt env req.remote_addr in
      let hit = quick_rate_hit_lem ip env.rate_time db h in
      let s1 = (quick_rate_hit ip env.rate_time db).1 in
      let healthy : IsHealthy s1 = rw hit h in
      let live = count_live_tenants_lem s1 healthy env.count_time in
      let passed : handle_quick (sqlite_api bcrypt) bcrypt env req db
          ≡ read_body (sqlite_api bcrypt) bcrypt env req.body s1 =
        ground (arith, hit, live) in
      rw passed (read_body_lem req.body slug key expires s1 healthy (rw (← passed) e))

  -- The hash of the authorize password accepts that password, and is empty just where it is not wanted.
  password_hash_lem :
      (auth : Bool) (password hash : Str)
      → (auth && is_empty password) ≡ false
      → password_hash (sqlite_api bcrypt) bcrypt env auth password ≡ ok hash
      → (is_empty hash ≡ not auth) × ((is_empty hash || check_secret bcrypt hash password) ≡ true)
  unfolding hash_secret check_secret
  password_hash_lem false password hash given hashed = (ground arith, ground arith)
  password_hash_lem true password hash given hashed =
      elim (Option-cases (bcrypt.generate env.password_salt password)) [
        | inl g ↦ absurd (ground (arith, g))
        | inr (h, g) ↦
            let full = bcrypt.generated_not_empty env.password_salt password h g in
            let accepts = bcrypt.compare_generated env.password_salt password h g in
            (ground (arith, g, full), ground (arith, g, accepts))
      ]

  mode_lem :
      (auth : Bool)
      → or_oauth (if auth then lit "oauth" else lit "open")
        ≡ (if auth then lit "oauth" else lit "open")
  mode_lem false = refl
  mode_lem true = refl

  -- With no driver failure: where POST /quick has answered 201 with a slug, an agent key and an expiry,
  -- then GetTenant returns a tenant with that expiry, 24 hours after the request; ValidateAgentKey
  -- accepts the key for the service "mcp", whose mode is "oauth" unless the body said auth = false; a
  -- tunnel with OAuth has an authorize password that is not empty, a tunnel without has none; and the
  -- password of the request passes ValidatePassword.
  pub handle_quick_created :
      (req : QuickRequest) (slug key : Str) (expires : ℕ) (db : Db)
      → IsHealthy db
      → (handle_quick (sqlite_api bcrypt) bcrypt env req db).0 ≡ created slug key expires
      → let after = (handle_quick (sqlite_api bcrypt) bcrypt env req db).1 in
        ((get_tenant slug after).0 ≡ ok (to_tenant (new_tenant_row bcrypt env slug)))
        × (expires ≡ env.expiry_time + quick_ttl)
        × ((validate_password bcrypt slug (lit "mcp") (password_of req.body) after).0 ≡ ok true)
        × ((svc : Service) × ((validate_agent_key bcrypt slug (lit "mcp") key after).0 ≡ ok svc)
            × (svc.auth_mode ≡ (if wants_auth req.body then lit "oauth" else lit "open"))
            × (is_empty svc.password_hash ≡ not (wants_auth req.body)))
  unfolding validate_password validate_agent_key find hash_secret check_secret
  handle_quick_created req slug key expires db h e =
      let after = (handle_quick (sqlite_api bcrypt) bcrypt env req db).1 in
      let (given, x, tunnel) = handle_quick_lem req slug key expires db h e in
      let (ts, ss, hash, agent_hash, hashed, _, _, full, accepts, holds) = tunnel in
      let tenant = get_tenant_lem after holds.2 slug in
      let service = get_service_lem after holds.2 slug (lit "mcp") in
      let (kept, opens) =
        password_hash_lem (wants_auth req.body) (password_of req.body) hash given hashed in
      let row = new_service bcrypt env (wants_auth req.body) hash slug agent_hash in
      let there : find (is_service slug (lit "mcp")) after.tables.services ≡ some row =
        ground (arith, holds.1, eq_refl slug, eq_refl (lit "mcp")) in
      (
        ground (arith, tenant, holds.0, eq_refl slug),
        x,
        ground (arith, service, there, opens),
        (
          to_service row,
          ground (arith, service, there, full, accepts),
          mode_lem (wants_auth req.body),
          kept,
        ),
      )
