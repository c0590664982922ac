-- ===== src/ControlPlane/Limits.antt =====
-- The limit on live tunnels of POST /quick over the SQLite store.
use mcptunnels.Prelude.{
  ℕ, zero, suc, ◌+◌, ◌≤◌, Str, Bool, true, false, none, some, ◌≡◌, inl, inr, refl, arith, count,
  lit, Option-cases,
}
use mcptunnels.Sql.Run.{run, is_live}
use mcptunnels.Act.{ok, Result-cases}
use mcptunnels.Driver.{Db, exec}
use mcptunnels.Store.{Bcrypt}
use mcptunnels.Sqlite.{
  sqlite_api, quick_rate_hit, count_live_tenants, create_service, create_tenant_expiry,
}
use mcptunnels.Sqlite.Frames.{
  quick_rate_hit-frame, count_live_tenants-frame, create_signing_key-frame, create_service-frame,
  tenants-create,
}
use mcptunnels.ControlPlane.{
  QuickRequest, Body, no_body, bad_json, decoded, Environment, remote_ip, handle_quick,
  within_capacity, read_body, create_tunnel, add_service, finish_quick, create_quick_tenant,
  quick_slug, mcp_service, password_hash, quick_ttl,
}

module _ (bcrypt : Bcrypt) (env : Environment) where
  abbrev pub live : ℕ → Db → ℕ
  live now db = count (is_live now) db.tables.tenants

  create_quick_tenant-live :
      (now tries i expires : ℕ) (db : Db)
      → live now (create_quick_tenant (sqlite_api bcrypt) bcrypt env tries i expires db).1
        ≤ live now db + 1
  unfolding create_quick_tenant count
  create_quick_tenant-live now zero i expires db = omega arith
  create_quick_tenant-live now (suc tries) i expires db =
      let slug = quick_slug (env.draw i) in
      let name = lit "quick tunnel" in
      let made = create_tenant_expiry slug name (some expires) env.tenant_time db in
      let added = tenants-create slug name (some expires) env.tenant_time db in
      let rest = create_quick_tenant-live now tries (i + 1) expires made.1 in
      ground (arith, added, rest)

  finish_quick-tenants :
      (auth : Bool) (slug key : Str) (expires : ℕ) (db : Db)
      → (finish_quick (sqlite_api bcrypt) bcrypt env auth slug key expires db).1.tables.tenants
        ≡ db.tables.tenants
  unfolding finish_quick
  finish_quick-tenants false slug key expires db = refl
  finish_quick-tenants true slug key expires db = elim (Option-cases env.generated_pem) [
    | inl e ↦ ground (arith, e)
    | inr (pem, e) ↦
        ground (
          arith,
          e,
          (create_signing_key-frame db.tables.tenants slug pem env.key_time).holds db refl,
        )
  ]

  add_service-tenants :
      (auth : Bool) (hash slug : Str) (expires : ℕ) (db : Db)
      → (add_service (sqlite_api bcrypt) bcrypt env auth hash slug expires db).1.tables.tenants
        ≡ db.tables.tenants
  unfolding add_service
  add_service-tenants auth hash slug expires db =
      let svc = mcp_service (sqlite_api bcrypt) bcrypt env auth hash in
      let made = create_service bcrypt env.key_random env.key_salt slug svc env.service_time db in
      let frame =
        (create_service-frame db.tables.tenants bcrypt env.key_random env.key_salt slug svc
            env.service_time).holds
          db refl in
      elim (Result-cases made.0) [
        | inl (key, e) ↦ ground (arith, e, frame, finish_quick-tenants auth slug key expires made.1)
        | inr (x, e) ↦ ground (arith, e, frame)
      ]

  create_tunnel-live :
      (now : ℕ) (auth : Bool) (password : Str) (db : Db)
      → live now (create_tunnel (sqlite_api bcrypt) bcrypt env auth password db).1 ≤ live now db + 1
  unfolding create_tunnel
  create_tunnel-live now auth password db =
      let expires : ℕ = env.expiry_time + quick_ttl in
      let made = create_quick_tenant (sqlite_api bcrypt) bcrypt env 10 0 expires db in
      let one = create_quick_tenant-live now 10 0 expires db in
      let hash = password_hash (sqlite_api bcrypt) bcrypt env auth password in
      elim (Result-cases made.0) [
        | inr (x, e) ↦ ground (arith, e, one)
        | inl (slug, e) ↦ elim (Result-cases hash) [
          | inr (x, e') ↦ ground (arith, e, e', one)
          | inl (h, e') ↦ ground (arith, e, e', one, add_service-tenants auth h slug expires made.1)
        ]
      ]

  read_body-live :
      (now : ℕ) (body : Body) (db : Db)
      → live now (read_body (sqlite_api bcrypt) bcrypt env body db).1 ≤ live now db + 1
  unfolding read_body
  read_body-live now no_body db = omega arith
  read_body-live now bad_json db = omega arith
  read_body-live now (decoded none password) db =
      ground (arith, create_tunnel-live now true password db)
  read_body-live now (decoded (some auth) password) db =
      ground (arith, create_tunnel-live now auth password db)

  -- A count that was answered is the count of the table.
  counted_live : (now n : ℕ) (db : Db) → (count_live_tenants now db).0 ≡ ok n → n ≡ live now db
  unfolding count_live_tenants exec run
  counted_live now n db h = ground arith

  within_capacity-live :
      (body : Body) (db : Db)
      → live env.count_time db ≤ 500
      → live env.count_time (within_capacity (sqlite_api bcrypt) bcrypt env body db).1 ≤ 500
  unfolding within_capacity
  within_capacity-live body db few =
      let now : ℕ = env.count_time in
      let counted = count_live_tenants now db in
      let frame = (count_live_tenants-frame db.tables.tenants now).holds db refl in
      elim (Result-cases counted.0) [
        | inr (x, e) ↦ ground (arith, e, frame)
        | inl (n, e) ↦
            ground (arith, e, frame, counted_live now n db e, read_body-live now body counted.1)
      ]

  -- Whatever the driver does: if at most 500 tunnels are live at the moment at which POST /quick counts
  -- them, at most 500 are live at that moment after the request.
  pub handle_quick-live_cap :
      (req : QuickRequest) (db : Db)
      → live env.count_time db ≤ 500
      → live env.count_time (handle_quick (sqlite_api bcrypt) bcrypt env req db).1 ≤ 500
  unfolding handle_quick
  handle_quick-live_cap req db few =
      let ip = remote_ip (sqlite_api bcrypt) bcrypt env req.remote_addr in
      let hit = quick_rate_hit ip env.rate_time db in
      let frame = (quick_rate_hit-frame db.tables.tenants ip env.rate_time).holds db refl in
      ground (arith, frame, within_capacity-live req.body hit.1)
