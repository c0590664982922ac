-- ===== src/D1/Refinement.antt =====
-- The contract between the two stores: over an endpoint that executes each statement as SQL does, the
-- methods of the D1 store answer as those of the SQLite store and leave the same tables.
use mcptunnels.Prelude.{
  ℕ, ◌+◌, length, hex_encode, ◌++◌, Str, lit, Option, ◌≡◌, refl, arith, inl, inr, find,
  Option-cases, any_of_find, not_any_of_find,
}
use mcptunnels.Sql.{
  Tables, Row, Value, int, text, Statement, SqlError, unique_failed, foreign_key_failed, Outcome,
  failed, done, insert_tenant, select_tenant, insert_client, select_client, select_signing_key,
  insert_signing_key, insert_code, select_service, delete_tenant_row, count_live, prune_rate,
  upsert_rate, select_rate, claim_code, insert_service_if_tenant, select_code, select_expired,
}
use mcptunnels.Sql
use mcptunnels.Sql.Run.{run, is_tenant}
use mcptunnels.Sql.Integrity.{IsSound}
use mcptunnels.Act.{Result, ok, err}
use mcptunnels.Driver
use mcptunnels.Driver.{Db}
use mcptunnels.Sqlite
use mcptunnels.Sqlite.Queries.{get_tenant_lem}
use mcptunnels.D1.Wire.{Endpoint, TextNumbers, query, read_reply}
use mcptunnels.D1.Store
use mcptunnels.D1.Conforms.{IsD1, blur, local, Agrees}
use mcptunnels.D1.Inserts.{
  create_tenant-Agrees, create_client-Agrees, create_signing_key-Agrees, create_auth_code-Agrees,
}
use mcptunnels.D1.Reads.{
  get_client-Agrees, get_signing_key-Agrees, get_tenant-Agrees, get_service-Agrees,
  count_live-Agrees,
}
use mcptunnels.D1.Updates.{delete_tenant-Agrees, quick_rate_hit-Agrees, consume-Agrees}
use mcptunnels.D1.Sweeps.{delete_expired-Agrees}
use mcptunnels.Store.{Bcrypt, Service}

module _ {S : Type 0} (send : Endpoint S) (tables : S → Tables) (d1 : IsD1 send tables) where
  validate_agent_key-Agrees :
      (numbers : TextNumbers) (bcrypt : Bcrypt) (slug name key : Str) (s : S)
      → Agrees tables
          (Store.validate_agent_key send numbers bcrypt slug name key)
          (Sqlite.validate_agent_key bcrypt slug name key)
          s
  unfolding Store.validate_agent_key Sqlite.validate_agent_key Sqlite.check_secret
  validate_agent_key-Agrees numbers bcrypt slug name key s =
      let read = get_service-Agrees send tables d1 numbers slug name s in
      (ground (arith, read.0, read.1), ground (arith, read.0, read.1))

  validate_password-Agrees :
      (numbers : TextNumbers) (bcrypt : Bcrypt) (slug name password : Str) (s : S)
      → Agrees tables
          (Store.validate_password send numbers bcrypt slug name password)
          (Sqlite.validate_password bcrypt slug name password)
          s
  unfolding Store.validate_password Sqlite.validate_password Sqlite.check_secret
  validate_password-Agrees numbers bcrypt slug name password s =
      let read = get_service-Agrees send tables d1 numbers slug name s in
      (ground (arith, read.0, read.1), ground (arith, read.0, read.1))

  -- Over an endpoint that executes statements as SQL does and tables that meet the schema's
  -- constraints, each of these methods of the D1 store gives the value, or the sentinel error, that the
  -- SQLite method gives without driver failures (other errors count as one), and leaves the same
  -- tables: CreateTenantExpiry, GetTenant, DeleteTenant, CountLiveTenants, QuickRateHit, GetService,
  -- ValidatePassword, ValidateAgentKey, CreateSigningKey, GetSigningKey, CreateOAuthClient,
  -- GetOAuthClient, CreateAuthCode, ConsumeAuthCode. DeleteExpiredTenants returns the very same slugs.
  pub d1-Agrees :
      (numbers : TextNumbers) (bcrypt : Bcrypt) (slug name id uri secret : Str) (exp : Option ℕ)
      (now : ℕ) (s : S)
      → IsSound (tables s)
      → Agrees tables
          (Store.create_tenant_expiry send slug name exp now)
          (Sqlite.create_tenant_expiry slug name exp now)
          s
        × Agrees tables (Store.get_tenant send numbers slug) (Sqlite.get_tenant slug) s
        × Agrees tables (Store.delete_tenant send slug) (Sqlite.delete_tenant slug) s
        × Agrees tables
            (Store.count_live_tenants send numbers now)
            (Sqlite.count_live_tenants now)
            s
        × Agrees tables
            (Store.quick_rate_hit send numbers secret now)
            (Sqlite.quick_rate_hit secret now)
            s
        × Agrees tables (Store.get_service send numbers slug name) (Sqlite.get_service slug name) s
        × Agrees tables
            (Store.validate_password send numbers bcrypt slug name secret)
            (Sqlite.validate_password bcrypt slug name secret)
            s
        × Agrees tables
            (Store.validate_agent_key send numbers bcrypt slug name secret)
            (Sqlite.validate_agent_key bcrypt slug name secret)
            s
        × Agrees tables
            (Store.create_signing_key send slug secret now)
            (Sqlite.create_signing_key slug secret now)
            s
        × Agrees tables (Store.get_signing_key send slug) (Sqlite.get_signing_key slug) s
        × Agrees tables
            (Store.create_client send slug id uri now)
            (Sqlite.create_client slug id uri now)
            s
        × Agrees tables (Store.get_client send slug id) (Sqlite.get_client slug id) s
        × Agrees tables
            (Store.create_auth_code send secret slug id uri name now)
            (Sqlite.create_auth_code secret slug id uri name now)
            s
        × Agrees tables
            (Store.consume_auth_code send secret now)
            (Sqlite.consume_auth_code secret now)
            s
        × ((Store.delete_expired_tenants send now s).0
            ≡ (Sqlite.delete_expired_tenants now (local tables s)).0)
        × (tables (Store.delete_expired_tenants send now s).1
            ≡ (Sqlite.delete_expired_tenants now (local tables s)).1.tables)
  d1-Agrees numbers bcrypt slug name id uri secret exp now s v = (
    create_tenant-Agrees send tables d1 slug name exp now s,
    get_tenant-Agrees send tables d1 numbers slug s,
    delete_tenant-Agrees send tables d1 slug s v,
    count_live-Agrees send tables d1 numbers now s,
    quick_rate_hit-Agrees send tables d1 numbers secret now s,
    get_service-Agrees send tables d1 numbers slug name s,
    validate_password-Agrees numbers bcrypt slug name secret s,
    validate_agent_key-Agrees numbers bcrypt slug name secret s,
    create_signing_key-Agrees send tables d1 slug secret now s,
    get_signing_key-Agrees send tables d1 slug s,
    create_client-Agrees send tables d1 slug id uri now s,
    get_client-Agrees send tables d1 slug id s,
    create_auth_code-Agrees send tables d1 secret slug id uri name now s,
    consume-Agrees send tables d1 secret now s v,
    (delete_expired-Agrees send tables d1 now s).0,
    (delete_expired-Agrees send tables d1 now s).1,
  )

  -- The outcome of a method, its value left out.
  abbrev pub outcome {ℓ} : {A : Type ℓ} → Result A → Result (Unit {0})
  outcome r = elim (blur r) [ ok a ↦ ok tt | err e ↦ err e ]

  -- CreateService: where both stores can hash the key that they draw, they succeed together, or report
  -- ErrNotFound together (no such tenant), or ErrExists together (the name is taken).
  pub create_service-Agrees :
      (numbers : TextNumbers) (bcrypt : Bcrypt) (random salt slug : Str) (svc : Service) (now : ℕ)
      (k h k' h' : Str) (s : S)
      → Store.new_agent_key send numbers bcrypt random salt ≡ ok (k, h)
      → Sqlite.new_agent_key bcrypt random salt ≡ ok (k', h')
      → IsSound (tables s)
      → outcome (Store.create_service send numbers bcrypt random salt slug svc now s).0
        ≡ outcome (Sqlite.create_service bcrypt random salt slug svc now (local tables s)).0
  unfolding Store.create_service Sqlite.create_service query read_reply Driver.exec run
  create_service-Agrees numbers bcrypt random salt slug svc now k h k' h' s made made' v =
      let row : Sql.ServiceRow = record {
        tenant_slug = slug;
        name = svc.name;
        agent_key_hash = h;
        created_at = now;
        auth_mode = Sqlite.or_oauth svc.auth_mode;
        password_hash = svc.password_hash;
      } in
      let st = insert_service_if_tenant row slug in
      let r = d1.reply_law st s in
      let w = d1.written_law st (tables s) in
      let m = d1.message_law unique_failed in
      let read = get_tenant_lem (local tables s) refl slug in
      elim (Option-cases (find (is_tenant slug) (tables s).tenants)) [
        | inl e ↦
            let gone = not_any_of_find (is_tenant slug) (tables s).tenants e in
            ground (arith, r, w, m, read, e, gone, made, made')
        | inr (tenant, e) ↦
            let there = any_of_find (is_tenant slug) (tables s).tenants tenant e in
            ground (arith, r, w, m, read, e, there, made, made')
      ]

-- Both stores draw an agent key from the same random bytes. The D1 store's key is one byte longer: its
-- prefix already ends in the underscore that both put behind the prefix.
pub length-new_agent_key :
    {S : Type 0} (send : Endpoint S) (numbers : TextNumbers) (bcrypt : Bcrypt)
    (random salt k h k' h' : Str)
    → Store.new_agent_key send numbers bcrypt random salt ≡ ok (k, h)
    → Sqlite.new_agent_key bcrypt random salt ≡ ok (k', h')
    → length k ≡ length k' + 1
unfolding Store.new_agent_key Sqlite.new_agent_key
length-new_agent_key send numbers bcrypt random salt k h k' h' made made' =
    let key : k ≡ lit "tun_agent_" ++ (lit "_" ++ hex_encode random) = ground arith in
    let key' : k' ≡ lit "tun_agent" ++ (lit "_" ++ hex_encode random) = ground arith in
    rw (key, key') (omega arith)
