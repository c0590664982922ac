-- ===== src/Sqlite/Services.antt =====
-- Services: the agent key that CreateService returns, and who may use it.
use mcptunnels.Prelude.{
  ℕ, Str, true, false, some, Option-cases, [], ◌∷◌, ◌≡◌, ◌≢◌, refl, arith, find, inl, inr, eq_refl,
  is_empty,
}
use mcptunnels.Sql.{ServiceRow}
use mcptunnels.Sql.Run.{run, is_service, service_columns}
use mcptunnels.Act.{ok, Result-cases}
use mcptunnels.Driver.{Db, exec, scan_service}
use mcptunnels.Store.{Service, Bcrypt}
use mcptunnels.Sqlite.{
  create_service, get_service, validate_agent_key, new_agent_key, check_secret, or_oauth,
  agent_key_of,
}
use mcptunnels.Sqlite.Queries.{IsHealthy, to_service, get_service_lem, first_row-keep}

module _ (bcrypt : Bcrypt) where
  abbrev pub service_row : Str → Service → Str → ℕ → ServiceRow
  service_row slug svc hash now = record {
    tenant_slug = slug;
    name = svc.name;
    agent_key_hash = hash;
    created_at = now;
    auth_mode = or_oauth svc.auth_mode;
    password_hash = svc.password_hash;
  }

  abbrev pub stored : Str → Service → Str → ℕ → Service
  stored slug svc hash now = to_service (service_row slug svc hash now)

  -- A key that CreateService returned came with a hash that accepts it.
  pub key_accepted :
      (random salt key hash : Str)
      → new_agent_key bcrypt random salt ≡ ok (key, hash)
      → (is_empty key ≡ false) × (check_secret bcrypt hash key ≡ true)
  unfolding new_agent_key check_secret
  key_accepted random salt key hash h =
      let plain : Str = agent_key_of random in
      elim (Option-cases (bcrypt.generate salt plain)) [
        | inl e ↦ ground (arith, e)
        | inr (made, e) ↦ ground (arith, e, bcrypt.compare_generated salt plain made e)
      ]

  pub drawn_key :
      (random salt key hash : Str)
      → new_agent_key bcrypt random salt ≡ ok (key, hash)
      → key ≡ agent_key_of random
  unfolding new_agent_key
  drawn_key random salt key hash h =
      elim (Option-cases (bcrypt.generate salt (agent_key_of random))) [
        | inl e ↦ ground (arith, e)
        | inr (made, e) ↦ ground (arith, e)
      ]

  pub create_service_lem :
      (random salt slug key : Str) (svc : Service) (now : ℕ) (db : Db)
      → IsHealthy db
      → (create_service bcrypt random salt slug svc now db).0 ≡ ok key
      → (hash : Str) × (new_agent_key bcrypt random salt ≡ ok (key, hash))
        × ((create_service bcrypt random salt slug svc now db).1 ≡ record db {
          tables = record (db.tables) {
            services = service_row slug svc hash now ∷ db.tables.services;
          };
        })
  unfolding create_service exec run
  create_service_lem random salt slug key svc now db h e =
      elim (Result-cases (new_agent_key bcrypt random salt)) [
        | inl ((plain, hash), made) ↦ (hash, ground (arith, made), ground (arith, made))
        | inr (failure, made) ↦ absurd (ground (arith, made))
      ]

  -- With no driver failure, the key that CreateService returns is accepted for that service by
  -- ValidateAgentKey, which returns the service with its name, its authorize password, the mode that
  -- was asked for ("oauth" if none was) and a hash that accepts the key.
  pub validate-create_service :
      (random salt slug key : Str) (svc : Service) (now : ℕ) (db : Db)
      → IsHealthy db
      → (create_service bcrypt random salt slug svc now db).0 ≡ ok key
      → (hash : Str) × ((validate_agent_key bcrypt slug svc.name key
            (create_service bcrypt random salt slug svc now db).1).0
          ≡ ok (stored slug svc hash now))
        × (bcrypt.compare_hash hash key ≡ true)
  unfolding validate_agent_key find check_secret
  validate-create_service random salt slug key svc now db h e =
      let (hash, made, state) = create_service_lem random salt slug key svc now db h e in
      let (full, accepts) = key_accepted random salt key hash made in
      let after : Db = record db {
        tables = record (db.tables) {
          services = service_row slug svc hash now ∷ db.tables.services;
        };
      } in
      (
        hash,
        rw state (
            rw (get_service_lem after h slug svc.name)
              (ground (arith, full, accepts, eq_refl slug, eq_refl svc.name))),
        accepts,
      )

  service_read :
      (slug name : Str) (svc : Service) (db : Db)
      → (get_service slug name db).0 ≡ ok svc
      → (r : ServiceRow) × (find (is_service slug name) db.tables.services ≡ some r)
        × (svc ≡ to_service r)
  unfolding get_service exec run
  service_read slug name svc db h =
      let row =
        first_row-keep scan_service service_columns to_service (is_service slug name) (λ r. refl)
          db.tables.services in
      elim (Option-cases (find (is_service slug name) db.tables.services)) [
        | inl e ↦ absurd (ground (arith, row, e))
        | inr (r, e) ↦ (r, e, ground (arith, row, e))
      ]

  -- Whatever the driver does, ValidateAgentKey returns a service only for a key that is not empty,
  -- and that service is the row of the table under this tenant and name, whose hash accepts the key.
  pub validate_agent_key_sound :
      (slug name key : Str) (svc : Service) (db : Db)
      → (validate_agent_key bcrypt slug name key db).0 ≡ ok svc
      → (r : ServiceRow) × (find (is_service slug name) db.tables.services ≡ some r)
        × (svc ≡ to_service r)
        × (key ≢ [])
        × (bcrypt.compare_hash r.agent_key_hash key ≡ true)
  unfolding validate_agent_key check_secret
  validate_agent_key_sound slug name key svc db h =
      let read : (get_service slug name db).0 ≡ ok svc = ground arith in
      let (r, at, same) = service_read slug name svc db read in
      (r, at, same, ground arith, ground arith)

  -- With no driver failure, what ValidateAgentKey returns is what GetService reads, and both leave the
  -- database as it is.
  pub validate_agent_key_read :
      (slug name key : Str) (svc : Service) (db : Db)
      → IsHealthy db
      → (validate_agent_key bcrypt slug name key db).0 ≡ ok svc
      → (validate_agent_key bcrypt slug name key db ≡ (ok svc, db))
        × (get_service slug name db ≡ (ok svc, db))
  unfolding validate_agent_key
  validate_agent_key_read slug name key svc db h e =
      let read = get_service_lem db h slug name in
      elim (Option-cases (find (is_service slug name) db.tables.services)) [
        | inl n ↦ absurd (ground (arith, read, n))
        | inr (row, n) ↦ (ground (arith, read, n), ground (arith, read, n))
      ]
