-- ===== src/Oauth/Registration.antt =====
-- What a client registration of internal/oauth/register.go leaves in the store.
use mcptunnels.Prelude.{
  ℕ, Str, lit, true, false, Option, none, some, Bool-cases, List-cases, List, [], ◌∷◌, ◌++◌,
  hex_encode, ◌≡◌, ◌≢◌, inl, inr, arith, eq_refl, find,
}
use mcptunnels.Sql.Run.{run}
use mcptunnels.Act.{ok, Result-cases}
use mcptunnels.Driver.{Db, exec}
use mcptunnels.Store.{Bcrypt}
use mcptunnels.Sqlite
use mcptunnels.Sqlite.{sqlite_api, get_client}
use mcptunnels.Sqlite.Queries.{IsHealthy, get_client_lem}
use mcptunnels.Oauth.Rate.{IpRate, allow}
use mcptunnels.Oauth.Server.{Server}
use mcptunnels.Oauth.Handlers
use mcptunnels.Oauth.Handlers.{
  Web, Answer, Registration, client_created, handle_register, check_registration, has_invalid,
  register_rate_limit, public_method,
}

abbrev with_client : Str → Str → Str → ℕ → Db → Db
with_client slug id uris now db = record db {
  tables = record (db.tables) {
    oauth_clients =
        record { tenant_slug = slug; client_id = id; redirect_uris = uris; created_at = now }
        ∷ db.tables.oauth_clients;
  };
}

create_client_state :
    (slug id uris : Str) (now : ℕ) (db : Db)
    → IsHealthy db
    → (Sqlite.create_client slug id uris now db).0 ≡ ok tt
    → (Sqlite.create_client slug id uris now db).1 ≡ with_client slug id uris now db
unfolding Sqlite.create_client exec run
create_client_state slug id uris now db h e = ground arith

get-create_client :
    (slug id uris : Str) (now : ℕ) (db : Db)
    → IsHealthy db
    → (Sqlite.create_client slug id uris now db).0 ≡ ok tt
    → (get_client slug id (Sqlite.create_client slug id uris now db).1).0 ≡ ok uris
unfolding find
get-create_client slug id uris now db h e =
    let read = get_client_lem (with_client slug id uris now db) h slug id in
    ground (arith, create_client_state slug id uris now db h e, read, eq_refl slug, eq_refl id)

module _ {Key : Type 0} (bcrypt : Bcrypt) (web : Web) (srv : Server Key) where
  -- The redirect URIs of a client are stored under its id.
  abbrev pub Kept : Str → List Str → Db → Type 0
  Kept id uris db = (get_client srv.tenant id db).0 ≡ ok (web.write_strings uris)

  create_client_lem :
      (random : Str) (now : ℕ) (reg : Registration) (db : Db) (id name : Str) (uris : List Str)
      → IsHealthy db
      → (Handlers.create_client (sqlite_api bcrypt) web srv random now reg db).0
        ≡ client_created id uris name
      → (uris ≡ reg.redirect_uris)
        × Kept id uris (Handlers.create_client (sqlite_api bcrypt) web srv random now reg db).1
  unfolding Handlers.create_client
  create_client_lem random now reg db id name uris h e =
      let drawn = lit "mcp_" ++ hex_encode random in
      let json = web.write_strings reg.redirect_uris in
      let made = Sqlite.create_client srv.tenant drawn json now db in
      elim (Result-cases made.0) [
        | inr (x, r) ↦ absurd (ground (arith, r))
        | inl (u, r) ↦ (
          ground (arith, r),
          ground (arith, r, get-create_client srv.tenant drawn json now db h r),
        )
      ]

  check_registration_lem :
      (random : Str) (now : ℕ) (reg : Registration) (db : Db) (id name : Str) (uris : List Str)
      → IsHealthy db
      → (check_registration (sqlite_api bcrypt) web srv random now reg db).0
        ≡ client_created id uris name
      → (uris ≢ [])
        × (has_invalid web uris ≡ false)
        × Kept id uris (check_registration (sqlite_api bcrypt) web srv random now reg db).1
  unfolding check_registration
  check_registration_lem random now reg db id name uris h e =
      elim (Bool-cases (public_method (sqlite_api bcrypt) web srv reg.auth_method)) [
        | inr m ↦ absurd (ground (arith, m))
        | inl m ↦ elim (List-cases reg.redirect_uris) [
          | inl l ↦ absurd (ground (arith, m, l))
          | inr (u, us, l) ↦ elim (Bool-cases (has_invalid web reg.redirect_uris)) [
            | inl b ↦ absurd (ground (arith, m, l, b))
            | inr b ↦
                let made : (Handlers.create_client (sqlite_api bcrypt) web srv random now reg db).0
                    ≡ client_created id uris name =
                  ground (arith, m, l, b) in
                let (same, kept) = create_client_lem random now reg db id name uris h made in
                (ground (arith, same, l), rw same b, ground (arith, m, l, b, kept))
          ]
        ]
      ]

  -- With no driver failure: where POST /register creates a client, the request was within the limit of
  -- its address, the client has redirect URIs, each of them is https or http to the loopback, and
  -- GetOAuthClient of the new id returns their JSON.
  pub handle_register_created :
      (ip random : Str) (now : ℕ) (body : Option Registration) (rate : IpRate) (db : Db)
      (id name : Str) (uris : List Str)
      → IsHealthy db
      → (handle_register (sqlite_api bcrypt) web srv ip now random body rate db).0
        ≡ client_created id uris name
      → ((allow ip register_rate_limit now rate).0 ≡ true)
        × (uris ≢ [])
        × (has_invalid web uris ≡ false)
        × Kept id uris (handle_register (sqlite_api bcrypt) web srv ip now random body rate db).2
  unfolding handle_register
  handle_register_created ip random now none rate db id name uris h e =
      elim (Bool-cases (allow ip register_rate_limit now rate).0) [
        | inl a ↦ absurd (ground (arith, a))
        | inr a ↦ absurd (ground (arith, a))
      ]
  handle_register_created ip random now (some reg) rate db id name uris h e =
      elim (Bool-cases (allow ip register_rate_limit now rate).0) [
        | inr a ↦ absurd (ground (arith, a))
        | inl a ↦
            let checked : (check_registration (sqlite_api bcrypt) web srv random now reg db).0
                ≡ client_created id uris name =
              ground (arith, a) in
            let (some_uri, all_valid, kept) =
              check_registration_lem random now reg db id name uris h checked in
            (a, some_uri, all_valid, ground (arith, a, kept))
      ]
