-- ===== src/Oauth/Exchange.antt =====
-- The authorization-code flow of internal/oauth over the SQLite store: what a code stands for, and
-- that it becomes a token once.
use mcptunnels.Prelude.{
  ℕ, ◌+◌, Str, String, lit, true, Option, none, some, Option-cases, Bool-cases, List, ◌≡◌, ◌≢◌, inl,
  inr, ◌⊎◌, arith, is_empty, if◌then◌else◌, ltb, hex_encode, find,
}
use mcptunnels.Sql.{ServiceRow, ClientRow}
use mcptunnels.Sql.Run.{is_client, is_service}
use mcptunnels.Act.{ok, err, Result-cases, not_found}
use mcptunnels.Driver.{Db}
use mcptunnels.Store.{Bcrypt, Grant}
use mcptunnels.Sqlite.{
  sqlite_api, check_secret, get_service, validate_password, create_auth_code, consume_auth_code,
}
use mcptunnels.Sqlite.Queries.{IsHealthy, get_client_lem, get_service_lem}
use mcptunnels.Sqlite.Codes.{consume-create}
use mcptunnels.Oauth.Jwt.{Crypto}
use mcptunnels.Oauth.Server.{Server}
use mcptunnels.Oauth.Handlers.{
  Web, Answer, AuthorizeRequest, code_redirect, auth_error, known_client, password_gate, issue_code,
  contains_string,
}

module _ {Key : Type 0} (bcrypt : Bcrypt) (web : Web) (crypto : Crypto Key) (srv : Server Key) where
  abbrev pub digest : Str → Str
  digest code = hex_encode (crypto.sha256 code)

  pub auth_error_lem :
      (req : AuthorizeRequest) (c : String) (uri code st : Str)
      → auth_error web req c ≢ code_redirect uri code st
  unfolding auth_error
  auth_error_lem req c uri code st h = elim (Option-cases (web.parse_url req.redirect_uri)) [
    | inl e ↦ ground (arith, e)
    | inr (u, e) ↦ ground (arith, e)
  ]

  -- The grant that /authorize stores for a code.
  abbrev pub granted : AuthorizeRequest → Grant
  granted req = record {
    tenant_slug = srv.tenant;
    client_id = req.client_id;
    redirect_uri = req.redirect_uri;
    code_challenge = req.code_challenge;
  }

  pub issue_code_lem :
      (req : AuthorizeRequest) (random : Str) (now later : ℕ) (db : Db) (uri code st : Str)
      → IsHealthy db
      → (issue_code (sqlite_api bcrypt) web crypto srv req random now db).0
        ≡ code_redirect uri code st
      → (uri ≡ req.redirect_uri)
        × (code ≡ hex_encode random)
        × (st ≡ req.req_state)
        × ((consume_auth_code
              (digest (hex_encode random))
              later
              (issue_code (sqlite_api bcrypt) web crypto srv req random now db).1).0
            ≡ (if ltb later (now + 60) then ok (granted req) else err not_found))
  unfolding issue_code
  issue_code_lem req random now later db uri code st h e =
      let hash = digest (hex_encode random) in
      let made =
        create_auth_code hash srv.tenant req.client_id req.redirect_uri req.code_challenge
          (now + 60) db in
      let refused = auth_error_lem req "server_error" uri code st in
      elim (Result-cases made.0) [
        | inr (x, r) ↦ absurd (ground (arith, r, refused))
        | inl (u, r) ↦ elim (Option-cases (web.parse_url req.redirect_uri)) [
          | inl p ↦ absurd (ground (arith, r, p))
          | inr (url, p) ↦
              let stored =
                consume-create hash srv.tenant req.client_id req.redirect_uri req.code_challenge
                  (now + 60) later db h r in
              (
                ground (arith, r, p),
                ground (arith, r, p),
                ground (arith, r, p),
                ground (arith, r, p, stored),
              )
        ]
      ]

  -- Where a service's password hash is set, the password is accepted by it.
  abbrev pub Admits : Str → Option ServiceRow → Type 0
  Admits password none = Unit {0}
  Admits password (some r) =
      (is_empty r.password_hash ≡ true) ⊎ (bcrypt.compare_hash r.password_hash password ≡ true)

  password_gate_lem :
      (password : Str) (db : Db)
      → IsHealthy db
      → (password_gate (sqlite_api bcrypt) web crypto srv password db).0 ≡ none
      → ((password_gate (sqlite_api bcrypt) web crypto srv password db).1 ≡ db)
        × Admits password (find (is_service srv.tenant (lit "mcp")) db.tables.services)
  unfolding password_gate validate_password check_secret
  password_gate_lem password db h e =
      let read = get_service_lem db h srv.tenant (lit "mcp") in
      elim (Option-cases (find (is_service srv.tenant (lit "mcp")) db.tables.services)) [
        | inl n ↦ (ground (arith, read, n), rw n tt)
        | inr (r, n) ↦ (ground (arith, read, n), rw n (ground (arith, read, n)))
      ]

  password_gate_stops :
      (password : Str) (db : Db) (a : Answer) (uri code st : Str)
      → (password_gate (sqlite_api bcrypt) web crypto srv password db).0 ≡ some a
      → a ≢ code_redirect uri code st
  unfolding password_gate
  password_gate_stops password db a uri code st e =
      let (svc, db') = get_service srv.tenant (lit "mcp") db in
      let checked = validate_password bcrypt srv.tenant (lit "mcp") password db' in
      elim (Result-cases svc) [
        | inr (x, v) ↦ absurd (ground (arith, v))
        | inl (found_svc, v) ↦ elim (Result-cases checked.0) [
          | inr (x, c) ↦ ground (arith, v, c)
          | inl (b, c) ↦ ground (arith, v, c)
        ]
      ]

  -- The client's registration, as /authorize reads it.
  abbrev pub Registered : AuthorizeRequest → Db → Type 0
  Registered req db =
      (r : ClientRow) × (registered : List Str) × (find (is_client srv.tenant req.client_id)
          db.tables.oauth_clients
        ≡ some r)
      × (web.read_strings r.redirect_uris ≡ some registered)
      × (contains_string registered req.redirect_uri ≡ true)

  pub known_client_lem :
      (req : AuthorizeRequest) (random : Str) (now : ℕ) (db : Db) (uri code st : Str)
      → IsHealthy db
      → (known_client (sqlite_api bcrypt) web crypto srv req random now db).0
        ≡ code_redirect uri code st
      → (known_client (sqlite_api bcrypt) web crypto srv req random now db
          ≡ issue_code (sqlite_api bcrypt) web crypto srv req random now db)
        × Registered req db
        × Admits req.password (find (is_service srv.tenant (lit "mcp")) db.tables.services)
  unfolding known_client
  known_client_lem req random now db uri code st h e =
      let read = get_client_lem db h srv.tenant req.client_id in
      let refused = λ (c : String). auth_error_lem req c uri code st in
      elim (Option-cases (find (is_client srv.tenant req.client_id) db.tables.oauth_clients)) [
        | inl n ↦ absurd (ground (arith, read, n, refused "invalid_client"))
        | inr (r, n) ↦ elim (Option-cases (web.read_strings r.redirect_uris)) [
          | inl j ↦ absurd (ground (arith, read, n, j, refused "server_error"))
          | inr (uris, j) ↦ elim (Bool-cases (contains_string uris req.redirect_uri)) [
            | inr b ↦ absurd (ground (arith, read, n, j, b, refused "invalid_request"))
            | inl b ↦
                elim (Option-cases
                  (password_gate (sqlite_api bcrypt) web crypto srv req.password db).0) [
                    | inr (a, g) ↦ absurd (
                        password_gate_stops req.password db a uri code st g
                          (ground (arith, read, n, j, b, g)))
                    | inl g ↦
                        let (same, admits) = password_gate_lem req.password db h g in
                        (ground (arith, read, n, j, b, g, same), (r, uris, n, j, b), admits)
                  ]
          ]
        ]
      ]
