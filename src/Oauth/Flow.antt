-- ===== src/Oauth/Flow.antt =====
-- The authorization-code flow of internal/oauth from the request for a code to the token.
use mcptunnels.Prelude.{
  ℕ, ◌+◌, ◌<◌, Str, lit, true, false, not, ◌||◌, some, Bool-cases, [], ◌∷◌, ◌≡◌, ◌≢◌, inl, inr,
  arith, is_empty, ◌==◌, eq_iff, eq_refl, lt→ltb, find,
}
use mcptunnels.Sql.Run.{is_service}
use mcptunnels.Act.{ok}
use mcptunnels.Driver.{Db}
use mcptunnels.Store.{Bcrypt}
use mcptunnels.Sqlite.{sqlite_api, consume_auth_code}
use mcptunnels.Sqlite.Queries.{IsHealthy}
use mcptunnels.Oauth.Jwt.{Crypto, IsCrypto, sign_access_token, valid}
use mcptunnels.Oauth.Tokens.{validate-sign_access_token}
use mcptunnels.Oauth.Rate.{IpRate, allow}
use mcptunnels.Oauth.Server.{Server, validate}
use mcptunnels.Oauth.Handlers.{
  Web, AuthorizeRequest, TokenForm, Readings, remaining, token_issued, code_redirect,
  handle_authorize, known_client, handle_token, exchange, redeem, verify_pkce, token_rate_limit,
  issue_code,
}
use mcptunnels.Oauth.Exchange.{
  auth_error_lem, digest, granted, issue_code_lem, known_client_lem, Admits, Registered,
}

module _ {Key : Type 0} (bcrypt : Bcrypt) (web : Web) (crypto : Crypto Key) (srv : Server Key) where
  -- Where /authorize gives a code, the request has passed its first two checks.
  authorize_passed :
      (req : AuthorizeRequest) (random : Str) (now : ℕ) (db : Db) (uri code st : Str)
      → (handle_authorize (sqlite_api bcrypt) web crypto srv req random now db).0
        ≡ code_redirect uri code st
      → ((req.response_type == lit "code") ≡ true)
        × (is_empty req.code_challenge ≡ false)
        × ((req.challenge_method == lit "S256") ≡ true)
        × (handle_authorize (sqlite_api bcrypt) web crypto srv req random now db
            ≡ known_client (sqlite_api bcrypt) web crypto srv req random now db)
  unfolding handle_authorize
  authorize_passed req random now db uri code st e =
      elim (Bool-cases (req.response_type == lit "code")) [
        | inr a ↦ absurd (
            ground (
              arith,
              a,
              auth_error_lem bcrypt web crypto srv req "unsupported_response_type" uri code st,
            ))
        | inl a ↦
            elim (Bool-cases
              (is_empty req.code_challenge || not (req.challenge_method == lit "S256"))) [
                | inl b ↦ absurd (
                    ground (
                      arith,
                      a,
                      b,
                      auth_error_lem bcrypt web crypto srv req "invalid_request" uri code st,
                    ))
                | inr b ↦ (a, ground (arith, b), ground (arith, b), ground (arith, a, b))
              ]
      ]

  -- With no driver failure: where /authorize redirects with a code, it asked for response_type "code"
  -- with an S256 challenge that is not empty, the redirect goes to the URI of the request, that URI is
  -- among those the client has registered with this tenant, and the password of the request is accepted
  -- by the password hash of the service "mcp" where there is one.
  pub handle_authorize_sound :
      (req : AuthorizeRequest) (random : Str) (now : ℕ) (db : Db) (uri code st : Str)
      → IsHealthy db
      → (handle_authorize (sqlite_api bcrypt) web crypto srv req random now db).0
        ≡ code_redirect uri code st
      → (req.response_type ≡ lit "code")
        × (req.challenge_method ≡ lit "S256")
        × (req.code_challenge ≢ [])
        × (uri ≡ req.redirect_uri)
        × Registered bcrypt web crypto srv req db
        × Admits bcrypt web crypto srv req.password
            (find (is_service srv.tenant (lit "mcp")) db.tables.services)
  handle_authorize_sound req random now db uri code st h e =
      let (a, b, c, same) = authorize_passed req random now db uri code st e in
      let reached : (known_client (sqlite_api bcrypt) web crypto srv req random now db).0
          ≡ code_redirect uri code st =
        ground (arith, same) in
      let (issued, registered, admits) =
        known_client_lem bcrypt web crypto srv req random now db uri code st h reached in
      let given : (issue_code (sqlite_api bcrypt) web crypto srv req random now db).0
          ≡ code_redirect uri code st =
        ground (arith, issued) in
      (
        (eq_iff _ _).0 a,
        (eq_iff _ _).0 c,
        ground (arith, b),
        (issue_code_lem bcrypt web crypto srv req random now now db uri code st h given).0,
        registered,
        admits,
      )

  authorize_granted :
      (req : AuthorizeRequest) (random : Str) (now later : ℕ) (db : Db) (uri code st : Str)
      → IsHealthy db
      → (handle_authorize (sqlite_api bcrypt) web crypto srv req random now db).0
        ≡ code_redirect uri code st
      → later < now + 60
      → (consume_auth_code
          (digest bcrypt web crypto srv code)
          later
          (handle_authorize (sqlite_api bcrypt) web crypto srv req random now db).1).0
        ≡ ok (granted bcrypt web crypto srv req)
  authorize_granted req random now later db uri code st h e soon =
      let (a, b, c, same) = authorize_passed req random now db uri code st e in
      let reached : (known_client (sqlite_api bcrypt) web crypto srv req random now db).0
          ≡ code_redirect uri code st =
        ground (arith, same) in
      let (issued, registered, admits) =
        known_client_lem bcrypt web crypto srv req random now db uri code st h reached in
      let given : (issue_code (sqlite_api bcrypt) web crypto srv req random now db).0
          ≡ code_redirect uri code st =
        ground (arith, issued) in
      let (u, k, s, stored) =
        issue_code_lem bcrypt web crypto srv req random now later db uri code st h given in
      ground (arith, same, issued, k, stored, lt→ltb later (now + 60) soon)

  -- The form that the client of a request sends with its code and the verifier of its challenge.
  abbrev pub form_for : AuthorizeRequest → Str → Str → TokenForm
  form_for req code verifier = record {
    grant_type = lit "authorization_code";
    code = code;
    client_id = req.client_id;
    redirect_uri = req.redirect_uri;
    code_verifier = verifier;
  }

  -- With no driver failure, and a signing that succeeds: the code that /authorize gives to a client is
  -- exchanged by POST /token, sent within 60 seconds from an address below its rate limit with the
  -- client, the redirect URI and the verifier of the challenge, for a token that this server accepts at
  -- every time before the tenant's expiry.
  pub authorize_then_token :
      (lawful : IsCrypto crypto) (req : AuthorizeRequest) (random : Str) (now : ℕ) (db : Db)
      (uri code st : Str) (ip verifier token : Str) (rate : IpRate) (at : Readings) (later : ℕ)
      → IsHealthy db
      → (handle_authorize (sqlite_api bcrypt) web crypto srv req random now db).0
        ≡ code_redirect uri code st
      → at.use_time < now + 60
      → (allow ip token_rate_limit at.rate_time rate).0 ≡ true
      → is_empty code ≡ false
      → is_empty req.client_id ≡ false
      → is_empty verifier ≡ false
      → crypto.encode (crypto.sha256 verifier) ≡ req.code_challenge
      → sign_access_token crypto srv.signing_key srv.issuer
          (lit "quick-tunnel")
          req.client_id
          (lit "mcp")
          []
          srv.expires_at
          at.sign_time
          at.jti
          at.sign_random
        ≡ some token
      → later < srv.expires_at
      → let after = (handle_authorize (sqlite_api bcrypt) web crypto srv req random now db).1 in
        ((handle_token
            (sqlite_api bcrypt)
            crypto
            srv
            at
            ip
            (some (form_for req code verifier))
            rate
            after).0
          ≡ token_issued token (remaining srv.expires_at at.until_time))
        × (validate crypto srv later token
            ≡ valid (record {
              issuer = srv.issuer;
              subject = lit "quick-tunnel";
              client_id = req.client_id;
              scope = lit "mcp";
              audience = srv.issuer ∷ [];
              expires_at = srv.expires_at;
            }))
  unfolding handle_token exchange redeem verify_pkce
  authorize_then_token lawful req random now db uri code st ip verifier token rate at later h e soon
        room full named shown proof signed live =
      let grant = authorize_granted req random now at.use_time db uri code st h e soon in
      (
        ground (
          arith,
          grant,
          eq_refl srv.tenant,
          eq_refl req.client_id,
          eq_refl req.redirect_uri,
          eq_refl (crypto.encode (crypto.sha256 verifier)),
          eq_refl req.code_challenge,
          eq_refl (lit "authorization_code"),
        ),
        ground (
          arith,
          validate-sign_access_token crypto lawful srv.signing_key srv.issuer (lit "quick-tunnel")
              req.client_id (lit "mcp") [] srv.expires_at at.sign_time later at.jti at.sign_random
              token signed,
          lt→ltb later srv.expires_at live,
        ),
      )
