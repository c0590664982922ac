-- ===== src/Oauth/Redeem.antt =====
-- What POST /token of internal/oauth asks of a code before it issues a token.
use mcptunnels.Prelude.{
  Str, lit, not, ◌||◌, some, Bool-cases, ◌≡◌, ◌≢◌, inl, inr, sym, ap, ◌∙◌, arith, is_empty, ◌==◌,
  eq_iff, hex_encode,
}
use mcptunnels.Sql.Integrity.{IsSound}
use mcptunnels.Act.{ok, Result-cases}
use mcptunnels.Driver.{Db}
use mcptunnels.Store.{Bcrypt, Grant}
use mcptunnels.Sqlite.{sqlite_api, consume_auth_code}
use mcptunnels.Sqlite.Codes.{consume-consume}
use mcptunnels.Oauth.Jwt.{Crypto}
use mcptunnels.Oauth.Rate.{IpRate, allow}
use mcptunnels.Oauth.Server.{Server}
use mcptunnels.Oauth.Handlers.{
  TokenForm, Readings, Remaining, token_issued, handle_token, exchange, redeem, verify_pkce,
  token_rate_limit,
}

module _ {Key : Type 0} (crypto : Crypto Key) (srv : Server Key) (at : Readings) where
  -- The grant fits the form: tenant, client, redirect URI, and the digest of the verifier.
  abbrev pub Fits : TokenForm → Grant → Type 0
  Fits form g =
      (g.tenant_slug ≡ srv.tenant)
      × (g.client_id ≡ form.client_id)
      × (g.redirect_uri ≡ form.redirect_uri)
      × (crypto.encode (crypto.sha256 form.code_verifier) ≡ g.code_challenge)

  redeem_sound :
      (bcrypt : Bcrypt) (form : TokenForm) (g : Grant) (token : Str) (left : Remaining)
      → redeem (sqlite_api bcrypt) crypto srv at form g ≡ token_issued token left
      → Fits form g
  unfolding redeem verify_pkce
  redeem_sound bcrypt form g token left e =
      elim (Bool-cases (
        not (g.tenant_slug == srv.tenant)
        || not (g.client_id == form.client_id)
        || not (g.redirect_uri == form.redirect_uri))) [
          | inl b ↦ absurd (ground (arith, b))
          | inr b ↦
              elim (Bool-cases
                (crypto.encode (crypto.sha256 form.code_verifier) == g.code_challenge)) [
                  | inr c ↦ absurd (ground (arith, b, c))
                  | inl c ↦ (
                    (eq_iff g.tenant_slug srv.tenant).0 (ground (arith, b)),
                    (eq_iff g.client_id form.client_id).0 (ground (arith, b)),
                    (eq_iff g.redirect_uri form.redirect_uri).0 (ground (arith, b)),
                    (eq_iff _ _).0 c,
                  )
                ]
        ]

  -- Whatever the driver does: where POST /token issues a token, the code of its form was claimed by that
  -- call, the code's grant is of this tenant, of the form's client and of the form's redirect URI, and
  -- the digest of the form's verifier is the challenge of the grant.
  pub handle_token_sound :
      (bcrypt : Bcrypt) (ip token : Str) (form : TokenForm) (left : Remaining) (rate : IpRate)
      (db : Db)
      → (handle_token (sqlite_api bcrypt) crypto srv at ip (some form) rate db).0
        ≡ token_issued token left
      → (g : Grant) × ((consume_auth_code (hex_encode (crypto.sha256 form.code)) at.use_time db).0
          ≡ ok g)
        × Fits form g
        × ((handle_token (sqlite_api bcrypt) crypto srv at ip (some form) rate db).2
            ≡ (consume_auth_code (hex_encode (crypto.sha256 form.code)) at.use_time db).1)
  unfolding handle_token exchange
  handle_token_sound bcrypt ip token form left rate db e =
      let used = consume_auth_code (hex_encode (crypto.sha256 form.code)) at.use_time db in
      elim (Bool-cases (allow ip token_rate_limit at.rate_time rate).0) [
        | inr a ↦ absurd (ground (arith, a))
        | inl a ↦ elim (Bool-cases (form.grant_type == lit "authorization_code")) [
          | inr b ↦ absurd (ground (arith, a, b))
          | inl b ↦
              elim (Bool-cases
                (is_empty form.code || is_empty form.client_id || is_empty form.code_verifier)) [
                  | inl c ↦ absurd (ground (arith, a, b, c))
                  | inr c ↦ elim (Result-cases used.0) [
                    | inr (x, u) ↦ absurd (ground (arith, a, b, c, u))
                    | inl (g, u) ↦ (
                      g,
                      u,
                      redeem_sound bcrypt form g token left (ground (arith, a, b, c, u)),
                      ground (arith, a, b, c, u),
                    )
                  ]
                ]
        ]
      ]

-- From tables that meet the schema's constraints, and whatever the driver does: a code for which POST
-- /token has issued a token is never exchanged again by the next request, whatever client, address,
-- tenant's server and time that request has.
pub handle_token-handle_token :
    {Key : Type 0} (bcrypt : Bcrypt) (crypto : Crypto Key) (srv srv' : Server Key)
    (at at' : Readings) (ip ip' token token' : Str) (form form' : TokenForm)
    (left left' : Remaining) (rate rate' : IpRate) (db : Db)
    → IsSound db.tables
    → form'.code ≡ form.code
    → (handle_token (sqlite_api bcrypt) crypto srv at ip (some form) rate db).0
      ≡ token_issued token left
    → (handle_token
        (sqlite_api bcrypt)
        crypto
        srv'
        at'
        ip'
        (some form')
        rate'
        (handle_token (sqlite_api bcrypt) crypto srv at ip (some form) rate db).2).0
      ≢ token_issued token' left'
handle_token-handle_token bcrypt crypto srv srv' at at' ip ip' token token' form form' left left'
      rate rate' db v same e again =
    let (g, used, fits, state) =
      handle_token_sound crypto srv at bcrypt ip token form left rate db e in
    let after = (handle_token (sqlite_api bcrypt) crypto srv at ip (some form) rate db).2 in
    let (g', used', fits', state') =
      handle_token_sound crypto srv' at' bcrypt ip' token' form' left' rate' after again in
    let claim = λ (code : Str) (s : Db).
      (consume_auth_code (hex_encode (crypto.sha256 code)) at'.use_time s).0 in
    consume-consume (hex_encode (crypto.sha256 form.code)) at.use_time at'.use_time db g g' v used
      (ap (claim form.code) (sym state) ∙ (ap (λ c. claim c after) (sym same) ∙ used'))
