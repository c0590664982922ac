-- ===== src/Oauth/Handlers/Token.antt =====
-- handleToken of internal/oauth/token.go.
use mcptunnels.Prelude.{
  ℕ, Str, lit, Bool, not, ◌||◌, Option, none, some, [], is_empty, ◌==◌, hex_encode, if◌then◌else◌,
}
use mcptunnels.Act.{ok, err}
use mcptunnels.Store.{Api, Grant}
use mcptunnels.Oauth.Jwt.{Crypto, sign_access_token}
use mcptunnels.Oauth.Rate.{IpRate, allow}
use mcptunnels.Oauth.Server.{Server}
use mcptunnels.Oauth.Handlers.Answers.{Answer, failed, token_issued, remaining}

abbrev pub token_rate_limit : ℕ
token_rate_limit = 60

-- The form of a request to /token.
pub record TokenForm : Type 0 where
  pub grant_type : Str
  pub code : Str
  pub client_id : Str
  pub redirect_uri : Str
  pub code_verifier : Str

-- What handleToken reads of the clock, at each reading, and of the system's randomness.
pub record Readings : Type 0 where
  pub rate_time : ℕ
  pub use_time : ℕ
  pub sign_time : ℕ
  pub until_time : ℕ
  pub jti : Str
  pub sign_random : Str

module _ {S Key : Type 0} (api : Api S) (crypto : Crypto Key) (srv : Server Key)
    (now : Readings) where
  unfoldable pub verify_pkce : Str → Str → Bool
  verify_pkce verifier challenge = crypto.encode (crypto.sha256 verifier) == challenge

  abbrev issue : Str → Answer
  issue client_id =
      elim (sign_access_token crypto srv.signing_key srv.issuer (lit "quick-tunnel") client_id
        (lit "mcp") [] srv.expires_at now.sign_time now.jti now.sign_random) [
          | none ↦ failed 500 "server_error"
          | some token ↦ token_issued token (remaining srv.expires_at now.until_time)
        ]

  -- What a consumed code is worth to the client that shows it.
  unfoldable pub redeem : TokenForm → Grant → Answer
  unfolding verify_pkce sign_access_token
  redeem form g =
      if not (g.tenant_slug == srv.tenant)
        || not (g.client_id == form.client_id)
        || not (g.redirect_uri == form.redirect_uri)
      then failed 400 "invalid_grant"
      else if not (verify_pkce form.code_verifier g.code_challenge)
      then failed 400 "invalid_grant"
      else issue form.client_id

  unfoldable pub exchange : TokenForm → S → Answer × S
  unfolding redeem hex_encode
  exchange form s =
      let (r, s') = api.consume_auth_code (hex_encode (crypto.sha256 form.code)) now.use_time s in
      if not (form.grant_type == lit "authorization_code")
      then (failed 400 "unsupported_grant_type", s)
      else if is_empty form.code || is_empty form.client_id || is_empty form.code_verifier
      then (failed 400 "invalid_request", s)
      else elim r [ err e ↦ (failed 400 "invalid_grant", s') | ok g ↦ (redeem form g, s') ]

  -- handleToken; no form is one that does not parse.
  unfoldable pub handle_token : Str → Option TokenForm → IpRate → S → Answer × IpRate × S
  unfolding exchange allow
  handle_token ip body rate s =
      let (allowed, rate') = allow ip token_rate_limit now.rate_time rate in
      if not allowed then (failed 429 "rate_limited", rate', s) else elim body [
        | none ↦ (failed 400 "invalid_request", rate', s)
        | some form ↦ let (a, s') = exchange form s in (a, rate', s')
      ]
