-- ===== src/Oauth/Handlers/Register.antt =====
-- handleRegister of internal/oauth/register.go.
use mcptunnels.Prelude.{
  ℕ, Str, lit, Bool, false, not, ◌||◌, ◌&&◌, Option, none, some, List, [], ◌∷◌, ◌++◌, is_empty, any,
  ◌==◌, hex_encode, if◌then◌else◌,
}
use mcptunnels.Act.{ok, err}
use mcptunnels.Store.{Api}
use mcptunnels.Oauth.Rate.{IpRate, allow}
use mcptunnels.Oauth.Server.{Server}
use mcptunnels.Oauth.Handlers.Answers.{Web, Answer, failed, client_created}

-- A registration's decoded body.
pub record Registration : Type 0 where
  pub redirect_uris : List Str
  pub auth_method : Str
  pub client_name : Str

unfoldable pub valid_redirect_uri : Web → Str → Bool
valid_redirect_uri web uri = elim (web.parse_url uri) [
  | none ↦ false
  | some (scheme, host) ↦
      scheme == lit "https"
      || (scheme == lit "http" && (host == lit "localhost" || web.is_loopback host))
]

abbrev pub has_invalid : Web → List Str → Bool
has_invalid web uris = any (λ u. not (valid_redirect_uri web u)) uris

abbrev pub register_rate_limit : ℕ
register_rate_limit = 20

module _ {S Key : Type 0} (api : Api S) (web : Web) (srv : Server Key) where
  -- The registration of a client whose body is in order; `random` is 16 bytes.
  unfoldable pub create_client : Str → ℕ → Registration → S → Answer × S
  unfolding hex_encode
  create_client random now reg s =
      let client_id = lit "mcp_" ++ hex_encode random in
      let (r, s') =
        api.create_client srv.tenant client_id (web.write_strings reg.redirect_uris) now s in
      elim r [
        | err e ↦ (failed 500 "server_error", s')
        | ok u ↦ (client_created client_id reg.redirect_uris reg.client_name, s')
      ]

  abbrev pub public_method : Str → Bool
  public_method m = is_empty m || m == lit "none"

  unfoldable pub check_registration : Str → ℕ → Registration → S → Answer × S
  unfolding create_client any valid_redirect_uri
  check_registration random now reg s =
      let made = create_client random now reg s in
      if not (public_method reg.auth_method)
      then (failed 400 "invalid_client_metadata", s)
      else elim (reg.redirect_uris) [
        | [] ↦ (failed 400 "invalid_client_metadata", s)
        | u ∷ us ↦
            if has_invalid web reg.redirect_uris
            then (failed 400 "invalid_redirect_uri", s)
            else made
      ]

  -- handleRegister; no body is one that does not decode.
  unfoldable pub handle_register :
      Str → ℕ → Str → Option Registration → IpRate → S → Answer × IpRate × S
  unfolding check_registration allow
  handle_register ip now random body rate s =
      let (allowed, rate') = allow ip register_rate_limit now rate in
      if not allowed then (failed 429 "rate_limited", rate', s) else elim body [
        | none ↦ (failed 400 "invalid_client_metadata", rate', s)
        | some reg ↦ let (a, s') = check_registration random now reg s in (a, rate', s')
      ]
