-- ===== src/Oauth/Handlers/Authorize.antt =====
-- handleAuthorize of internal/oauth/authorize.go.
use mcptunnels.Prelude.{
  ℕ, ◌+◌, Str, String, lit, Bool, false, not, ◌||◌, Option, none, some, List, is_empty, any, ◌==◌,
  hex_encode, if◌then◌else◌,
}
use mcptunnels.Act.{Result, ok, err}
use mcptunnels.Store.{Api, Service}
use mcptunnels.Oauth.Jwt.{Crypto}
use mcptunnels.Oauth.Server.{Server}
use mcptunnels.Oauth.Handlers.Answers.{
  Web, Answer, failed, panicked, error_redirect, password_form, code_redirect,
}

-- containsString
unfoldable pub contains_string : List Str → Str → Bool
unfolding any
contains_string haystack needle = any (λ s. s == needle) haystack

-- The parameters of a request to /authorize.
pub record AuthorizeRequest : Type 0 where
  pub client_id : Str
  pub redirect_uri : Str
  pub response_type : Str
  pub code_challenge : Str
  pub challenge_method : Str
  pub req_state : Str
  pub password : Str

-- authError: a redirect wherever the given URI parses.
unfoldable pub auth_error : Web → AuthorizeRequest → String → Answer
auth_error web req code =
    if is_empty req.redirect_uri then failed 400 code else elim (web.parse_url req.redirect_uri) [
      | none ↦ failed 400 code
      | some u ↦ error_redirect req.redirect_uri code req.req_state
    ]

module _ {S Key : Type 0} (api : Api S) (web : Web) (crypto : Crypto Key) (srv : Server Key) where
  abbrev has_hash : Result Service → Bool
  has_hash (err e) = false
  has_hash (ok svc) = not (is_empty svc.password_hash)

  abbrev accepted : Result Bool → Bool
  accepted (err e) = false
  accepted (ok b) = b

  -- hasPassword, and then the password's check; none lets the request pass.
  unfoldable pub password_gate : Str → S → Option Answer × S
  password_gate password s =
      let (svc, s') = api.get_service srv.tenant (lit "mcp") s in
      let (valid, s'') = api.validate_password srv.tenant (lit "mcp") password s' in
      if not (has_hash svc)
      then (none, s')
      else if accepted valid
      then (none, s'')
      else (some (password_form (not (is_empty password))), s'')

  -- The code, 32 random bytes in hexadecimal, is stored by its digest for one minute.
  unfoldable pub issue_code : AuthorizeRequest → Str → ℕ → S → Answer × S
  unfolding auth_error hex_encode
  issue_code req random now s =
      let code = hex_encode random in
      let (r, s') =
        api.create_auth_code (hex_encode (crypto.sha256 code)) srv.tenant req.client_id
          req.redirect_uri req.code_challenge (now + 60) s in
      elim r [
        | err e ↦ (auth_error web req "server_error", s')
        | ok u ↦ elim (web.parse_url req.redirect_uri) [
          | none ↦ (panicked, s')
          | some url ↦ (code_redirect req.redirect_uri code req.req_state, s')
        ]
      ]

  abbrev gated : AuthorizeRequest → Str → ℕ → S → Answer × S
  gated req random now s =
      let (stop, s') = password_gate req.password s in
      let issued = issue_code req random now s' in elim stop [ some a ↦ (a, s') | none ↦ issued ]

  -- handleAuthorize from the look-up of the client on.
  unfoldable pub known_client : AuthorizeRequest → Str → ℕ → S → Answer × S
  unfolding issue_code password_gate auth_error contains_string
  known_client req random now s =
      let (uris, s') = api.get_client srv.tenant req.client_id s in
      let rest = gated req random now s' in
      elim uris [
        | err e ↦ (auth_error web req "invalid_client", s')
        | ok json ↦ elim (web.read_strings json) [
          | none ↦ (auth_error web req "server_error", s')
          | some registered ↦
              if contains_string registered req.redirect_uri
              then rest
              else (auth_error web req "invalid_request", s')
        ]
      ]

  unfoldable pub handle_authorize : AuthorizeRequest → Str → ℕ → S → Answer × S
  unfolding known_client auth_error
  handle_authorize req random now s =
      let rest = known_client req random now s in
      if not (req.response_type == lit "code")
      then (auth_error web req "unsupported_response_type", s)
      else if is_empty req.code_challenge || not (req.challenge_method == lit "S256")
      then (auth_error web req "invalid_request", s)
      else rest
