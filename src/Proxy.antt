-- ===== src/Proxy.antt =====
-- internal/proxy/proxy.go: the public handler, up to the forwarding of a request, which is
-- httputil.ReverseProxy over the gateway's Dial.
pub mod Path
pub mod Guard
pub mod Discovery
pub mod Admission
use mcptunnels.Prelude.{
  ℕ, ◌*◌, ◌^◌, Str, lit, Bool, true, false, not, ◌||◌, ◌&&◌, Option, none, some, ◌++◌, ◌==◌,
  is_empty, ltb, if◌then◌else◌,
}
use mcptunnels.Act.{Result, ok, err, Error, not_found}
use mcptunnels.Store.{Api, Service}
use mcptunnels.ControlPlane.{bearer_key}
use mcptunnels.Oauth.Jwt.{Crypto, Verdict, valid, refused}
use mcptunnels.Oauth.Server.{Resolver, Server, Making, server, validate}
use mcptunnels.Proxy.Path.{split_path}

-- A content length that is not known is none.
pub record ProxyRequest : Type 0 where
  pub path : Str
  pub content_length : Option ℕ
  pub authorization : Str

pub data Outcome : Type 0 where
  no_such_service : Outcome
  too_large : Outcome
  -- a nil service is dereferenced
  panicked : Outcome
  -- the URL of the metadata for the WWW-Authenticate header
  unauthorized : Str → Outcome
  -- the tenant and the service that are dialed, and the path that is sent
  forwarded : Str → Str → Str → Outcome

abbrev pub max_request_body : ℕ
max_request_body = 8 * 2 ^ 20

abbrev pub oversized : Option ℕ → Bool
oversized none = false
oversized (some n) = ltb max_request_body n

abbrev pub is_valid : Verdict → Bool
is_valid (valid c) = true
is_valid (refused e) = false

module _ {S Key : Type 0} (api : Api S) (crypto : Crypto Key) (base_url : Str) (making : Making)
    (now : ℕ) (has_resolver : Bool) where
  -- Handler.authorize
  unfoldable pub authorize : Str → Str → Resolver S Key → Bool × Resolver S Key
  unfolding bearer_key server
  authorize tenant header r =
      let token = bearer_key header in
      let (found, r') = server api crypto base_url tenant making r in
      if is_empty token then (false, r) else elim found [
        | none ↦ (false, r')
        | some srv ↦ (is_valid (validate crypto srv now token), r')
      ]

  abbrev pub metadata_url : Str → Str → Str
  metadata_url tenant service =
      base_url
      ++ (lit "/.well-known/oauth-protected-resource/t/" ++ (tenant ++ (lit "/s/" ++ service)))

  -- A service that was found.
  unfoldable pub guard : Str → Str → Str → Str → Service → Resolver S Key → Outcome × Resolver S Key
  unfolding authorize
  guard tenant service rest header svc r =
      let (allowed, r') = authorize tenant header r in
      if not (svc.auth_mode == lit "oauth" && has_resolver)
      then (forwarded tenant service rest, r)
      else if allowed
      then (forwarded tenant service rest, r')
      else (unauthorized (metadata_url tenant service), r')

  unfoldable pub serve_http : ProxyRequest → Resolver S Key → Outcome × Resolver S Key
  unfolding guard split_path
  serve_http req r =
      let (tenant, service, rest) = split_path req.path in
      let (svc, s') = api.get_service tenant service r.store in
      let found =
        λ (v : Service). guard tenant service rest req.authorization v (record r { store = s' }) in
      if is_empty tenant || is_empty service
      then (no_such_service, r)
      else if oversized req.content_length
      then (too_large, r)
      else elim svc [
        | err not_found ↦ (no_such_service, record r { store = s' })
        | err e ↦ (panicked, record r { store = s' })
        | ok v ↦ found v
      ]
