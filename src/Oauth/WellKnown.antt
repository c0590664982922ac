-- ===== src/Oauth/WellKnown.antt =====
-- WellKnownHandler of internal/oauth/oauth.go and resourceMetadata of internal/oauth/metadata.go: the
-- documents by which a client finds a tenant's authorization server.
use mcptunnels.Prelude.{
  Str, lit, true, not, none, some, ◌++◌, ◌≡◌, arith, has_prefix, cut, split_at_byte, length, drop,
  ltb, if◌then◌else◌,
}
use mcptunnels.Store.{Api}
use mcptunnels.Oauth.Jwt.{Crypto}
use mcptunnels.Oauth.Server.{Server, Resolver, Making, server, AsMetadata, as_metadata}

abbrev pub resource_prefix : Str
resource_prefix = lit "/.well-known/oauth-protected-resource"

pub data Document : Type 0 where
  not_found : Document
  authorization_server : AsMetadata → Document
  -- the URL of the resource and its authorization server
  protected_resource : Str → Str → Document
  -- a slice that starts behind the end of the path
  panicked : Document

unfoldable pub resource_metadata : {Key : Type 0} → Server Key → Str → Document
resource_metadata srv path =
    if ltb (length path) (length resource_prefix)
    then panicked
    else protected_resource (srv.base_url ++ drop (length resource_prefix) path) srv.issuer

unfoldable pub document_for : {Key : Type 0} → Str → Server Key → Document
unfolding has_prefix as_metadata resource_metadata
document_for path srv =
    if has_prefix (lit "/.well-known/oauth-authorization-server") path
    then authorization_server (as_metadata srv)
    else resource_metadata srv path

-- The tenant in what follows the first "/t/".
unfoldable pub tenant_part : Str → Str
unfolding split_at_byte
tenant_part rest = elim (split_at_byte 47 rest) [ none ↦ rest | some (slug, more) ↦ slug ]

module _ {S Key : Type 0} (api : Api S) (crypto : Crypto Key) where
  unfoldable pub well_known : Str → Str → Making → Resolver S Key → Document × Resolver S Key
  unfolding has_prefix cut tenant_part server document_for
  well_known base_url path making r =
      if not (has_prefix (lit "/.well-known/oauth-") path)
      then (not_found, r)
      else elim (cut (lit "/t/") path) [
        | none ↦ (not_found, r)
        | some (before, rest) ↦
            let (found, r') = server api crypto base_url (tenant_part rest) making r in
            elim found [ none ↦ (not_found, r') | some srv ↦ (document_for path srv, r') ]
      ]

  -- A path whose first "/t/" is followed by a tenant with a server.
  pub well_known_served :
      (base_url path before rest slug : Str) (making : Making) (r r' : Resolver S Key)
      (srv : Server Key)
      → has_prefix (lit "/.well-known/oauth-") path ≡ true
      → cut (lit "/t/") path ≡ some (before, rest)
      → tenant_part rest ≡ slug
      → server api crypto base_url slug making r ≡ (some srv, r')
      → well_known base_url path making r ≡ (document_for path srv, r')
  unfolding well_known
  well_known_served base_url path before rest slug making r r' srv w c t e =
      ground (arith, w, c, t, e)
