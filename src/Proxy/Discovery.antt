-- ===== src/Proxy/Discovery.antt =====
-- From the answer 401 of internal/proxy/proxy.go to the documents of internal/oauth.
use mcptunnels.Prelude.{
  ℕ, Str, lit, Bool, false, some, [], ◌∷◌, ◌++◌, ◌≡◌, refl, arith, Lacks, has_prefix, cut_prefix,
  cut, split_at_byte-append, length, ltb, ap, if◌then◌else◌,
}
use mcptunnels.Store.{Api}
use mcptunnels.Oauth.Jwt.{Crypto}
use mcptunnels.Oauth.Server.{Server, Resolver, Making, server}
use mcptunnels.Oauth.WellKnown.{
  panicked, resource_prefix, protected_resource, well_known, well_known_served, document_for,
  tenant_part, resource_metadata,
}
use mcptunnels.Proxy.{metadata_url}

abbrev pub service_path : Str → Str → Str
service_path slug service = lit "/t/" ++ (slug ++ (lit "/s/" ++ service))

tenant_part-append : (slug more : Str) → Lacks 47 slug → tenant_part (slug ++ (47 ∷ more)) ≡ slug
unfolding tenant_part
tenant_part-append slug more h = ground (arith, split_at_byte-append 47 slug more h)

long_enough : (p tail : Str) → ltb (length (p ++ tail)) (length p) ≡ false
long_enough [] tail = ground arith
long_enough (c ∷ p) tail = ground (arith, long_enough p tail)

resource_document :
    {Key : Type 0} (srv : Server Key) (tail : Str)
    → document_for (resource_prefix ++ tail) srv
      ≡ protected_resource (srv.base_url ++ tail) srv.issuer
unfolding document_for resource_metadata has_prefix cut_prefix
resource_document srv tail =
    ap (λ short. if short then panicked else protected_resource (srv.base_url ++ tail) srv.issuer)
      (long_enough resource_prefix tail)

module _ {S Key : Type 0} (api : Api S) (crypto : Crypto Key) (base_url : Str) where
  -- For a tenant without a slash in its slug and with an authorization server, the URL in the WWW-Authenticate header of a refused request is, behind
  -- the base URL, a path at which the well-known handler answers with the URL of the very service, under
  -- the server's base URL, and with the issuer of the tenant's tokens.
  pub well_known-metadata_url :
      (making : Making) (now : ℕ) (has_resolver : Bool) (slug service : Str) (r r' : Resolver S Key)
      (srv : Server Key)
      → Lacks 47 slug
      → server api crypto base_url slug making r ≡ (some srv, r')
      → let path = lit "/.well-known/oauth-protected-resource" ++ service_path slug service in
        (metadata_url api crypto base_url making now has_resolver slug service ≡ base_url ++ path)
        × (well_known api crypto base_url path making r
            ≡ (protected_resource (srv.base_url ++ service_path slug service) srv.issuer, r'))
  unfolding has_prefix cut cut_prefix
  well_known-metadata_url making now has_resolver slug service r r' srv h e =
      let tail = slug ++ (47 ∷ (lit "s/" ++ service)) in
      let part = tenant_part-append slug (lit "s/" ++ service) h in
      let path = lit "/.well-known/oauth-protected-resource" ++ service_path slug service in
      (
        refl,
        rw
            (
              well_known_served api crypto base_url path
                  (lit "/.well-known/oauth-protected-resource") tail slug making r r' srv refl refl
                  part e,
              resource_document srv (service_path slug service),
            )
            refl,
      )
