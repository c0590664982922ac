-- ===== src/Router/Endpoints.antt =====
-- From the metadata document of a tenant's authorization server, as internal/oauth/metadata.go writes it, to the
-- handlers of the URLs in it.
use mathlib.Core.List.{append_assoc}
use mcptunnels.Prelude.{
  Str, lit, true, false, ◌∙◌, some, List, [], ◌∷◌, ◌++◌, ◌==◌, ◌≡◌, refl, arith, is_empty, Lacks,
  All, split_at_byte-append, cut_prefix,
}
use mcptunnels.Store.{Api}
use mcptunnels.Oauth.Jwt.{Crypto}
use mcptunnels.Oauth.Server.{Server, Resolver, Making, server, route, to_server, as_metadata}
use mcptunnels.Router.{
  split_slashes, segments_of, fits, is_own, first_match, handled, dispatch, tenant_servers,
  root_mux, matched, is_plain, is_clean, tenant_mux, TenantHandler, ends_in_slash, authorizing,
  exchanging, registering, key_set,
}
use mcptunnels.Router.Segments.{
  split_slashes-append, split_slashes_bare, longer, settled, is_plain_full, dispatch-matched,
}

-- A path under a tenant whose next segment is not "s" goes to the tenants' servers.
to_tenants :
    (method slug tail t : Str) (ts : List Str)
    → Lacks 47 slug
    → is_empty slug ≡ false
    → split_slashes tail ≡ t ∷ ts
    → (t == lit "s") ≡ false
    → matched root_mux method (lit "/t/" ++ (slug ++ (47 ∷ tail))) ≡ handled tenant_servers
unfolding matched first_match fits is_own segments_of split_slashes ◌==◌
to_tenants method slug tail t ts l full split other =
    let one = split_slashes-append slug tail l in
    rw (one, split, full, other)
      (rw (longer slug t ts, longer slug t (ts ++ ([] ∷ [])))
        (settled (ends_in_slash (t ∷ ts)) (handled tenant_servers)))

tenants_clean :
    (slug name : Str)
    → Lacks 47 slug
    → is_plain slug ≡ true
    → Lacks 47 name
    → is_plain name ≡ true
    → is_clean (segments_of (lit "/t/" ++ (slug ++ (47 ∷ name)))) ≡ true
unfolding is_clean segments_of split_slashes ◌==◌
tenants_clean slug name l plain l' plain' =
    let one = split_slashes-append slug name l in
    rw (one, split_slashes_bare name l', plain) (ground (arith, plain'))

-- The URLs of the metadata document of a tenant's server, with the methods and the handlers they are for.
abbrev pub advertised : {Key : Type 0} → Server Key → List (Str × Str × TenantHandler)
advertised srv =
    let d = as_metadata srv in
    (lit "GET", d.authorization_endpoint, authorizing)
    ∷ (lit "POST", d.authorization_endpoint, authorizing)
    ∷ (lit "POST", d.token_endpoint, exchanging)
    ∷ (lit "POST", d.registration_endpoint, registering)
    ∷ (lit "GET", d.jwks_uri, key_set)
    ∷ []

module _ {S Key : Type 0} (api : Api S) (crypto : Crypto Key) (base_url slug : Str)
    (making : Making) (r r' : Resolver S Key) (srv : Server Key) where
  -- What becomes of a request to a URL: it is one under the base URL, the root mux gives its path to the tenants'
  -- servers, the resolver finds this one, and its mux the handler.
  abbrev pub Arrives : Str × Str × TenantHandler → Type 0
  Arrives (method, url, handler) =
      (path : Str) × (url ≡ base_url ++ (lit "/t/" ++ (slug ++ path)))
      × (dispatch root_mux method (lit "/t/" ++ (slug ++ path)) ≡ handled tenant_servers)
      × (route api crypto base_url (lit "/t/" ++ (slug ++ path)) making r
          ≡ (to_server srv path, r'))
      × (dispatch tenant_mux method path ≡ handled handler)

  routed :
      (tail : Str)
      → Lacks 47 slug
      → server api crypto base_url slug making r ≡ (some srv, r')
      → route api crypto base_url (lit "/t/" ++ (slug ++ (47 ∷ tail))) making r
        ≡ (to_server srv (47 ∷ tail), r')
  unfolding route cut_prefix
  routed tail l e = ground (arith, split_at_byte-append 47 slug tail l, e)

  under_base :
      (tail : Str)
      → srv.issuer ≡ base_url ++ (lit "/t/" ++ slug)
      → srv.issuer ++ tail ≡ base_url ++ (lit "/t/" ++ (slug ++ tail))
  under_base tail i = rw i (append_assoc base_url (lit "/t/" ++ slug) tail)

  -- One URL: `name` is what follows the issuer and a slash.
  arrives :
      (method name : Str) (handler : TenantHandler)
      → Lacks 47 slug
      → is_plain slug ≡ true
      → server api crypto base_url slug making r ≡ (some srv, r')
      → srv.issuer ≡ base_url ++ (lit "/t/" ++ slug)
      → Lacks 47 name
      → is_plain name ≡ true
      → (name == lit "s") ≡ false
      → dispatch tenant_mux method (47 ∷ name) ≡ handled handler
      → Arrives (method, srv.issuer ++ (47 ∷ name), handler)
  arrives method name handler l plain e i bare fine other last = (
    47 ∷ name,
    under_base (47 ∷ name) i,
    dispatch-matched root_mux method (lit "/t/" ++ (slug ++ (47 ∷ name)))
          (tenants_clean slug name l plain bare fine)
        ∙ to_tenants method slug name name [] l (is_plain_full slug plain)
            (split_slashes_bare name bare) other,
    routed name l e,
    last,
  )

  -- For a tenant, whose slug is not empty, ".", or ".." and holds no slash, with an authorization server whose issuer is its URL under the base URL: each URL of the
  -- metadata document lies under the base URL, and a request to it, with its method, is given by the
  -- server's mux to the tenants' servers and not to the proxy, by the resolver to this tenant's server with
  -- the rest of the path, and by the mux of that one to the endpoint's own handler.
  pub advertised-Arrives :
      Lacks 47 slug
      → is_plain slug ≡ true
      → server api crypto base_url slug making r ≡ (some srv, r')
      → srv.issuer ≡ base_url ++ (lit "/t/" ++ slug)
      → All Arrives (advertised srv)
  unfolding as_metadata dispatch is_clean matched first_match fits is_own segments_of split_slashes
      ◌==◌
  advertised-Arrives l plain e i = (
    arrives (lit "GET") (lit "authorize") authorizing l plain e i (ground arith) refl refl refl,
    (
      arrives (lit "POST") (lit "authorize") authorizing l plain e i (ground arith) refl refl refl,
      (
        arrives (lit "POST") (lit "token") exchanging l plain e i (ground arith) refl refl refl,
        (
          arrives (lit "POST") (lit "register") registering l plain e i (ground arith) refl refl
              refl,
          (
            arrives (lit "GET") (lit "jwks.json") key_set l plain e i (ground arith) refl refl refl,
            tt,
          ),
        ),
      ),
    ),
  )
