-- ===== src/Oauth/Server.antt =====
-- internal/oauth/oauth.go and internal/oauth/metadata.go: a tenant's authorization server, and the
-- resolver that makes and keeps the servers of all tenants.
use mcptunnels.Prelude.{
  ℕ, ◌+◌, ◌*◌, Str, lit, Bool, Option, none, some, Option-cases, List, ◌∷◌, ◌++◌, ◌≡◌, inl, inr,
  arith, find, ◌==◌, eq_refl, trim_right, cut_prefix, split_at_byte,
}
use mcptunnels.Act.{Act, Result-cases, ok, err, hashing}
use mcptunnels.Store.{Api, Tenant}
use mcptunnels.Oauth.Jwt.{Crypto, Verdict, validate_access_token}

pub record Server (Key : Type 0) : Type 0 where
  pub issuer : Str
  pub base_url : Str
  pub tenant : Str
  pub signing_key : Key
  pub expires_at : ℕ

pub record Cached (Key : Type 0) : Type 0 where
  pub slug : Str
  pub server : Server Key

-- The store, and the resolver's map of servers.
pub record Resolver (S Key : Type 0) : Type 0 where
  pub store : S
  pub servers : List (Cached Key)

-- What a server's making reads beside the store: a generated key, if the system gives one, and the
-- clock at each reading.
pub record Making : Type 0 where
  pub generated_pem : Option Str
  pub key_time : ℕ
  pub fallback_time : ℕ

abbrev pub is_cached : {Key : Type 0} → Str → Cached Key → Bool
is_cached slug c = c.slug == slug

module _ {S Key : Type 0} (api : Api S) (crypto : Crypto Key) where
  -- The tenant's stored key, or a new one that is stored.
  unfoldable pub load_key : Str → Making → Act S Str
  load_key tenant making s =
      let (stored, s') = api.get_signing_key tenant s in
      elim stored [
        | ok pem ↦ (ok pem, s')
        | err e ↦ elim making.generated_pem [
          | none ↦ (err hashing, s')
          | some pem ↦
              let (r, s'') = api.create_signing_key tenant pem making.key_time s' in
              elim r [ ok u ↦ (ok pem, s'') | err e' ↦ (err e', s'') ]
        ]
      ]

  abbrev build : Str → Str → ℕ → Key → Server Key
  build base_url tenant expires_at key = record {
    issuer = trim_right b'/' base_url ++ (lit "/t/" ++ tenant);
    base_url = trim_right b'/' base_url;
    tenant = tenant;
    signing_key = key;
    expires_at = expires_at;
  }

  -- NewServer; none is an error of any kind.
  unfoldable pub new_server : Str → Str → ℕ → Making → S → Option (Server Key) × S
  unfolding load_key
  new_server base_url tenant expires_at making s =
      let (loaded, s') = load_key tenant making s in
      elim loaded [
        | err e ↦ (none, s')
        | ok pem ↦ elim (crypto.parse_key pem) [
          | none ↦ (none, s')
          | some key ↦ (some (build base_url tenant expires_at key), s')
        ]
      ]

  abbrev expiry : Making → Tenant → ℕ
  expiry making t = elim (t.expires_at) [ none ↦ making.fallback_time + 24 * 3600 | some at ↦ at ]

  abbrev keep_server : Str → Option (Server Key) → List (Cached Key) → List (Cached Key)
  keep_server slug none servers = servers
  keep_server slug (some srv) servers = record { slug = slug; server = srv } ∷ servers

  -- The server of a tenant that is not in the map.
  unfoldable pub make_server :
      Str → Str → Making → Resolver S Key → Option (Server Key) × Resolver S Key
  unfolding new_server
  make_server base_url slug making r =
      let (found, s') = api.get_tenant slug r.store in
      elim found [
        | err e ↦ (none, record r { store = s' })
        | ok t ↦
            let (srv, s'') = new_server base_url slug (expiry making t) making s' in
            (srv, record { store = s''; servers = keep_server slug srv r.servers })
      ]

  -- Resolver.server and Resolver.Validator
  unfoldable pub server : Str → Str → Making → Resolver S Key → Option (Server Key) × Resolver S Key
  unfolding make_server find
  server base_url slug making r =
      let made = make_server base_url slug making r in
      elim (find (is_cached slug) r.servers) [ none ↦ made | some c ↦ (some c.server, r) ]

  -- Once the resolver has given out a tenant's server, every later call gives the same server and
  -- leaves the store and the map alone, whatever the store holds by then (deleted tenants too) and
  -- whatever the clock and the generated key of that call are.
  pub server-server :
      (base_url slug : Str) (making later : Making) (r : Resolver S Key) (srv : Server Key)
      (store : S)
      → (server base_url slug making r).0 ≡ some srv
      → let after = record ((server base_url slug making r).1) { store = store } in
        server base_url slug later after ≡ (some srv, after)
  unfolding server make_server find
  server-server base_url slug making later r srv store h =
      elim (Option-cases (find (is_cached slug) r.servers)) [
        | inr (c, e) ↦ ground (arith, e)
        | inl e ↦ elim (Result-cases (api.get_tenant slug r.store).0) [
          | inr (x, g) ↦ absurd (ground (arith, e, g))
          | inl (t, g) ↦ ground (arith, e, g, eq_refl slug)
        ]
      ]

-- Where a request under /t/ goes: on to the proxy, or to the tenant's server with the path that
-- follows the tenant.
pub data Route (Key : Type 0) : Type 0 where
  next : Route Key
  to_server : Server Key → Str → Route Key

module _ {S Key : Type 0} (api : Api S) (crypto : Crypto Key) where
  -- Resolver.Handler
  unfoldable pub route : Str → Str → Making → Resolver S Key → Route Key × Resolver S Key
  unfolding cut_prefix split_at_byte server
  route base_url path making r = elim (cut_prefix (lit "/t/") path) [
    | none ↦ (next, r)
    | some rest ↦ elim (split_at_byte b'/' rest) [
      | none ↦ (next, r)
      | some (slug, sub_path) ↦
          let (srv, r') = server api crypto base_url slug making r in
          elim srv [ none ↦ (next, r') | some found ↦ (to_server found sub_path, r') ]
    ]
  ]

-- Server.ValidateAccessToken
abbrev pub validate : {Key : Type 0} → Crypto Key → Server Key → ℕ → Str → Verdict
validate crypto srv now token = validate_access_token crypto srv.signing_key srv.issuer now token

-- asMetadata: the endpoints of the document.
pub record AsMetadata : Type 0 where
  pub issuer : Str
  pub authorization_endpoint : Str
  pub token_endpoint : Str
  pub registration_endpoint : Str
  pub jwks_uri : Str

unfoldable pub as_metadata : {Key : Type 0} → Server Key → AsMetadata
as_metadata srv = record {
  issuer = srv.issuer;
  authorization_endpoint = srv.issuer ++ lit "/authorize";
  token_endpoint = srv.issuer ++ lit "/token";
  registration_endpoint = srv.issuer ++ lit "/register";
  jwks_uri = srv.issuer ++ lit "/jwks.json";
}
