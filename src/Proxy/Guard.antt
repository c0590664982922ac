-- ===== src/Proxy/Guard.antt =====
-- Which requests internal/proxy/proxy.go forwards.
use mathlib.Core.Path.{subst}
use mcptunnels.Prelude.{
  ℕ, Str, lit, true, false, ◌||◌, some, Option-cases, Bool-cases, ◌≡◌, ◌≢◌, ◌⊎◌, inl, inr, refl,
  arith, ◌==◌, eq_iff, is_empty, false, [], ap, ◌∙◌,
}
use mcptunnels.Act.{ok, Result-cases}
use mcptunnels.Store.{Api, Service}
use mcptunnels.ControlPlane.{bearer_key}
use mcptunnels.Oauth.Jwt.{Crypto, AccessClaims, Verdict, valid, refused}
use mcptunnels.Oauth.Server.{Resolver, Server, Making, server, validate}
use mcptunnels.Proxy.Path.{split_path}
use mcptunnels.Proxy.{
  ProxyRequest, forwarded, unauthorized, metadata_url, authorize, guard, serve_http, oversized,
}

Verdict-cases : (v : Verdict) → ((c : AccessClaims) × (v ≡ valid c)) ⊎ ((e : _) × (v ≡ refused e))
Verdict-cases (valid c) = inl (c, refl)
Verdict-cases (refused e) = inr (e, refl)

module _ {S Key : Type 0} (api : Api S) (crypto : Crypto Key) (base_url : Str) (making : Making)
    (now : ℕ) where
  -- A token that is not empty, and that the server of the tenant accepts now.
  abbrev pub Authorized : Str → Str → Resolver S Key → Type 0
  Authorized tenant header r =
      (is_empty (bearer_key header) ≡ false)
      × ((srv : Server Key) × (c : AccessClaims) × ((server api crypto base_url tenant making r).0
            ≡ some srv)
          × (validate crypto srv now (bearer_key header) ≡ valid c))

  authorize_sound :
      (tenant header : Str) (r : Resolver S Key)
      → (authorize api crypto base_url making now true tenant header r).0 ≡ true
      → Authorized tenant header r
  unfolding authorize
  authorize_sound tenant header r h = elim (Bool-cases (is_empty (bearer_key header))) [
    | inl e ↦ absurd (ground (arith, e))
    | inr e ↦ elim (Option-cases (server api crypto base_url tenant making r).0) [
      | inl n ↦ absurd (ground (arith, e, n))
      | inr (srv, n) ↦ elim (Verdict-cases (validate crypto srv now (bearer_key header))) [
        | inl (c, v) ↦ (e, (srv, c, n, v))
        | inr (x, v) ↦ absurd (ground (arith, e, n, v))
      ]
    ]
  ]

  guard_sound :
      (tenant service rest header t s u : Str) (svc : Service) (r : Resolver S Key)
      → (guard api crypto base_url making now true tenant service rest header svc r).0
        ≡ forwarded t s u
      → (tenant ≡ t)
        × (service ≡ s)
        × (rest ≡ u)
        × ((svc.auth_mode ≢ lit "oauth") ⊎ Authorized tenant header r)
  unfolding guard
  guard_sound tenant service rest header t s u svc r h =
      elim (Bool-cases (svc.auth_mode == lit "oauth")) [
        | inr e ↦ (
          ground (arith, e),
          ground (arith, e),
          ground (arith, e),
          inl (λ same. ground (arith, e, (eq_iff _ _).1 same)),
        )
        | inl e ↦
            elim (Bool-cases (authorize api crypto base_url making now true tenant header r).0) [
              | inr a ↦ absurd (ground (arith, e, a))
              | inl a ↦ (
                ground (arith, e, a),
                ground (arith, e, a),
                ground (arith, e, a),
                inr (authorize_sound tenant header r a),
              )
            ]
      ]

  -- Over any store, where the proxy has a resolver: a request is forwarded to a tenant's service only
  -- with the path that splitPath gives for them, when its declared length is at most the cap, when the
  -- store has that service, and when the service's mode is not "oauth" or the request bears a token that
  -- is not empty and that the server of that very tenant accepts at this time.
  pub serve_http_forwarded :
      (req : ProxyRequest) (r : Resolver S Key) (t s u : Str)
      → (serve_http api crypto base_url making now true req r).0 ≡ forwarded t s u
      → (split_path req.path ≡ (t, s, u))
        × (oversized req.content_length ≡ false)
        × ((svc : Service) × ((api.get_service t s r.store).0 ≡ ok svc)
            × ((svc.auth_mode ≢ lit "oauth")
                ⊎ Authorized t req.authorization
                    (record r { store = (api.get_service t s r.store).1 })))
  unfolding serve_http
  serve_http_forwarded req r t s u h =
      let (tenant, service, rest) = split_path req.path in
      let read = api.get_service tenant service r.store in
      elim (Bool-cases (is_empty tenant || is_empty service)) [
        | inl a ↦ absurd (ground (arith, a))
        | inr a ↦ elim (Bool-cases (oversized req.content_length)) [
          | inl b ↦ absurd (ground (arith, a, b))
          | inr b ↦ elim (Result-cases read.0) [
            | inr (x, c) ↦ absurd (ground (arith, a, b, c))
            | inl (svc, c) ↦
                let passed : (guard api crypto base_url making now true tenant service rest
                      req.authorization svc (record r { store = read.1 })).0
                    ≡ forwarded t s u =
                  ground (arith, a, b, c) in
                let (x, y, z, allowed) =
                  guard_sound tenant service rest req.authorization t s u svc
                    (record r { store = read.1 }) passed in
                rw (← x, ← y, ← z) (refl, b, (svc, c, allowed))
          ]
        ]
      ]

  -- A service without OAuth is open to all, and one with OAuth asks for a token where there is none.
  guard_open :
      (tenant service rest header : Str) (svc : Service) (r : Resolver S Key)
      → svc.auth_mode ≡ lit "open"
      → (guard api crypto base_url making now true tenant service rest header svc r).0
        ≡ forwarded tenant service rest
  unfolding guard ◌==◌
  guard_open tenant service rest header svc r h = rw h refl

  guard_asks :
      (tenant service rest header : Str) (svc : Service) (r : Resolver S Key)
      → svc.auth_mode ≡ lit "oauth"
      → bearer_key header ≡ []
      → (guard api crypto base_url making now true tenant service rest header svc r).0
        ≡ unauthorized (metadata_url api crypto base_url making now true tenant service)
  unfolding guard authorize ◌==◌
  guard_asks tenant service rest header svc r h b = rw (h, b) refl

  abbrev pub ComesToGuard : ProxyRequest → Service → Resolver S Key → Str × Str × Str → Type 0
  ComesToGuard req svc r split =
      let (tenant, service, rest) = split in
      is_empty tenant ≡ false
      → is_empty service ≡ false
      → (api.get_service tenant service r.store).0 ≡ ok svc
      → serve_http api crypto base_url making now true req r
        ≡ guard api crypto base_url making now true tenant service rest req.authorization svc
            (record r { store = (api.get_service tenant service r.store).1 })

  -- A request under a path of a service that the store has is judged by the guard.
  pub serve_http_guarded :
      (req : ProxyRequest) (svc : Service) (r : Resolver S Key)
      → oversized req.content_length ≡ false
      → ComesToGuard req svc r (split_path req.path)
  unfolding serve_http
  serve_http_guarded req svc r small t s found = rw (t, s, small, found) refl

  -- What the proxy answers where the path is one of a service that the store has.
  pub serve_http_answer :
      (req : ProxyRequest) (tenant service rest : Str) (svc : Service) (r : Resolver S Key)
      → split_path req.path ≡ (tenant, service, rest)
      → is_empty tenant ≡ false
      → is_empty service ≡ false
      → oversized req.content_length ≡ false
      → (api.get_service tenant service r.store).0 ≡ ok svc
      → (svc.auth_mode ≡ lit "open"
          → (serve_http api crypto base_url making now true req r).0
            ≡ forwarded tenant service rest)
        × (svc.auth_mode ≡ lit "oauth"
            → bearer_key req.authorization ≡ []
            → (serve_http api crypto base_url making now true req r).0
              ≡ unauthorized (metadata_url api crypto base_url making now true tenant service))
  serve_http_answer req tenant service rest svc r p t s small found =
      let judged =
        ap (λ o. o.0)
          (subst (ComesToGuard req svc r) p (serve_http_guarded req svc r small) t s found) in
      (
        λ h. judged ∙ guard_open tenant service rest req.authorization svc _ h,
        λ h b. judged ∙ guard_asks tenant service rest req.authorization svc _ h b,
      )
