-- ===== src/Proxy/Admission.antt =====
-- From the token that internal/oauth signs to the request that internal/proxy/proxy.go forwards.
use mcptunnels.Prelude.{
  Bool, ℕ, Str, lit, true, false, some, Option-cases, Bool-cases, [], ◌∷◌, ◌++◌, ◌≡◌, inl, inr,
  refl, ap, ◌∙◌, arith, ◌==◌, is_empty, ltb, if◌then◌else◌,
}
use mathlib.Core.Path.{subst}
use mcptunnels.Act.{ok}
use mcptunnels.Store.{Api, Service}
use mcptunnels.ControlPlane.{bearer_key}
use mcptunnels.Oauth.Jwt.{Crypto, IsCrypto, sign_access_token, signing_input, Payload}
use mcptunnels.Oauth.Tokens.{validate-sign_access_token}
use mcptunnels.Oauth.Server.{Resolver, Server, Making, server, validate}
use mcptunnels.Proxy.Path.{split_path}
use mcptunnels.Proxy.{
  Outcome, ProxyRequest, forwarded, unauthorized, metadata_url, is_valid, authorize, guard,
  serve_http, oversized,
}
use mcptunnels.Proxy.Guard.{ComesToGuard, serve_http_guarded}

full_behind : (x y : Str) (c : ℕ) → is_empty (x ++ (c ∷ y)) ≡ false
full_behind [] y c = refl
full_behind (d ∷ x) y c = refl

module _ {S Key : Type 0} (api : Api S) (crypto : Crypto Key) (base_url : Str) (making : Making)
    (now : ℕ) where
  signed_full :
      (key : Key) (issuer subject client_id scope resource : Str) (expires_at issued : ℕ)
      (jti random token : Str)
      → sign_access_token crypto key issuer subject client_id scope resource expires_at issued jti
          random
        ≡ some token
      → is_empty token ≡ false
  unfolding sign_access_token signing_input
  signed_full key issuer subject client_id scope resource expires_at issued jti random token h =
      let p : Payload = record {
        iss = issuer;
        sub = subject;
        audience = if is_empty resource then issuer else resource;
        expires = expires_at;
        issued_at = issued;
        jti = jti;
        client = client_id;
        scopes = scope;
      } in
      let text = crypto.encode crypto.header_json ++ b'.' ∷ crypto.encode (crypto.payload_json p) in
      elim (Option-cases (crypto.sign key (crypto.sha256 text) random)) [
        | inl e ↦ absurd (ground (arith, e))
        | inr (sig, e) ↦
            let made : text ++ b'.' ∷ crypto.encode sig ≡ token = ground (arith, e) in
            subst (λ t. is_empty t ≡ false) made (full_behind text (crypto.encode sig) b'.')
      ]

  -- The tenant's server is asked about a token that is not empty.
  authorize_validates :
      (tenant header : Str) (srv : Server Key) (r r' : Resolver S Key)
      → is_empty (bearer_key header) ≡ false
      → server api crypto base_url tenant making r ≡ (some srv, r')
      → authorize api crypto base_url making now true tenant header r
        ≡ (is_valid (validate crypto srv now (bearer_key header)), r')
  unfolding authorize
  authorize_validates tenant header srv r r' full found = ground (arith, full, found)

  abbrev judged : Str → Str → Str → Bool → Outcome
  judged tenant service rest allowed =
      if allowed
      then forwarded tenant service rest
      else unauthorized (metadata_url api crypto base_url making now true tenant service)

  guard_judges :
      (tenant service rest header : Str) (svc : Service) (r : Resolver S Key)
      → svc.auth_mode ≡ lit "oauth"
      → (guard api crypto base_url making now true tenant service rest header svc r).0
        ≡ judged tenant service rest
            (authorize api crypto base_url making now true tenant header r).0
  unfolding guard ◌==◌
  guard_judges tenant service rest header svc r mode =
      elim (Bool-cases (authorize api crypto base_url making now true tenant header r).0) [
        | inl a ↦ rw (mode, a) refl
        | inr a ↦ rw (mode, a) refl
      ]

  -- Over any store and lawful crypto, where the proxy has a resolver: a request under the path of a
  -- service that the store has with the mode "oauth", no longer than the cap where it declares a length,
  -- and bearing a token that was signed with the key and the issuer of the server that the resolver
  -- gives for the tenant, is forwarded to that service with the rest of its path exactly while the time
  -- is before the token's expiry. From then on it is answered with the address of the service's
  -- metadata.
  pub serve_http-sign_access_token :
      (lawful : IsCrypto crypto) (req : ProxyRequest) (svc : Service) (srv : Server Key)
      (r r' : Resolver S Key)
      (tenant service rest subject client_id scope resource jti random token : Str)
      (expires_at issued : ℕ)
      → split_path req.path ≡ (tenant, service, rest)
      → is_empty tenant ≡ false
      → is_empty service ≡ false
      → oversized req.content_length ≡ false
      → (api.get_service tenant service r.store).0 ≡ ok svc
      → svc.auth_mode ≡ lit "oauth"
      → server api crypto base_url tenant making
          (record r { store = (api.get_service tenant service r.store).1 })
        ≡ (some srv, r')
      → sign_access_token crypto srv.signing_key srv.issuer subject client_id scope resource
          expires_at issued jti random
        ≡ some token
      → bearer_key req.authorization ≡ token
      → (serve_http api crypto base_url making now true req r).0 ≡ (
          if ltb now expires_at
          then forwarded tenant service rest
          else unauthorized (metadata_url api crypto base_url making now true tenant service))
  serve_http-sign_access_token lawful req svc srv r r' tenant service rest subject client_id scope
        resource jti random token expires_at issued p t s small found mode made signed bearer =
      let guarded =
        ap (λ o. o.0)
          (subst (ComesToGuard api crypto base_url making now req svc r) p
            (serve_http_guarded api crypto base_url making now req svc r small) t s found) in
      let full =
        ap is_empty bearer
        ∙ signed_full srv.signing_key srv.issuer subject client_id scope resource expires_at issued
            jti random token signed in
      let asked =
        ap (λ o. judged tenant service rest o.0)
          (authorize_validates tenant req.authorization srv _ r' full made) in
      let accepted =
        ap (λ v. judged tenant service rest (is_valid v))
          (ap (validate crypto srv now) bearer
            ∙ validate-sign_access_token crypto lawful srv.signing_key srv.issuer subject client_id
                scope resource expires_at issued now jti random token signed) in
      guarded
      ∙ guard_judges tenant service rest req.authorization svc _ mode
      ∙ asked
      ∙ accepted
      ∙ elim (Bool-cases (ltb now expires_at)) [ inl e ↦ rw e refl | inr e ↦ rw e refl ]
