-- ===== src/Oauth/Tokens.antt =====
-- What the access tokens of internal/oauth/jwt.go are worth.
use mcptunnels.Prelude.{
  ℕ, ◌<◌, Str, true, some, Option-cases, [], ◌∷◌, ◌++◌, ◌≡◌, inl, inr, refl, arith, length,
  is_empty, if◌then◌else◌, eq_iff, eq_refl, nat_eq, split_at_byte-append, Lacks, ltb,
}
use mcptunnels.Oauth.Jwt.{
  Crypto, IsCrypto, Payload, AccessClaims, valid, refused, split_jwt, cut_dot, sign_access_token,
  signing_input, check_claims, check_payload, validate_access_token, token_expired,
}

append_assoc : (a b c : Str) → (a ++ b) ++ c ≡ a ++ (b ++ c)
append_assoc [] b c = refl
append_assoc (x ∷ a) b c = ground (arith, append_assoc a b c)

split_jwt_lem :
    (a b c : Str)
    → Lacks b'.' a
    → Lacks b'.' b
    → split_jwt ((a ++ b'.' ∷ b) ++ b'.' ∷ c) ≡ some (a, b, c)
unfolding split_jwt cut_dot
split_jwt_lem a b c la lb = ground (
  arith,
  append_assoc a (b'.' ∷ b) (b'.' ∷ c),
  split_at_byte-append b'.' a (b ++ b'.' ∷ c) la,
  split_at_byte-append b'.' b c lb,
)

module _ {Key : Type 0} (crypto : Crypto Key) where
  -- A token that signAccessToken has made is accepted by validateAccessToken under the same key and
  -- issuer exactly until its expiry, with the subject, client and scope that were signed, and with the
  -- issuer as its audience where no resource was given, else the resource.
  pub validate-sign_access_token :
      (lawful : IsCrypto crypto) (key : Key) (issuer subject client_id scope resource : Str)
      (expires_at now later : ℕ) (jti random token : Str)
      → sign_access_token crypto key issuer subject client_id scope resource expires_at now jti
          random
        ≡ some token
      → validate_access_token crypto key issuer later token ≡ (
          if ltb later expires_at
          then valid (record {
            issuer = issuer;
            subject = subject;
            client_id = client_id;
            scope = scope;
            audience = (if is_empty resource then issuer else resource) ∷ [];
            expires_at = expires_at;
          })
          else refused token_expired)
  unfolding sign_access_token validate_access_token signing_input check_payload check_claims
  validate-sign_access_token lawful key issuer subject client_id scope resource expires_at now later
        jti random token h =
      let p : Payload = record {
        iss = issuer;
        sub = subject;
        audience = if is_empty resource then issuer else resource;
        expires = expires_at;
        issued_at = now;
        jti = jti;
        client = client_id;
        scopes = scope;
      } in
      let head = crypto.encode crypto.header_json in
      let body = crypto.encode (crypto.payload_json p) in
      elim (Option-cases (crypto.sign key (crypto.sha256 (head ++ b'.' ∷ body)) random)) [
        | inl e ↦ absurd (ground (arith, e))
        | inr (sig, e) ↦
            let parts =
              split_jwt_lem head body (crypto.encode sig) (lawful.encode-Lacks crypto.header_json)
                (lawful.encode-Lacks (crypto.payload_json p)) in
            let made : token ≡ (head ++ b'.' ∷ body) ++ b'.' ∷ crypto.encode sig =
              ground (arith, e) in
            let (good, size) =
              lawful.verify-sign key (crypto.sha256 (head ++ b'.' ∷ body)) random sig e in
            rw made (
              ground (
                arith,
                parts,
                good,
                size,
                lawful.decode-encode sig,
                lawful.decode-encode (crypto.payload_json p),
                lawful.read-payload p,
                eq_refl issuer,
              ))
      ]

  check_payload_sound :
      (issuer encoded : Str) (now : ℕ) (c : AccessClaims)
      → check_payload crypto issuer now encoded ≡ valid c
      → (c.issuer ≡ issuer) × (now < c.expires_at)
  unfolding check_payload check_claims
  check_payload_sound issuer encoded now c h = elim (Option-cases (crypto.decode encoded)) [
    | inl d ↦ absurd (ground (arith, d))
    | inr (payload, d) ↦ elim (Option-cases (crypto.read_claims payload)) [
      | inl r ↦ absurd (ground (arith, d, r))
      | inr (cl, r) ↦ (ground (arith, d, r, eq_iff cl.issuer issuer), ground (arith, d, r))
    ]
  ]

  -- Whatever token is given: where validateAccessToken accepts it, it has three parts, the third
  -- decodes to 64 bytes that the key verifies as the signature of the first two, the claims are of this
  -- issuer, and they have not expired.
  pub validate_access_token_sound :
      (key : Key) (issuer : Str) (now : ℕ) (token : Str) (c : AccessClaims)
      → validate_access_token crypto key issuer now token ≡ valid c
      → (head : Str) × (payload : Str) × (signature : Str) × (sig : Str) × (split_jwt token
          ≡ some (head, payload, signature))
        × (crypto.decode signature ≡ some sig)
        × (length sig ≡ 64)
        × (crypto.verify key (crypto.sha256 (head ++ b'.' ∷ payload)) sig ≡ true)
        × (c.issuer ≡ issuer)
        × (now < c.expires_at)
  unfolding validate_access_token check_payload check_claims
  validate_access_token_sound key issuer now token c h = elim (Option-cases (split_jwt token)) [
    | inl e ↦ absurd (ground (arith, e))
    | inr (parts, e) ↦ elim (Option-cases (crypto.decode parts.2)) [
      | inl d ↦ absurd (ground (arith, e, d))
      | inr (sig, d) ↦
          let (good, n) : (nat_eq (length sig) 64 ≡ true)
              × (crypto.verify key (crypto.sha256 (parts.0 ++ b'.' ∷ parts.1)) sig ≡ true) =
            (ground (arith, e, d), ground (arith, e, d)) in
          let passed : check_payload crypto issuer now parts.1 ≡ valid c =
            ground (arith, e, d, good, n) in
          (
            parts.0,
            parts.1,
            parts.2,
            sig,
            e,
            d,
            ground (arith, good),
            n,
            (check_payload_sound issuer parts.1 now c passed).0,
            (check_payload_sound issuer parts.1 now c passed).1,
          )
    ]
  ]
