-- ===== src/Oauth/Jwt.antt =====
-- internal/oauth/jwt.go: the access tokens. The packages crypto/ecdsa, crypto/sha256, encoding/pem,
-- crypto/x509, encoding/base64 and encoding/json are the fields of `Crypto`.
use mcptunnels.Prelude.{
  ℕ, Str, Bool, true, not, Option, none, some, List, [], ◌∷◌, ◌++◌, ◌≡◌, length, is_empty,
  if◌then◌else◌, ◌==◌, leb, nat_eq, split_at_byte, Lacks,
}

-- The "aud" claim: a string, a list whose members may be strings, or another value.
pub data Audience : Type 0 where
  one : Str → Audience
  many : List (Option Str) → Audience
  other : Audience

-- The claims that validateAccessToken decodes.
pub record Claims : Type 0 where
  pub issuer : Str
  pub subject : Str
  pub client_id : Str
  pub scope : Str
  pub aud : Audience
  pub exp : ℕ

-- The payload that signAccessToken encodes.
pub record Payload : Type 0 where
  pub iss : Str
  pub sub : Str
  pub audience : Str
  pub expires : ℕ
  pub issued_at : ℕ
  pub jti : Str
  pub client : Str
  pub scopes : Str

pub record AccessClaims : Type 0 where
  pub issuer : Str
  pub subject : Str
  pub client_id : Str
  pub scope : Str
  pub audience : List Str
  pub expires_at : ℕ

-- `sign` takes the key, the digest and the randomness, and returns the two numbers in 64 bytes; `verify`
-- takes the key whose public half checks the signature.
pub record Crypto (Key : Type 0) : Type 0 where
  pub parse_key : Str → Option Key
  pub sha256 : Str → Str
  pub sign : Key → Str → Str → Option Str
  pub verify : Key → Str → Str → Bool
  pub encode : Str → Str
  pub decode : Str → Option Str
  pub header_json : Str
  pub payload_json : Payload → Str
  pub read_claims : Str → Option Claims

abbrev pub claims_of : Payload → Claims
claims_of p = record {
  issuer = p.iss;
  subject = p.sub;
  client_id = p.client;
  scope = p.scopes;
  aud = one p.audience;
  exp = p.expires;
}

-- The documented behaviour of the packages: the URL-safe alphabet of base64 has no dot and decodes to
-- what was encoded, JSON gives the claims back, and a signature is 64 bytes that its key verifies.
pub record IsCrypto {Key : Type 0} (crypto : Crypto Key) : Type 0 where
  pub decode-encode : (s : Str) → crypto.decode (crypto.encode s) ≡ some s
  pub encode-Lacks : (s : Str) → Lacks b'.' (crypto.encode s)
  pub read-payload : (p : Payload) → crypto.read_claims (crypto.payload_json p) ≡ some (claims_of p)
  pub verify-sign :
      (k : Key) (digest random sig : Str)
      → crypto.sign k digest random ≡ some sig
      → (crypto.verify k digest sig ≡ true) × (length sig ≡ 64)

-- toStrings
abbrev pub strings_in : List (Option Str) → List Str
strings_in [] = []
strings_in (none ∷ vs) = strings_in vs
strings_in (some s ∷ vs) = s ∷ strings_in vs

abbrev pub to_strings : Audience → List Str
to_strings (one s) = s ∷ []
to_strings (many vs) = strings_in vs
to_strings other = []

-- What stands before the first dot and what stands after it.
unfoldable pub cut_dot : Str → Option (Str × Str)
unfolding split_at_byte
cut_dot s = elim (split_at_byte b'.' s) [
  | none ↦ none
  | some (a, []) ↦ none
  | some (a, (d ∷ b)) ↦ some (a, b)
]

unfoldable pub split_jwt : Str → Option (Str × Str × Str)
unfolding cut_dot
split_jwt token = elim (cut_dot token) [
  | none ↦ none
  | some (a, rest) ↦ elim (cut_dot rest) [ none ↦ none | some (b, c) ↦ some (a, b, c) ]
]

pub data TokenError : Type 0 where
  malformed : TokenError
  bad_signature_encoding : TokenError
  invalid_signature : TokenError
  bad_payload_encoding : TokenError
  bad_payload_json : TokenError
  wrong_issuer : Str → TokenError
  token_expired : TokenError

pub data Verdict : Type 0 where
  valid : AccessClaims → Verdict
  refused : TokenError → Verdict

module _ {Key : Type 0} (crypto : Crypto Key) where
  -- The header and the payload with the dot between them.
  unfoldable pub signing_input : Payload → Str
  signing_input p = crypto.encode crypto.header_json ++ b'.' ∷ crypto.encode (crypto.payload_json p)

  -- `now`, `jti` and `random` are the reading of the clock and of the system's randomness.
  unfoldable pub sign_access_token :
      Key → Str → Str → Str → Str → Str → ℕ → ℕ → Str → Str → Option Str
  unfolding signing_input
  sign_access_token key issuer subject client_id scope resource expires_at now jti random =
      let aud = if is_empty resource then issuer else resource in
      let input = signing_input (record {
        iss = issuer;
        sub = subject;
        audience = aud;
        expires = expires_at;
        issued_at = now;
        jti = jti;
        client = client_id;
        scopes = scope;
      }) in
      elim (crypto.sign key (crypto.sha256 input) random) [
        | none ↦ none
        | some sig ↦ some (input ++ b'.' ∷ crypto.encode sig)
      ]

  -- The checks after the signature's.
  unfoldable pub check_claims : Str → ℕ → Claims → Verdict
  check_claims issuer now c =
      if not (c.issuer == issuer)
      then refused (wrong_issuer c.issuer)
      else if leb c.exp now
      then refused token_expired
      else valid (record {
        issuer = c.issuer;
        subject = c.subject;
        client_id = c.client_id;
        scope = c.scope;
        audience = to_strings c.aud;
        expires_at = c.exp;
      })

  unfoldable pub check_payload : Str → ℕ → Str → Verdict
  unfolding check_claims
  check_payload issuer now encoded = elim (crypto.decode encoded) [
    | none ↦ refused bad_payload_encoding
    | some payload ↦ elim (crypto.read_claims payload) [
      | none ↦ refused bad_payload_json
      | some c ↦ check_claims issuer now c
    ]
  ]

  unfoldable pub validate_access_token : Key → Str → ℕ → Str → Verdict
  unfolding split_jwt check_payload
  validate_access_token key issuer now token = elim (split_jwt token) [
    | none ↦ refused malformed
    | some (header, payload, signature) ↦ elim (crypto.decode signature) [
      | none ↦ refused bad_signature_encoding
      | some sig ↦
          if not (nat_eq (length sig) 64)
          then refused bad_signature_encoding
          else if not (crypto.verify key (crypto.sha256 (header ++ b'.' ∷ payload)) sig)
          then refused invalid_signature
          else check_payload issuer now payload
    ]
  ]
