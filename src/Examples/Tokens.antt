-- ===== src/Examples/Tokens.antt =====
-- The theorems on tokens and codes, with a simple reversible coding in place of the crypto packages.
use mcptunnels.Prelude.{
  ℕ, zero, suc, ◌+◌, ◌-◌, Str, lit, Bool, true, false, Option, none, some, [], ◌∷◌, ◌++◌, ◌≡◌, refl,
  arith, length, Lacks, nat_eq, ap,
}
use mcptunnels.Oauth.Jwt.{Crypto, IsCrypto, Payload, Claims, one, claims_of}

-- Every byte is moved past the dot.
abbrev shift : Str → Str
shift [] = []
shift (c ∷ s) = (c + 47) ∷ shift s

abbrev unshift : Str → Str
unshift [] = []
unshift (c ∷ s) = (c - 47) ∷ unshift s

unshift-shift : (s : Str) → unshift (shift s) ≡ s
unshift-shift [] = refl
unshift-shift (c ∷ s) = ground (arith, unshift-shift s)

shift-Lacks : (s : Str) → Lacks b'.' (shift s)
shift-Lacks [] = tt
shift-Lacks (c ∷ s) = (ground arith, shift-Lacks s)

-- A string with its length before it, and back.
abbrev put : Str → Str → Str
put s rest = length s ∷ s ++ rest

abbrev first : ℕ → Str → Str
first zero s = []
first (suc n) [] = []
first (suc n) (c ∷ s) = c ∷ first n s

abbrev past : ℕ → Str → Str
past zero s = s
past (suc n) [] = []
past (suc n) (c ∷ s) = past n s

first-append : (s rest : Str) → first (length s) (s ++ rest) ≡ s
first-append [] rest = refl
first-append (c ∷ s) rest = ap (λ t. c ∷ t) (first-append s rest)

past-append : (s rest : Str) → past (length s) (s ++ rest) ≡ rest
past-append [] rest = refl
past-append (c ∷ s) rest = past-append s rest

abbrev got : Str → Str × Str
got [] = ([], [])
got (n ∷ s) = (first n s, past n s)

got-put : (s rest : Str) → got (put s rest) ≡ (s, rest)
got-put s rest = ground (arith, first-append s rest, past-append s rest)

abbrev written : Payload → Str
written p = p.expires ∷ put p.iss (put p.sub (put p.client (put p.scopes p.audience)))

abbrev read_back : Str → Option Claims
read_back [] = none
read_back (n ∷ s) =
    let (iss, s1) = got s in
    let (sub, s2) = got s1 in
    let (client, s3) = got s2 in
    let (scopes, audience) = got s3 in
    some (record {
      issuer = iss;
      subject = sub;
      client_id = client;
      scope = scopes;
      aud = one audience;
      exp = n;
    })

read-written : (p : Payload) → read_back (written p) ≡ some (claims_of p)
read-written p =
    let s3 = put p.scopes p.audience in
    let s2 = put p.client s3 in
    let s1 = put p.sub s2 in
    ground
      (arith, got-put p.iss s1, got-put p.sub s2, got-put p.client s3, got-put p.scopes p.audience)

abbrev zeros : ℕ → Str
zeros zero = []
zeros (suc n) = 0 ∷ zeros n

abbrev headed : ℕ → Str → Bool
headed k [] = false
headed k (c ∷ s) = nat_eq c k

abbrev pub simple_crypto : Crypto ℕ
simple_crypto = record {
  parse_key = λ pem. some 5;
  sha256 = λ s. s;
  sign = λ k digest random. some (k ∷ zeros 63);
  verify = λ k digest sig. headed k sig;
  encode = shift;
  decode = λ s. some (unshift s);
  header_json = lit "h";
  payload_json = written;
  read_claims = read_back;
}

simple_verify-sign :
    (k : ℕ) (digest random sig : Str)
    → some (k ∷ zeros 63) ≡ some sig
    → (headed k sig ≡ true) × (length sig ≡ 64)
simple_verify-sign k digest random sig e =
    let same : k ∷ zeros 63 ≡ sig = ground (arith, e) in rw (← same) (ground arith, refl)

pub simple-IsCrypto : IsCrypto simple_crypto
simple-IsCrypto = record {
  decode-encode = λ s. ap some (unshift-shift s);
  encode-Lacks = shift-Lacks;
  read-payload = read-written;
  verify-sign = simple_verify-sign;
}
