-- ===== src/Exposed/Names.antt =====
-- The slugs of internal/controlplane/controlplane.go and the agent keys of internal/store/store.go, as
-- they stand in a header and in a path.
use mcptunnels.Prelude.{
  ℕ, zero, suc, ◌/◌, ◌%◌, Str, false, [], ◌∷◌, ◌≡◌, refl, arith, Lacks, is_space, is_empty,
  drop_while, trim_end, trim_space, hex_digit, hex_encode, All, nat_eq, trim_prefix, cut_prefix,
  map,
}
use mcptunnels.ControlPlane.{bearer_key, quick_slug, quick_slug_alphabet, byte_at}
use mcptunnels.Agent.{authorization_header}
use mcptunnels.Sqlite.{agent_key_of}

abbrev slash : ℕ
slash = 47

abbrev NoSpaces : Str → Type 0
NoSpaces s = All (λ (c : ℕ). is_space c ≡ false) s

trim_end-NoSpaces : (s : Str) → NoSpaces s → trim_end is_space s ≡ s
unfolding trim_end
trim_end-NoSpaces [] h = refl
trim_end-NoSpaces (c ∷ s) (h, hs) = ground (arith, h, trim_end-NoSpaces s hs)

trim_space-NoSpaces : (s : Str) → NoSpaces s → trim_space s ≡ s
unfolding trim_space drop_while
trim_space-NoSpaces [] h = refl
trim_space-NoSpaces (c ∷ s) (h, hs) = rw h (trim_end-NoSpaces (c ∷ s) (h, hs))

hex_digit-NoSpaces : (n : ℕ) → is_space (hex_digit n) ≡ false
unfolding hex_digit
hex_digit-NoSpaces n = ground arith

hex_encode-NoSpaces : (bytes : Str) → NoSpaces (hex_encode bytes)
unfolding hex_encode
hex_encode-NoSpaces [] = tt
hex_encode-NoSpaces (b ∷ bs) =
    (hex_digit-NoSpaces (b / 16), (hex_digit-NoSpaces (b % 16), hex_encode-NoSpaces bs))

-- The key of a header that the agent writes is the agent's key.
pub bearer_key-authorization_header :
    (key : Str) → NoSpaces key → bearer_key (authorization_header key) ≡ key
unfolding bearer_key trim_prefix cut_prefix
bearer_key-authorization_header key h = trim_space-NoSpaces key h

pub agent_key_of-NoSpaces : (random : Str) → NoSpaces (agent_key_of random)
agent_key_of-NoSpaces random =
    let rest = hex_encode-NoSpaces random in
    (refl, (refl, (refl, (refl, (refl, (refl, (refl, (refl, (refl, (refl, rest))))))))))

byte_at-Lacks : (s : Str) (i : ℕ) → Lacks slash s → nat_eq (byte_at s i) slash ≡ false
byte_at-Lacks [] i h = refl
byte_at-Lacks (c ∷ s) zero (h, _) = h
byte_at-Lacks (c ∷ s) (suc i) (_, h) = byte_at-Lacks s i h

alphabet-Lacks : Lacks slash quick_slug_alphabet
alphabet-Lacks = ground arith

draws-Lacks : (bytes : Str) → Lacks slash (map (λ b. byte_at quick_slug_alphabet (b % 36)) bytes)
draws-Lacks [] = tt
draws-Lacks (b ∷ bs) = (byte_at-Lacks quick_slug_alphabet (b % 36) alphabet-Lacks, draws-Lacks bs)

pub quick_slug-Lacks : (bytes : Str) → Lacks slash (quick_slug bytes)
unfolding quick_slug
quick_slug-Lacks bytes = (refl, (refl, draws-Lacks bytes))

pub quick_slug_full : (bytes : Str) → is_empty (quick_slug bytes) ≡ false
unfolding quick_slug
quick_slug_full bytes = refl
