-- ===== src/Prelude/Strings.antt =====
-- Go strings: sequences of bytes, written as lists of numbers, and the functions of package
-- `strings` that the program calls.
use Prim.Native.Nat.{ℕ, ◌+◌, ◌-◌, ◌/◌, ◌%◌}
use Prim.Native.Char.{code}
use Prim.Native.String.{String}
use mathlib.Core.Path.{◌≡◌, refl, sym, subst}
use mathlib.Core.Logic.{◌↔◌, inl, inr}
use mathlib.Core.Bool.{Bool, true, false, ◌&&◌, ◌||◌}
use mathlib.Core.Option.{Option, none, some}
use mathlib.Core.List.{List, [], ◌∷◌, ◌++◌, map}
use native.Mathlib.Omega.{arith}
use mcptunnels.Prelude.Tests.{nat_eq, ltb, leb, if◌then◌else◌, Option-cases}

abbrev pub Str : Type 0
Str = List ℕ

-- A string literal of the source.
abbrev pub lit : String → Str
lit String.[] = []
lit (String.◌∷◌ c s) = code c ∷ lit s

infix 50 ◌==◌
unfoldable pub ◌==◌ : Str → Str → Bool
[] == [] = true
[] == (b ∷ t) = false
(a ∷ s) == [] = false
(a ∷ s) == (b ∷ t) = nat_eq a b && s == t

abbrev pub is_empty : Str → Bool
is_empty [] = true
is_empty (a ∷ s) = false

pub eq_iff : (s t : Str) → ((s == t) ≡ true) ↔ (s ≡ t)
unfolding ◌==◌
eq_iff [] [] = (λ _. refl, λ _. refl)
eq_iff [] (b ∷ t) = ground arith
eq_iff (a ∷ s) [] = ground arith
eq_iff (a ∷ s) (b ∷ t) = ground (arith, eq_iff s t)

pub eq_refl : (s : Str) → (s == s) ≡ true
eq_refl s = (eq_iff s s).1 refl

pub eq_comm : (s t : Str) → (s == t) ≡ (t == s)
unfolding ◌==◌
eq_comm [] [] = refl
eq_comm [] (b ∷ t) = refl
eq_comm (a ∷ s) [] = refl
eq_comm (a ∷ s) (b ∷ t) = ground (arith, eq_comm s t)

-- A string is one of two different ones at most.
pub eq_excludes : (s t u : Str) → (t == u) ≡ false → (s == t) ≡ true → (s == u) ≡ false
eq_excludes s t u n h = subst (λ w. (w == u) ≡ false) (sym ((eq_iff s t).0 h)) n

-- strings.CutPrefix: what follows the prefix, if the string has it.
unfoldable pub cut_prefix : Str → Str → Option Str
cut_prefix [] s = some s
cut_prefix (p ∷ ps) [] = none
cut_prefix (p ∷ ps) (c ∷ s) = let rest = cut_prefix ps s in if nat_eq p c then rest else none

-- strings.HasPrefix
unfoldable pub has_prefix : Str → Str → Bool
unfolding cut_prefix
has_prefix p s = elim (cut_prefix p s) [ none ↦ false | some rest ↦ true ]

-- strings.TrimPrefix
unfoldable pub trim_prefix : Str → Str → Str
unfolding cut_prefix
trim_prefix p s = elim (cut_prefix p s) [ none ↦ s | some rest ↦ rest ]

abbrev prepend : ℕ → Option (Str × Str) → Option (Str × Str)
prepend c none = none
prepend c (some (a, b)) = some (c ∷ a, b)

-- strings.IndexByte with the two slices around the index: what stands before the first `c`, and
-- what stands from that `c` on.
unfoldable pub split_at_byte : ℕ → Str → Option (Str × Str)
split_at_byte c [] = none
split_at_byte c (d ∷ s) =
    let rest = prepend d (split_at_byte c s) in if nat_eq d c then some ([], d ∷ s) else rest

pub cut_prefix_sound : (p s r : Str) → cut_prefix p s ≡ some r → s ≡ p ++ r
unfolding cut_prefix
cut_prefix_sound [] s r h = ground arith
cut_prefix_sound (p ∷ ps) [] r h = ground arith
cut_prefix_sound (p ∷ ps) (c ∷ s) r h = ground (arith, cut_prefix_sound ps s r)

pub cut_prefix-append : (p r : Str) → cut_prefix p (p ++ r) ≡ some r
unfolding cut_prefix
cut_prefix-append [] r = refl
cut_prefix-append (p ∷ ps) r = ground (arith, cut_prefix-append ps r)

-- A byte that the string does not hold.
abbrev pub Lacks : ℕ → Str → Type 0
Lacks c [] = Unit {0}
Lacks c (d ∷ s) = (nat_eq d c ≡ false) × Lacks c s

pub split_at_byte_sound :
    (c : ℕ) (s a b : Str) → split_at_byte c s ≡ some (a, b) → (s ≡ a ++ b) × Lacks c a
unfolding split_at_byte
split_at_byte_sound c [] a b h = ground arith
split_at_byte_sound c (d ∷ s) a b h = elim (Option-cases (split_at_byte c s)) [
  | inl e ↦ ground (arith, e)
  | inr (r, e) ↦ ground (arith, e, split_at_byte_sound c s r.0 r.1 e)
]

pub split_at_byte-append :
    (c : ℕ) (a b : Str) → Lacks c a → split_at_byte c (a ++ c ∷ b) ≡ some (a, c ∷ b)
unfolding split_at_byte
split_at_byte-append c [] b h = ground arith
split_at_byte-append c (d ∷ a) b h = ground (arith, split_at_byte-append c a b)

pub split_at_byte-none : (c : ℕ) (s : Str) → Lacks c s → split_at_byte c s ≡ none
unfolding split_at_byte
split_at_byte-none c [] h = refl
split_at_byte-none c (d ∷ s) h = ground (arith, split_at_byte-none c s)

-- White space of ASCII text: tab, line feed, vertical tab, form feed, carriage return, space.
abbrev pub is_space : ℕ → Bool
is_space c = nat_eq c 32 || (leb 9 c && leb c 13)

unfoldable pub drop_while : (ℕ → Bool) → Str → Str
drop_while p [] = []
drop_while p (c ∷ s) = let rest = drop_while p s in if p c then rest else c ∷ s

-- The string without the bytes at its end that pass the test.
unfoldable pub trim_end : (ℕ → Bool) → Str → Str
trim_end p [] = []
trim_end p (c ∷ s) = let rest = trim_end p s in if is_empty rest && p c then [] else c ∷ rest

-- carriage return and line feed
abbrev pub is_line_end : ℕ → Bool
is_line_end c = nat_eq c 13 || nat_eq c 10

-- strings.TrimSpace and bytes.TrimSpace, on ASCII text.
unfoldable pub trim_space : Str → Str
unfolding drop_while trim_end
trim_space s = trim_end is_space (drop_while is_space s)

-- strings.TrimRight with the cutset of one byte.
unfoldable pub trim_right : ℕ → Str → Str
unfolding trim_end
trim_right c s = trim_end (λ d. nat_eq d c) s

-- strings.TrimRight with the cutset "\r\n".
unfoldable pub trim_line_end : Str → Str
unfolding trim_end
trim_line_end s = trim_end is_line_end s

-- strings.ToLower on ASCII text.
to_lower_byte : ℕ → ℕ
to_lower_byte c = if leb b'A' c && leb c b'Z' then c + 32 else c

unfoldable pub to_lower : Str → Str
unfolding to_lower_byte
to_lower s = map to_lower_byte s

unfoldable pub hex_digit : ℕ → ℕ
hex_digit n = if ltb n 10 then b'0' + n else b'a' + (n - 10)

-- hex.EncodeToString
unfoldable pub hex_encode : Str → Str
unfolding hex_digit
hex_encode [] = []
hex_encode (b ∷ bs) = hex_digit (b / 16) ∷ hex_digit (b % 16) ∷ hex_encode bs

-- strings.Contains
unfoldable pub contains : Str → Str → Bool
unfolding has_prefix
contains needle [] = is_empty needle
contains needle (c ∷ s) = has_prefix needle (c ∷ s) || contains needle s

-- strings.Cut, and strings.SplitN into two: what stands before the first needle and behind it.
unfoldable pub cut : Str → Str → Option (Str × Str)
unfolding cut_prefix
cut needle [] = elim (cut_prefix needle []) [ none ↦ none | some b ↦ some ([], b) ]
cut needle (c ∷ s) =
    let later = prepend c (cut needle s) in
    elim (cut_prefix needle (c ∷ s)) [ none ↦ later | some b ↦ some ([], b) ]
