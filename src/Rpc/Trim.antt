-- ===== src/Rpc/Trim.antt =====
-- What trimming does to a message with a line end behind it.
use mcptunnels.Prelude.{
  ℕ, Str, Bool, true, false, ◌&&◌, [], ◌∷◌, ◌++◌, ◌≡◌, inl, inr, refl, arith, Bool-cases, is_empty,
  trim_end, drop_while, trim_space, trim_line_end, is_space, is_line_end,
}

trim_end-snoc :
    (p : ℕ → Bool) (s : Str) (c : ℕ) → p c ≡ true → trim_end p (s ++ (c ∷ [])) ≡ trim_end p s
unfolding trim_end
trim_end-snoc p [] c h = ground arith
trim_end-snoc p (d ∷ s) c h = ground (arith, trim_end-snoc p s c h)

-- Trimming the line end first makes no difference to the trimming of white space.
trim_end-trim_end :
    (p q : ℕ → Bool)
    → ((c : ℕ) → q c ≡ true → p c ≡ true)
    → (s : Str) → trim_end p (trim_end q s) ≡ trim_end p s
unfolding trim_end
trim_end-trim_end p q h [] = refl
trim_end-trim_end p q h (c ∷ s) = elim (Bool-cases (is_empty (trim_end q s) && q c)) [
  | inl b ↦ ground (arith, b, h c, trim_end-trim_end p q h s)
  | inr b ↦ ground (arith, b, trim_end-trim_end p q h s)
]

is_space-is_line_end : (c : ℕ) → is_line_end c ≡ true → is_space c ≡ true
is_space-is_line_end c h = ground arith

-- The same behind the white space at the front.
drop_while-trim_end :
    (p q : ℕ → Bool)
    → ((c : ℕ) → q c ≡ true → p c ≡ true)
    → (s : Str) → trim_end p (drop_while p (trim_end q s)) ≡ trim_end p (drop_while p s)
unfolding trim_end drop_while
drop_while-trim_end p q h [] = refl
drop_while-trim_end p q h (c ∷ s) = elim (Bool-cases (is_empty (trim_end q s) && q c)) [
  | inl b ↦ ground (arith, b, h c, drop_while-trim_end p q h s)
  | inr b ↦ elim (Bool-cases (p c)) [
    | inl pc ↦ ground (arith, b, pc, drop_while-trim_end p q h s)
    | inr pc ↦ ground (arith, b, pc, trim_end-trim_end p q h (c ∷ s))
  ]
]

drop_while-snoc :
    (p : ℕ → Bool) (s : Str) (c : ℕ)
    → p c ≡ true
    → trim_end p (drop_while p (s ++ (c ∷ []))) ≡ trim_end p (drop_while p s)
unfolding trim_end drop_while
drop_while-snoc p [] c h = ground arith
drop_while-snoc p (d ∷ s) c h = elim (Bool-cases (p d)) [
  | inl pd ↦ ground (arith, pd, drop_while-snoc p s c h)
  | inr pd ↦ ground (arith, pd, trim_end-snoc p (d ∷ s) c h)
]

-- The payload that is collected for a message trims to the message, trimmed.
pub trim_space-collected : (m : Str) → trim_space (trim_line_end m ++ (10 ∷ [])) ≡ trim_space m
unfolding trim_space trim_line_end
trim_space-collected m = ground (
  arith,
  drop_while-snoc is_space (trim_line_end m) 10 refl,
  drop_while-trim_end is_space is_line_end is_space-is_line_end m,
)

-- A byte that stays keeps what stands before it.
pub trim_end-keeps :
    (p : ℕ → Bool) (a : Str) (c : ℕ) (s : Str)
    → p c ≡ false
    → trim_end p (a ++ (c ∷ s)) ≡ a ++ (c ∷ trim_end p s)
unfolding trim_end
trim_end-keeps p [] c s h = ground arith
trim_end-keeps p (d ∷ []) c s h = ground (arith, trim_end-keeps p [] c s h)
trim_end-keeps p (d ∷ e ∷ a) c s h = ground (arith, trim_end-keeps p (e ∷ a) c s h)
