-- ===== src/Prelude/Lists.antt =====
-- Rows of a table: searching, filtering and counting by a Boolean test.
use Prim.Native.Nat.{ℕ, zero, suc, ◌+◌}
use mathlib.Core.Path.{◌≡◌, refl}
use mathlib.Core.Bool.{Bool, true, false, ◌||◌}
use mathlib.Core.Option.{Option, none, some}
use mathlib.Core.List.{List, [], ◌∷◌}
use native.Mathlib.Omega.{arith}
use mcptunnels.Prelude.Tests.{if◌then◌else◌}

module _ {ℓ} {A : Type ℓ} where
  abbrev pub length : List A → ℕ
  length [] = 0
  length (x ∷ xs) = suc (length xs)

  abbrev pub take : ℕ → List A → List A
  take zero xs = []
  take (suc n) [] = []
  take (suc n) (x ∷ xs) = x ∷ take n xs

  abbrev pub drop : ℕ → List A → List A
  drop zero xs = xs
  drop (suc n) [] = []
  drop (suc n) (x ∷ xs) = drop n xs

  -- The first row that passes the test.
  unfoldable pub find : (A → Bool) → List A → Option A
  find p [] = none
  find p (x ∷ xs) = let rest = find p xs in if p x then some x else rest

  unfoldable pub any : (A → Bool) → List A → Bool
  any p [] = false
  any p (x ∷ xs) = p x || any p xs

  -- The rows that pass the test, in their order.
  unfoldable pub keep : (A → Bool) → List A → List A
  keep p [] = []
  keep p (x ∷ xs) = let rest = keep p xs in if p x then x ∷ rest else rest

  unfoldable pub count : (A → Bool) → List A → ℕ
  count p [] = 0
  count p (x ∷ xs) = (if p x then 1 else 0) + count p xs

  -- `f` applied to the rows that pass the test.
  unfoldable pub update : (A → Bool) → (A → A) → List A → List A
  update p f [] = []
  update p f (x ∷ xs) = (if p x then f x else x) ∷ update p f xs

module _ {ℓ κ} {A : Type ℓ} (P : A → Type κ) where
  abbrev pub All : List A → Type κ
  All [] = Unit
  All (x ∷ xs) = P x × All xs

module _ {ℓ} {A : Type ℓ} (p q : A → Bool) where
  -- Rows that fail `q` are gone: a search for a row that only they can match finds nothing.
  pub find-keep-none :
      ((x : A) → p x ≡ true → q x ≡ false) → (xs : List A) → find p (keep q xs) ≡ none
  unfolding find keep
  find-keep-none h [] = refl
  find-keep-none h (x ∷ xs) = ground (arith, h x, find-keep-none h xs)

  -- Rows that the filter keeps are found as before.
  pub find-keep :
      ((x : A) → p x ≡ true → q x ≡ true) → (xs : List A) → find p (keep q xs) ≡ find p xs
  unfolding find keep
  find-keep h [] = refl
  find-keep h (x ∷ xs) = ground (arith, h x, find-keep h xs)

  pub any-keep-none :
      ((x : A) → p x ≡ true → q x ≡ false) → (xs : List A) → any p (keep q xs) ≡ false
  unfolding any keep
  any-keep-none h [] = refl
  any-keep-none h (x ∷ xs) = ground (arith, h x, any-keep-none h xs)

  pub any-keep : ((x : A) → p x ≡ true → q x ≡ true) → (xs : List A) → any p (keep q xs) ≡ any p xs
  unfolding any keep
  any-keep h [] = refl
  any-keep h (x ∷ xs) = ground (arith, h x, any-keep h xs)

module _ {ℓ} {A : Type ℓ} (p : A → Bool) where
  pub find_sound : (xs : List A) (x : A) → find p xs ≡ some x → p x ≡ true
  unfolding find
  find_sound [] x h = ground arith
  find_sound (y ∷ xs) x h = ground (arith, find_sound xs x)

  pub any_of_find : (xs : List A) (x : A) → find p xs ≡ some x → any p xs ≡ true
  unfolding find any
  any_of_find [] x h = ground arith
  any_of_find (y ∷ xs) x h = ground (arith, any_of_find xs x)

  pub find_of_not_any : (xs : List A) → any p xs ≡ false → find p xs ≡ none
  unfolding find any
  find_of_not_any [] h = refl
  find_of_not_any (y ∷ xs) h = ground (arith, find_of_not_any xs)

  pub not_any_of_find : (xs : List A) → find p xs ≡ none → any p xs ≡ false
  unfolding find any
  not_any_of_find [] h = refl
  not_any_of_find (y ∷ xs) h = ground (arith, not_any_of_find xs)
