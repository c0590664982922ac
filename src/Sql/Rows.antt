-- ===== src/Sql/Rows.antt =====
-- Keys without duplicates and references to tenants, and what filtering and updating rows keep.
use mcptunnels.Prelude.{
  Str, Bool, true, false, not, List, [], ◌∷◌, ◌≡◌, refl, inl, inr, Bool-cases, ◌==◌, eq_iff, arith,
  any, keep, update, any-keep,
}
use mcptunnels.Sql.{TenantRow}
use mcptunnels.Sql.Run.{is_tenant}

module _ {ℓ} {A : Type ℓ} where
  -- No later row has the key of an earlier one.
  abbrev pub HasDistinct : (A → A → Bool) → List A → Type 0
  HasDistinct same [] = Unit {0}
  HasDistinct same (x ∷ xs) = (any (same x) xs ≡ false) × HasDistinct same xs

  pub any-keep-false : (p q : A → Bool) (xs : List A) → any p xs ≡ false → any p (keep q xs) ≡ false
  unfolding any keep
  any-keep-false p q [] h = h
  any-keep-false p q (x ∷ xs) h = ground (arith, any-keep-false p q xs)

  pub keep-HasDistinct :
      (same : A → A → Bool) (q : A → Bool) (xs : List A)
      → HasDistinct same xs
      → HasDistinct same (keep q xs)
  unfolding keep
  keep-HasDistinct same q [] h = tt
  keep-HasDistinct same q (x ∷ xs) h =
      ground (arith, keep-HasDistinct same q xs h.1, any-keep-false (same x) q xs h.0)

  any-ext : (p q : A → Bool) → ((x : A) → p x ≡ q x) → (xs : List A) → any p xs ≡ any q xs
  unfolding any
  any-ext p q h [] = refl
  any-ext p q h (x ∷ xs) = ground (arith, h x, any-ext p q h xs)

  pub any-update :
      (p q : A → Bool) (f : A → A)
      → ((x : A) → p (f x) ≡ p x)
      → (xs : List A) → any p (update q f xs) ≡ any p xs
  unfolding any update
  any-update p q f h [] = ground arith
  any-update p q f h (x ∷ xs) = ground (arith, h x, any-update p q f h xs)

  pub update-HasDistinct :
      (same : A → A → Bool) (q : A → Bool) (f : A → A)
      → ((x y : A) → same x (f y) ≡ same x y)
      → ((x y : A) → same (f x) y ≡ same x y)
      → (xs : List A) → HasDistinct same xs
      → HasDistinct same (update q f xs)
  unfolding update
  update-HasDistinct same q f hr hl [] h = tt
  update-HasDistinct same q f hr hl (x ∷ xs) h = ground (
    arith,
    any-update (same x) q f (hr x) xs,
    any-ext (same (f x)) (same x) (hl x) (update q f xs),
    update-HasDistinct same q f hr hl xs h.1,
  )

  -- Every row names a tenant that is there.
  abbrev pub HasReferences : (A → Str) → List TenantRow → List A → Type 0
  HasReferences key ts [] = Unit {0}
  HasReferences key ts (x ∷ xs) = (any (is_tenant (key x)) ts ≡ true) × HasReferences key ts xs

  pub cascade-HasReferences :
      (key : A → Str) (slug : Str) (ts : List TenantRow) (xs : List A)
      → HasReferences key ts xs
      → HasReferences key
          (keep (λ r. not (is_tenant slug r)) ts)
          (keep (λ r. not (key r == slug)) xs)
  unfolding keep
  cascade-HasReferences key slug ts [] h = tt
  cascade-HasReferences key slug ts (x ∷ xs) h = elim (Bool-cases (key x == slug)) [
    | inl e ↦ rw e (cascade-HasReferences key slug ts xs h.1)
    | inr e ↦ rw e (
      rw
          (any-keep (is_tenant (key x)) (λ r. not (is_tenant slug r))
            (λ r p. ground (arith, e, eq_iff r.slug (key x), eq_iff r.slug slug)) ts)
          h.0,
      cascade-HasReferences key slug ts xs h.1,
    )
  ]

  pub HasReferences-grow :
      (key : A → Str) (t : TenantRow) (ts : List TenantRow) (xs : List A)
      → HasReferences key ts xs
      → HasReferences key (t ∷ ts) xs
  unfolding any
  HasReferences-grow key t ts [] h = tt
  HasReferences-grow key t ts (x ∷ xs) h = ground (arith, HasReferences-grow key t ts xs h.1)

  pub update-HasReferences :
      (key : A → Str) (ts : List TenantRow) (q : A → Bool) (f : A → A)
      → ((x : A) → key (f x) ≡ key x)
      → (xs : List A) → HasReferences key ts xs
      → HasReferences key ts (update q f xs)
  unfolding update
  update-HasReferences key ts q f e [] h = tt
  update-HasReferences key ts q f e (x ∷ xs) h =
      ground (arith, e x, update-HasReferences key ts q f e xs h.1)
