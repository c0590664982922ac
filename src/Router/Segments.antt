-- ===== src/Router/Segments.antt =====
-- Paths cut at their slashes.
use mcptunnels.Prelude.{
  Str, lit, ◌==◌, is_empty, false, Bool, true, false, not, ◌&&◌, List, [], ◌∷◌, ◌++◌, ◌≡◌, refl,
  arith, nat_eq, if◌then◌else◌, Lacks, Bool-cases, inl, inr,
}
use mcptunnels.Router.{
  split_slashes, segments_of, is_own, is_plain, is_clean, Pattern, Dispatch, redirected, matched,
  dispatch,
}

pub split_slashes-append :
    (a rest : Str) → Lacks 47 a → split_slashes (a ++ (47 ∷ rest)) ≡ a ∷ split_slashes rest
unfolding split_slashes
split_slashes-append [] rest h = refl
split_slashes-append (c ∷ a) rest h = ground (arith, split_slashes-append a rest h.1)

pub split_slashes_bare : (a : Str) → Lacks 47 a → split_slashes a ≡ a ∷ []
unfolding split_slashes
split_slashes_bare [] h = refl
split_slashes_bare (c ∷ a) h = ground (arith, split_slashes_bare a h.1)

pub split_slashes_full : (s : Str) → (t : Str) × (ts : List Str) × (split_slashes s ≡ t ∷ ts)
unfolding split_slashes
split_slashes_full [] = ([], [], refl)
split_slashes_full (c ∷ s) =
    let (t, ts, e) = split_slashes_full s in
    elim (Bool-cases (nat_eq c 47)) [
      | inl b ↦ ([], t ∷ ts, ground (arith, b, e))
      | inr b ↦ (c ∷ t, ts, ground (arith, b, e))
    ]

-- A path that goes on below a pattern is not the pattern's own.
pub longer : (s t : Str) (ts : List Str) → is_own [] true (s ∷ (t ∷ ts)) ≡ false
unfolding is_own
longer [] t ts = refl
longer (c ∷ s) t ts = refl

pub settled :
    {A : Type 0} → (b : Bool) (d : Dispatch A) → (if not b && false then redirected else d) ≡ d
settled true d = refl
settled false d = refl

pub is_plain_full : (s : Str) → is_plain s ≡ true → is_empty s ≡ false
unfolding is_plain
is_plain_full [] h = absurd (ground (arith, h))
is_plain_full (c ∷ s) h = refl

pub is_clean-cons :
    (t u : Str) (ts : List Str) → is_plain t ≡ true → is_clean (t ∷ (u ∷ ts)) ≡ is_clean (u ∷ ts)
unfolding is_clean
is_clean-cons t u ts h = rw h refl

pub is_clean_last : (t : Str) → is_plain t ≡ true → is_clean (t ∷ []) ≡ true
unfolding is_clean
is_clean_last t h = ground (arith, h)

-- A clean path is matched, and one that is not is redirected.
pub dispatch-matched :
    {A : Type 0} (mux : List (Pattern × A)) (method path : Str)
    → is_clean (segments_of path) ≡ true
    → dispatch mux method path ≡ matched mux method path
unfolding dispatch
dispatch-matched mux method path h = ground (arith, h)

pub dispatch_of_clean :
    {A : Type 0} (mux : List (Pattern × A)) (method path : Str)
    → (method == lit "CONNECT") ≡ false
    → dispatch mux method path
      ≡ (if is_clean (segments_of path) then matched mux method path else redirected)
unfolding dispatch
dispatch_of_clean mux method path h = ground (arith, h)
