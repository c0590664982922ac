-- ===== src/Act/Keeps.antt =====
-- Invariants of actions: one rule for each way to build an action.
use mcptunnels.Prelude.{Bool, true, false, if◌then◌else◌}
use mcptunnels.Act.{Act, Result, Error, ok, err, pure, raise, lift, after, ◌>>=◌}

-- `m` leaves a state of `P` in `P`, whether it returns or fails.
pub record Keeps {ℓ} {S A : Type ℓ} (P : S → Type ℓ) (m : Act S A) : Type ℓ where
  pub holds : (s : S) → P s → P (m s).1

module _ {ℓ} {S A : Type ℓ} {P : S → Type ℓ} where
  pub pure-Keeps : (a : A) → Keeps P (pure a)
  pure-Keeps a = record { holds = λ s p. p }

  pub raise-Keeps : (e : Error) → Keeps P (raise {A = A} e)
  raise-Keeps e = record { holds = λ s p. p }

  pub lift-Keeps : (r : Result A) → Keeps P (lift r)
  lift-Keeps r = record { holds = λ s p. p }

  pub if-Keeps : (b : Bool) (m n : Act S A) → Keeps P m → Keeps P n → Keeps P (if b then m else n)
  if-Keeps true m n km kn = km
  if-Keeps false m n km kn = kn

module _ {ℓ} {S A B : Type ℓ} {P : S → Type ℓ} where
  after-Keeps :
      (r : Result A) (s : S) (f : A → Act S B) → P s → ((a : A) → Keeps P (f a)) → P (after r s f).1
  after-Keeps (ok a) s f p kf = (kf a).holds s p
  after-Keeps (err e) s f p kf = p

  pub bind-Keeps :
      (m : Act S A) (f : A → Act S B) → Keeps P m → ((a : A) → Keeps P (f a)) → Keeps P (m >>= f)
  bind-Keeps m f km kf = record { holds = λ s p. after-Keeps (m s).0 (m s).1 f (km.holds s p) kf }
