-- ===== src/Act.antt =====
-- Go methods that change state and may return an error. What was written before the error stays
-- written, so the state comes back beside the error too.
pub mod Keeps
use mcptunnels.Prelude.{◌≡◌, refl, ◌⊎◌, inl, inr}
use mcptunnels.Sql.{SqlError}

-- The errors of store.API: the three sentinels of internal/store/store.go, what the driver or the
-- remote endpoint reports, a result that does not decode, and a failure of crypto/rand or bcrypt.
pub data Error : Type 0 where
  not_found : Error
  already_exists : Error
  invalid_agent_key : Error
  driver : SqlError → Error
  remote : Error
  bad_column : Error
  hashing : Error

pub data Result {ℓ} (A : Type ℓ) : Type ℓ where
  ok : A → Result A
  err : Error → Result A

pub Result-cases {ℓ} :
    {A : Type ℓ} (r : Result A) → ((a : A) × (r ≡ ok a)) ⊎ ((e : Error) × (r ≡ err e))
Result-cases (ok a) = inl (a, refl)
Result-cases (err e) = inr (e, refl)

abbrev pub Act {ℓ} : Type ℓ → Type ℓ → Type ℓ
Act S A = S → Result A × S

module _ {ℓ} {S A : Type ℓ} where
  abbrev pub pure : A → Act S A
  pure a s = (ok a, s)

  abbrev pub raise : Error → Act S A
  raise e s = (err e, s)

  abbrev pub lift : Result A → Act S A
  lift r s = (r, s)

module _ {ℓ} {S A B : Type ℓ} where
  abbrev pub after : Result A → S → (A → Act S B) → Result B × S
  after (ok a) s f = f a s
  after (err e) s f = (err e, s)

  infixl 10 ◌>>=◌ ◌>>◌
  abbrev pub ◌>>=◌ : Act S A → (A → Act S B) → Act S B
  ◌>>=◌ m f s = after (m s).0 (m s).1 f

  abbrev pub ◌>>◌ : Act S A → Act S B → Act S B
  m >> n = m >>= λ _. n
