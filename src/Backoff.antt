-- ===== src/Backoff.antt =====
-- The doubling backoff that Run of internal/agent/agent.go and stream of internal/stdiofront/stdiofront.go
-- share: `backoff *= 2`, cut at a cap.
use mathlib.Core.Path.{subst}
use mcptunnels.Prelude.{ℕ, suc, ◌*◌, ◌^◌, ◌≤◌, if◌then◌else◌, ltb, ◌≡◌, arith}

unfoldable pub doubled : ℕ → ℕ → ℕ
doubled most b = if ltb most (b * 2) then most else b * 2

abbrev pub smaller : ℕ → ℕ → ℕ
smaller a b = if ltb b a then b else a

-- Doubling keeps a backoff between a lower bound and the cap.
pub doubled_bounds :
    (most low b : ℕ) → low ≤ most → low ≤ b → (low ≤ doubled most b) × (doubled most b ≤ most)
unfolding doubled
doubled_bounds most low b h l = ground arith

-- One more doubling of a backoff that was cut at the cap.
pub doubled-smaller : (most x : ℕ) → doubled most (smaller x most) ≡ smaller (x * 2) most
unfolding doubled
doubled-smaller most x = ground arith

power_step : (b k : ℕ) → b * 2 ^ k * 2 ≡ b * 2 ^ suc k
power_step b k = grind arith

-- The same for a start that was doubled k times.
pub doubled-power :
    (most b k : ℕ) → doubled most (smaller (b * 2 ^ k) most) ≡ smaller (b * 2 ^ suc k) most
doubled-power most b k =
    subst (λ n. doubled most (smaller (b * 2 ^ k) most) ≡ smaller n most) (power_step b k)
      (doubled-smaller most (b * 2 ^ k))
