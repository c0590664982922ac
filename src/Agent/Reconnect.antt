-- ===== src/Agent/Reconnect.antt =====
-- The waits between the tunnels of internal/agent/agent.go's Run.
use mcptunnels.Prelude.{ℕ, ◌<◌, ◌≤◌, ◌+◌, ◌*◌, ◌/◌, ◌^◌, suc, false, List, [], ◌∷◌, ◌≡◌, All, arith}
use mathlib.Core.Path.{subst, sym}
use mcptunnels.Backoff.{smaller, doubled, doubled_bounds, doubled-power}
use mcptunnels.Agent.{Turn, run_from, run, jitter, Client}

-- rand.Int63n gives numbers below its argument.
abbrev pub Fair : Turn → Type 0
Fair t = (n : ℕ) → 0 < n → t.random n < n

-- No cancellation of the context.
abbrev pub Undisturbed : Turn → Type 0
Undisturbed t = (t.stopped ≡ false) × (t.interrupted ≡ false)

-- A wait at most a quarter away from a backoff between `low` and `most`.
abbrev pub Near : ℕ → ℕ → ℕ → Type 0
Near low most w = (low * 3 ≤ w * 4) × (w * 4 ≤ most * 5)

pub jitter-Near :
    (t : Turn) (low most d : ℕ) → Fair t → low ≤ d → d ≤ most → Near low most (jitter t.random d)
unfolding jitter
jitter-Near t low most d fair l h = omega (arith, fair (2 * (d / 4) + 1) (omega arith))

pub run_from-Near :
    (low most : ℕ)
    → low ≤ most
    → (turns : List Turn) → All Fair turns
    → (backoff : ℕ) → low ≤ backoff
    → backoff ≤ most
    → All (Near low most) (run_from most turns backoff)
unfolding run_from
run_from-Near low most o [] fair backoff l h = ground arith
run_from-Near low most o (t ∷ turns) (fair, fairs) backoff l h =
    let (l', h') = doubled_bounds most low backoff o l in
    let later = run_from-Near low most o turns fairs (doubled most backoff) l' h' in
    ground (arith, jitter-Near t low most backoff fair l h, later)

-- Where the initial backoff is at most the maximal one, every wait of Run between two tunnels is at least
-- three quarters of the initial backoff and at most five quarters of the maximal one.
pub run_bounds :
    (c : Client) (turns : List Turn)
    → All Fair turns
    → c.initial_backoff ≤ c.max_backoff
    → All (Near c.initial_backoff c.max_backoff) (run c turns)
unfolding run
run_bounds c turns fair o =
    run_from-Near c.initial_backoff c.max_backoff o turns fair c.initial_backoff (omega arith) o

-- The waits of an undisturbed run in closed form, from the k-th one on.
unfoldable pub schedule : ℕ → ℕ → ℕ → List Turn → List ℕ
unfolding jitter
schedule initial most k [] = []
schedule initial most k (t ∷ turns) =
    jitter t.random (smaller (initial * 2 ^ k) most) ∷ schedule initial most (suc k) turns

run_from-schedule :
    (initial most k : ℕ) (turns : List Turn)
    → All Undisturbed turns
    → run_from most turns (smaller (initial * 2 ^ k) most) ≡ schedule initial most k turns
unfolding run_from schedule
run_from-schedule initial most k [] calm = ground arith
run_from-schedule initial most k (t ∷ turns) ((s, i), calm) =
    let later =
      subst (λ b. run_from most turns b ≡ schedule initial most (suc k) turns)
        (sym (doubled-power most initial k)) (run_from-schedule initial most (suc k) turns calm) in
    ground (arith, s, i, later)

not_cut : (initial most : ℕ) → initial ≤ most → smaller (initial * 2 ^ 0) most ≡ initial
not_cut initial most o = ground arith

-- As long as the context lives, and with an initial backoff that is at most the maximal one, the wait after
-- the k-th tunnel that broke, counted from zero, is the jittered smaller one of the maximal backoff and 2^k times the initial
-- one, however long each of the tunnels lived.
pub run-schedule :
    (c : Client) (turns : List Turn)
    → All Undisturbed turns
    → c.initial_backoff ≤ c.max_backoff
    → run c turns ≡ schedule c.initial_backoff c.max_backoff 0 turns
unfolding run
run-schedule c turns calm o =
    subst (λ b. run_from c.max_backoff turns b ≡ schedule c.initial_backoff c.max_backoff 0 turns)
      (not_cut c.initial_backoff c.max_backoff o)
      (run_from-schedule c.initial_backoff c.max_backoff 0 turns calm)
