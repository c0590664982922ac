-- ===== src/Bridge/Progress.antt =====
-- What becomes of the requests of internal/bridge/bridge.go once the child has exited.
use mcptunnels.Prelude.{ℕ, true, false, ◌≡◌, refl, arith}
use mcptunnels.Rpc.{Decode}
use mcptunnels.Bridge.{
  Server, Phase, Outcome, bad_gateway, unsent, waiting, leaving, returned, set_phase, clean_up,
}
use mcptunnels.Bridge.Steps.{Step, not_sent, saw_done, cleaned, After, here, next_step}

-- What a handler returns after the exit: what it is about to return, and bad gateway where it still waits
-- or has yet to write.
abbrev pub outcome_of : Phase → Outcome
outcome_of unsent = bad_gateway
outcome_of waiting = bad_gateway
outcome_of (leaving o) = o
outcome_of (returned o) = o

-- Steps from a state lead to one in which a request's handler has returned that, and none of them panics.
abbrev pub Returns : Decode → Server → ℕ → Outcome → Type 0
Returns decode s c o =
    (t : Server) × After decode s t × ((t.posts c).phase ≡ returned o) × (t.panicked ≡ false)

phase_set : (s : Server) (c : ℕ) (p : Phase) → ((set_phase c p s).posts c).phase ≡ p
phase_set s c p = ground arith

module _ (decode : Decode) where
  leaving-Returns :
      (s t : Server) (c : ℕ) (o : Outcome)
      → After decode s t
      → t.panicked ≡ false
      → (t.posts c).phase ≡ leaving o
      → Returns decode s c o
  unfolding clean_up
  leaving-Returns s t c o r n e =
      (clean_up c o t, next_step r n (cleaned c o e refl), phase_set t c (returned o), n)

  turned_away :
      (s : Server) (c : ℕ)
      → s.panicked ≡ false
      → Step decode s (set_phase c (leaving bad_gateway) s)
      → Returns decode s c bad_gateway
  turned_away s c n step =
      leaving-Returns s (set_phase c (leaving bad_gateway) s) c bad_gateway (next_step here n step)
        n (phase_set s c (leaving bad_gateway))

  phase-Returns :
      (s : Server) (c : ℕ) (p : Phase)
      → s.panicked ≡ false
      → s.done ≡ true
      → (s.posts c).phase ≡ p
      → Returns decode s c (outcome_of p)
  phase-Returns s c unsent n d e = turned_away s c n (not_sent c e refl)
  phase-Returns s c waiting n d e = turned_away s c n (saw_done c e d refl)
  phase-Returns s c (leaving o) n d e = leaving-Returns s s c o here n e
  phase-Returns s c (returned o) n d e = (s, here, e, n)

  -- In any state without a panic after the child's exit was announced, for every request, those
  -- that register after the announcement too, there are steps after which its handler has returned: with
  -- what it was about to return, an answer that it has taken say, and else, waiting or not yet sent, with
  -- bad gateway, so without its client's going away.
  pub exit-Returns :
      (s : Server) (c : ℕ)
      → s.panicked ≡ false
      → s.done ≡ true
      → Returns decode s c (outcome_of (s.posts c).phase)
  exit-Returns s c n d = phase-Returns s c (s.posts c).phase n d refl
