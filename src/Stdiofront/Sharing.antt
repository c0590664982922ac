-- ===== src/Stdiofront/Sharing.antt =====
-- What concurrent requests of internal/stdiofront/stdiofront.go do to each other.
use mcptunnels.Prelude.{
  ℕ, ◌+◌, ◌≤◌, Bool, Option, none, some, ◌≡◌, nat_eq, if◌then◌else◌, arith, refl, count, inl, inr,
  ◌⊎◌, List-cases,
}
use mcptunnels.Stdiofront.Requests.{Sent, Response}
use mcptunnels.Stdiofront.Interleaving.{
  CallPhase, ready, awaiting, lost, expired, replaying, awaiting_replay, adopting, retrying,
  awaiting_retry, posted, finished, Shared, move, send_post, take_answer, clear_session,
  remember_init, CallStep, first_sent, first_failed, first_answered, no_session, has_session,
  cleared, replay_sent, replay_failed, replay_answered, adopted, retry_sent, retry_failed,
  retry_answered, returned, Runs, stop, then_step,
}

-- The POSTs that a call in a phase may yet make.
abbrev posts_left : CallPhase → ℕ
posts_left ready = 3
posts_left awaiting = 2
posts_left (lost r) = 2
posts_left expired = 2
posts_left (replaying msg) = 2
posts_left awaiting_replay = 1
posts_left (adopting sid) = 1
posts_left retrying = 1
posts_left awaiting_retry = 0
posts_left (posted r) = 0
posts_left (finished r) = 0

abbrev pub is_from : ℕ → ℕ × Sent → Bool
is_from c (d, p) = nat_eq d c

abbrev WithinLimit : ℕ → Shared → Type 0
WithinLimit c s = count (is_from c) s.sent + posts_left (s.calls c).phase ≤ 3

step_kept : (c d : ℕ) (s t : Shared) → CallStep d s t → WithinLimit c s → WithinLimit c t
unfolding count move send_post take_answer clear_session remember_init
step_kept c d s t (first_sent p e) h = rw e (ground (arith, p, h))
step_kept c d s t (first_failed p e) h = rw e (ground (arith, p, h))
step_kept c d s t (first_answered r p e) h = rw e (ground (arith, p, h))
step_kept c d s t (no_session r p q e) h = rw e (ground (arith, p, h))
step_kept c d s t (has_session r p q e) h = rw e (ground (arith, p, h))
step_kept c d s t (cleared p e) h = rw e (ground (arith, p, h))
step_kept c d s t (replay_sent m p e) h = rw e (ground (arith, p, h))
step_kept c d s t (replay_failed p e) h = rw e (ground (arith, p, h))
step_kept c d s t (replay_answered r p e) h = rw e (ground (arith, p, h))
step_kept c d s t (adopted m p e) h = rw e (ground (arith, p, h))
step_kept c d s t (retry_sent p e) h = rw e (ground (arith, p, h))
step_kept c d s t (retry_failed p e) h = rw e (ground (arith, p, h))
step_kept c d s t (retry_answered r p e) h = rw e (ground (arith, p, h))
step_kept c d s t (returned none p e) h = rw e (ground (arith, p, h))
step_kept c d s t (returned (some r) p e) h = rw e (ground (arith, p, h))

run_kept : (c : ℕ) (s t : Shared) → Runs s t → WithinLimit c s → WithinLimit c t
run_kept c s t stop h = h
run_kept c s u (then_step {t = t} d rs k) h = step_kept c d t u k (run_kept c s t rs h)

-- The steps that a call in a phase may yet take.
abbrev steps_left : CallPhase → ℕ
steps_left ready = 10
steps_left awaiting = 9
steps_left (lost r) = 8
steps_left expired = 7
steps_left (replaying msg) = 6
steps_left awaiting_replay = 5
steps_left (adopting sid) = 4
steps_left retrying = 3
steps_left awaiting_retry = 2
steps_left (posted r) = 1
steps_left (finished r) = 0

-- The steps of a call in a run.
unfoldable pub steps_of : {s t : Shared} → ℕ → Runs s t → ℕ
steps_of c stop = 0
steps_of c (then_step d rs k) = steps_of c rs + (if nat_eq d c then 1 else 0)

step_left :
    (c d : ℕ) (s t : Shared)
    → CallStep d s t
    → (if nat_eq d c then 1 else 0) + steps_left (t.calls c).phase ≤ steps_left (s.calls c).phase
unfolding move send_post take_answer clear_session remember_init
step_left c d s t (first_sent p e) = rw e (ground (arith, p))
step_left c d s t (first_failed p e) = rw e (ground (arith, p))
step_left c d s t (first_answered r p e) = rw e (ground (arith, p))
step_left c d s t (no_session r p q e) = rw e (ground (arith, p))
step_left c d s t (has_session r p q e) = rw e (ground (arith, p))
step_left c d s t (cleared p e) = rw e (ground (arith, p))
step_left c d s t (replay_sent m p e) = rw e (ground (arith, p))
step_left c d s t (replay_failed p e) = rw e (ground (arith, p))
step_left c d s t (replay_answered r p e) = rw e (ground (arith, p))
step_left c d s t (adopted m p e) = rw e (ground (arith, p))
step_left c d s t (retry_sent p e) = rw e (ground (arith, p))
step_left c d s t (retry_failed p e) = rw e (ground (arith, p))
step_left c d s t (retry_answered r p e) = rw e (ground (arith, p))
step_left c d s t (returned none p e) = rw e (ground (arith, p))
step_left c d s t (returned (some r) p e) = rw e (ground (arith, p))

run_left :
    (c : ℕ) (s t : Shared) (rs : Runs s t)
    → steps_of c rs + steps_left (t.calls c).phase ≤ steps_left (s.calls c).phase
unfolding steps_of
run_left c s t stop = ground arith
run_left c s u (then_step {t = t} d rs k) = omega (arith, run_left c s t rs, step_left c d t u k)

steps_left_bound : (p : CallPhase) → steps_left p ≤ 10
steps_left_bound p = ground arith

-- A call that has not finished can go on.
abbrev pub GoesOn : ℕ → Shared → Type 0
GoesOn c s =
    ((r : Option Response) × ((s.calls c).phase ≡ finished r)) ⊎ ((t : Shared) × CallStep c s t)

goes_on : (c : ℕ) (s : Shared) (p : CallPhase) → (s.calls c).phase ≡ p → GoesOn c s
goes_on c s ready e = inr (_, first_sent e refl)
goes_on c s awaiting e = inr (_, first_failed e refl)
goes_on c s (lost r) e = elim (List-cases s.session) [
  | inl n ↦ inr (_, no_session r e n refl)
  | inr (x, xs, n) ↦ inr (_, has_session r e (rw n refl) refl)
]
goes_on c s expired e = inr (_, cleared e refl)
goes_on c s (replaying m) e = inr (_, replay_sent m e refl)
goes_on c s awaiting_replay e = inr (_, replay_failed e refl)
goes_on c s (adopting sid) e = inr (_, adopted sid e refl)
goes_on c s retrying e = inr (_, retry_sent e refl)
goes_on c s awaiting_retry e = inr (_, retry_failed e refl)
goes_on c s (posted r) e = inr (_, returned r e refl)
goes_on c s (finished r) e = inl (r, e)

-- However the calls that are under way are interleaved and whatever upstream answers, no call takes more
-- than ten steps or makes more than three POSTs from its start; and one that has not finished can take a
-- step in any state, an answer or a failure of upstream among them: no call waits for another.
pub calls_finish :
    (c : ℕ) (s t : Shared) (rs : Runs s t)
    → (s.calls c).phase ≡ ready
    → count (is_from c) s.sent ≡ 0
    → (steps_of c rs ≤ 10) × (count (is_from c) t.sent ≤ 3) × GoesOn c t
calls_finish c s t rs p n =
    let h : WithinLimit c s = ground (arith, p, n) in
    let kept = run_kept c s t rs h in
    let taken = run_left c s t rs in
    (
      omega (arith, taken, steps_left_bound (s.calls c).phase),
      omega (arith, kept),
      goes_on c t (t.calls c).phase refl,
    )
