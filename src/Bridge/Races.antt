-- ===== src/Bridge/Races.antt =====
-- Orders of events in internal/bridge/bridge.go that lose a request or the process.
use mcptunnels.Prelude.{
  ℕ, ◌+◌, Str, true, false, none, some, Option-cases, ◌≡◌, inl, inr, refl, arith, is_empty,
  trim_space, eq_refl,
}
use mcptunnels.Rpc.{Decode, id_of}
use mcptunnels.Bridge.{
  Server, Outcome, register, clean_up, read_line, enqueue, deliver, fail_pending,
}
use mcptunnels.Bridge.Steps.{delivered_late, exited, Reach, later}

is_chan_closed :
    (c : ℕ) (s : Server)
    → s.pending (s.posts c).key ≡ some c
    → ((fail_pending s).posts c).closed ≡ true
unfolding fail_pending
is_chan_closed c s h = ground (arith, h)

-- Where readLoop holds a message for the channel of a waiting request, and the child's exit is not yet
-- handled, the handling of the exit may come first: it closes the channel, and the send panics.
pub fail_pending-deliver :
    (decode : Decode) (s : Server) (c : ℕ) (m : Str)
    → Reach decode s
    → s.panicked ≡ false
    → s.failed ≡ false
    → s.held ≡ some (c, m)
    → s.pending (s.posts c).key ≡ some c
    → let crashed = deliver c m (fail_pending s) in Reach decode crashed × (crashed.panicked ≡ true)
unfolding deliver
fail_pending-deliver decode s c m r p f h w =
    let closed = is_chan_closed c s w in
    let handled = later r p (exited f refl) in
    (
      later handled (unfold fail_pending in p)
          (delivered_late c m (unfold fail_pending in h) closed refl),
      ground (arith, closed),
    )

-- Two requests with the same id: when the first one's handler returns, the map has no entry for the id
-- any more, though the second still waits, and a response with that id goes to the queue of the stream.
pub register-register :
    (decode : Decode) (s : Server) (key first second line : Str) (o : Outcome)
    → id_of (decode line) ≡ some key
    → is_empty (trim_space line) ≡ false
    → let both = register key second (register key first s) in
      let left = clean_up s.next o both in
      (both.pending key ≡ some (s.next + 1))
      × (left.pending key ≡ none)
      × (read_line decode line left ≡ enqueue line left)
unfolding register clean_up read_line
register-register decode s key first second line o i t = elim (Option-cases (decode line)) [
  | inl d ↦ absurd (ground (arith, d))
  | inr (e, d) ↦
      (ground (arith, eq_refl key), ground (arith, eq_refl key), ground (arith, d, eq_refl key))
]
