-- ===== src/Stdiofront/Expiry.antt =====
-- A session of internal/stdiofront/stdiofront.go that expires under several requests at once.
use mcptunnels.Prelude.{◌∷◌, ℕ, Str, false, some, [], ◌≡◌, nat_eq, is_empty, arith, refl}
use mcptunnels.Stdiofront.Requests.{post_header, Response}
use mcptunnels.Stdiofront.Interleaving.{
  lost, expired, replaying, awaiting_replay, adopting, retrying, posted, Shared, move, send_post,
  clear_session, adopt_id, no_session, has_session, cleared, replay_sent, adopted, Runs, stop,
  then_step,
}

-- Two calls that have both been answered with 404 under a session: where the second looks at the session
-- after the first has cleared it in reinit, the first goes on to replay the initialize request, and the
-- second is left with its 404, which is not tried again.
pub second_left :
    (s : Shared) (a b : ℕ) (ra rb : Response) (init : Str)
    → nat_eq a b ≡ false
    → (s.calls a).phase ≡ lost ra
    → (s.calls b).phase ≡ lost rb
    → s.init_msg ≡ some init
    → is_empty s.session ≡ false
    → (t : Shared) × Runs s t
      × ((t.calls a).phase ≡ replaying init)
      × ((t.calls b).phase ≡ posted (some rb))
unfolding move clear_session
second_left s a b ra rb init ab pa pb i live =
    let s1 = move a expired s in
    let s2 = clear_session a s1 in
    let s3 = move b (posted (some rb)) s2 in
    let one : Runs s s1 = then_step a stop (has_session ra pa live refl) in
    let two : Runs s s2 = then_step a one (cleared (ground arith) refl) in
    let three : Runs s s3 =
      then_step b two (no_session rb (ground (arith, i, ab)) (ground (arith, i)) refl) in
    (s3, three, ground (arith, i, ab), ground (arith, i, ab))

-- Where the first has already put a new session in place, the second clears it, and replays the initialize
-- request again.
fresh_cleared :
    (s : Shared) (a b : ℕ) (rb : Response) (init fresh : Str)
    → nat_eq a b ≡ false
    → (s.calls a).phase ≡ adopting fresh
    → (s.calls b).phase ≡ lost rb
    → s.init_msg ≡ some init
    → is_empty fresh ≡ false
    → (t : Shared) × Runs s t
      × ((t.calls a).phase ≡ retrying)
      × (t.session ≡ [])
      × ((t.calls b).phase ≡ replaying init)
unfolding move clear_session
fresh_cleared s a b rb init fresh ab pa pb i full =
    let s1 = move a retrying (adopt_id fresh s) in
    let s2 = move b expired s1 in
    let s3 = clear_session b s2 in
    let one : Runs s s1 = then_step a stop (adopted fresh pa refl) in
    let two : Runs s s2 =
      then_step b one (has_session rb (ground (arith, ab, pb, full)) (ground (arith, full)) refl) in
    let three : Runs s s3 = then_step b two (cleared (ground arith) refl) in
    (
      s3,
      three,
      ground (arith, i, ab, full),
      ground (arith, i, ab, full),
      ground (arith, i, ab, full),
    )

-- A replayed initialize request carries a session id where another call puts a new session in place between
-- the lock of reinit and the POST of the replay.
replay_with_session :
    (s : Shared) (a b : ℕ) (init fresh : Str)
    → nat_eq a b ≡ false
    → (s.calls a).phase ≡ replaying init
    → (s.calls b).phase ≡ adopting fresh
    → is_empty fresh ≡ false
    → (t : Shared) × Runs s t
      × (t.sent
          ≡ (a, record { header = post_header s.canonical s.headers fresh; message = init })
            ∷ s.sent)
unfolding move send_post
replay_with_session s a b init fresh ab pa pb full =
    let s1 = move b retrying (adopt_id fresh s) in
    let s2 = send_post a init awaiting_replay s1 in
    let one : Runs s s1 = then_step b stop (adopted fresh pb refl) in
    let two : Runs s s2 = then_step a one (replay_sent init (ground (arith, pa, ab, full)) refl) in
    (s2, two, ground (arith, full))
