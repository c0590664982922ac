-- ===== src/Stdiofront/Stream.antt =====
-- stream of internal/stdiofront/stdiofront.go: the loop that follows the server's own messages. What each
-- GET came to is in a list of attempts; it ends where the context does. Times are in milliseconds.
use mcptunnels.Prelude.{
  ℕ, ◌≤◌, Str, not, Option, none, some, List, [], ◌∷◌, if◌then◌else◌, nat_eq, All, arith,
}
use mcptunnels.Backoff.{doubled, doubled_bounds}
use mcptunnels.Rpc.{Decode}
use mcptunnels.Stdiofront.Events.{read_events}
use mcptunnels.Stdiofront.Requests.{is_success}

-- A GET: none where the request fails, else its status and the body up to where it ends or breaks.
abbrev pub Attempt : Type 0
Attempt = Option (ℕ × Str)

-- The waits that were begun, and what was written to stdout.
pub record Followed : Type 0 where
  pub waits : List ℕ
  pub written : List Str

abbrev pub first_backoff : ℕ
first_backoff = 200

abbrev pub backoff_cap : ℕ
backoff_cap = 5000

abbrev waiting : ℕ → Followed → Followed
waiting d f = record f { waits = d ∷ f.waits }

-- Between the first backoff and the cap.
unfoldable pub Within : ℕ → Type 0
Within d = (first_backoff ≤ d) × (d ≤ backoff_cap)

module _ (decode : Decode) where
  unfoldable pub stream : List Attempt → ℕ → List Str → Followed
  unfolding doubled read_events
  stream [] backoff out = record { waits = []; written = out }
  stream (none ∷ rest) backoff out = waiting backoff (stream rest (doubled backoff_cap backoff) out)
  stream (some (status, body) ∷ rest) backoff out =
      let rejected = waiting backoff (stream rest backoff out) in
      let followed = stream rest first_backoff (read_events decode [] body out) in
      if nat_eq status 405
      then record { waits = []; written = out }
      else if not (is_success status)
      then rejected
      else followed

  -- Every wait of the stream loop that starts at a backoff between 200 ms and 5 s lasts between 200 ms
  -- and 5 s, whatever the server answers.
  pub stream_bounds :
      (attempts : List Attempt) (backoff : ℕ) (out : List Str)
      → Within backoff
      → All Within (stream attempts backoff out).waits
  unfolding stream Within
  stream_bounds [] backoff out w = ground arith
  stream_bounds (none ∷ rest) backoff out w = ground (
    arith,
    doubled_bounds backoff_cap first_backoff backoff,
    stream_bounds rest (doubled backoff_cap backoff) out,
  )
  stream_bounds (some (status, body) ∷ rest) backoff out w = ground (
    arith,
    stream_bounds rest backoff out,
    stream_bounds rest first_backoff (read_events decode [] body out),
  )
