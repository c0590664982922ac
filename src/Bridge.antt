-- ===== src/Bridge.antt =====
-- internal/bridge/bridge.go: an MCP server as a child process, behind an HTTP endpoint. The handlers,
-- the loop that reads the child's stdout and the goroutine that waits for its exit share one state; the
-- pieces that run between two accesses to it are the operations here, and Steps interleaves them.
pub mod Steps
pub mod Races
pub mod Lines
pub mod Invariant
pub mod Safety
pub mod Progress
use mcptunnels.Prelude.{
  ℕ, ◌+◌, ◌*◌, ◌^◌, Str, lit, Bool, true, false, not, ◌||◌, ◌&&◌, Option, none, some, List, [], ◌∷◌,
  ◌++◌, is_empty, if◌then◌else◌, nat_eq, ltb, length, trim_space, ◌==◌,
}
use mcptunnels.Rpc.{Decode, Envelope, id_of, event}

abbrev pub max_body : ℕ
max_body = 4 * 2 ^ 20

abbrev pub notif_queue : ℕ
notif_queue = 256

-- How a POST that waits for a response ends: with the child's message, with 502, or without an answer
-- since its client has left.
pub data Outcome : Type 0 where
  answered : Str → Outcome
  bad_gateway : Outcome
  gone : Outcome

-- Where the handler of a request stands: before `send`, at the `select`, before the deferred removal
-- from the map, or returned.
pub data Phase : Type 0 where
  unsent : Phase
  waiting : Phase
  leaving : Outcome → Phase
  returned : Outcome → Phase

-- A request with its channel, which holds at most one message.
pub record Post : Type 0 where
  pub key : Str
  pub body : Str
  pub buffer : Option Str
  pub closed : Bool
  pub phase : Phase

-- `held` is the channel that readLoop has found for a message and not yet sent it on; `streamed` is what
-- the GET handlers have written.
pub record Server : Type 0 where
  pub pending : Str → Option ℕ
  pub posts : ℕ → Post
  pub next : ℕ
  pub stdin : Str
  pub held : Option (ℕ × Str)
  pub notifs : List Str
  pub streamed : Str
  pub failed : Bool
  pub done : Bool
  pub panicked : Bool

abbrev no_post : Post
no_post = record { key = []; body = []; buffer = none; closed = false; phase = returned gone }

abbrev pub started : Server
started = record {
  pending = λ key. none;
  posts = λ c. no_post;
  next = 0;
  stdin = [];
  held = none;
  notifs = [];
  streamed = [];
  failed = false;
  done = false;
  panicked = false;
}

-- What handlePost makes of a body, which is none where it cannot be read.
pub data Plan : Type 0 where
  bad_request : Plan
  forward : Str → Plan
  request : Str → Str → Plan

abbrev plan_for : Str → Envelope → Plan
plan_for body e = elim (e.id) [
  | none ↦ forward body
  | some key ↦ if is_empty e.method then forward body else request key body
]

unfoldable pub plan : Decode → Option Str → Plan
plan decode none = bad_request
plan decode (some body) =
    if ltb max_body (length body)
    then bad_request
    else elim (decode body) [ none ↦ bad_request | some e ↦ plan_for body e ]

-- The answers of ServeHTTP before a method's handler runs.
pub data Route : Type 0 where
  exited : Route
  to_post : Route
  to_get : Route
  session_ended : Route
  not_allowed : Route

unfoldable pub route : Server → Str → Route
route s method =
    if s.done
    then exited
    else if method == lit "POST"
    then to_post
    else if method == lit "GET"
    then to_get
    else if method == lit "DELETE"
    then session_ended
    else not_allowed

abbrev pub set_pending : Str → Option ℕ → (Str → Option ℕ) → Str → Option ℕ
set_pending key c pending k = if key == k then c else pending k

abbrev pub set_post : ℕ → Post → Server → Server
set_post c p s = record s { posts = λ d. if nat_eq c d then p else s.posts d }

-- The channel of a request is made and put into the map, over an earlier one with the same id.
unfoldable pub register : Str → Str → Server → Server
register key body s =
    record (set_post s.next
      (record { key = key; body = body; buffer = none; closed = false; phase = unsent }) s) {
        pending = set_pending key (some s.next) s.pending;
        next = s.next + 1;
      }

-- send, where the write succeeds
abbrev pub write : Str → Server → Server
write msg s = record s { stdin = s.stdin ++ (msg ++ (10 ∷ [])) }

abbrev pub set_phase : ℕ → Phase → Server → Server
set_phase c p s = set_post c (record (s.posts c) { phase = p }) s

-- The deferred function of handlePost: whatever the map holds under the id goes.
unfoldable pub clean_up : ℕ → Outcome → Server → Server
clean_up c o s = record (set_phase c (returned o) s) {
  pending = set_pending (s.posts c).key none s.pending;
}

-- A message for the stream, dropped where the queue is full.
unfoldable pub enqueue : Str → Server → Server
enqueue msg s =
    if ltb (length s.notifs) notif_queue then record s { notifs = s.notifs ++ (msg ∷ []) } else s

abbrev waiter : Server → Option Str → Option ℕ
waiter s none = none
waiter s (some key) = s.pending key

-- One round of readLoop, up to the send on a channel.
unfoldable pub read_line : Decode → Str → Server → Server
unfolding enqueue trim_space
read_line decode line s = if is_empty (trim_space line) then s else elim (decode line) [
  | none ↦ s
  | some e ↦ elim (waiter s e.id) [
    | none ↦ enqueue line s
    | some c ↦ record s { held = some (c, line) }
  ]
]

-- The send, which panics on a closed channel.
unfoldable pub deliver : ℕ → Str → Server → Server
deliver c msg s =
    if (s.posts c).closed
    then record s { panicked = true }
    else record (set_post c (record (s.posts c) { buffer = some msg }) s) { held = none }

unfoldable pub receive : ℕ → Str → Server → Server
receive c msg s =
    set_post c (record (s.posts c) { buffer = none; phase = leaving (answered msg) }) s

abbrev is_chan : ℕ → Option ℕ → Bool
is_chan c none = false
is_chan c (some d) = nat_eq c d

-- After cmd.Wait: every channel in the map is closed, and the map is emptied.
unfoldable pub fail_pending : Server → Server
fail_pending s = record s {
  failed = true;
  pending = λ key. none;
  posts = λ c. record (s.posts c) {
    closed = (s.posts c).closed || is_chan c (s.pending (s.posts c).key);
  };
}

-- One round of handleGet.
unfoldable pub stream : Str → List Str → Server → Server
unfolding event
stream msg rest s = record s { notifs = rest; streamed = s.streamed ++ event msg }
