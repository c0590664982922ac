-- ===== src/Agent.antt =====
-- internal/agent/agent.go: the client of a tunnel. The WebSocket, the yamux session and the upstream are
-- outside; what they do stands in the readings of a round and in the function that answers a request.
pub mod Reconnect
pub mod Forward
use mcptunnels.Prelude.{
  ℕ, ◌+◌, ◌-◌, ◌*◌, ◌/◌, Str, lit, Bool, true, false, ◌||◌, Option, none, some, List, [], ◌∷◌,
  if◌then◌else◌, ◌==◌, ◌++◌, trim_right,
}
use mcptunnels.Backoff.{doubled}
use mcptunnels.Gateway.{ConnectRequest}
use mcptunnels.Http.{Url, Header, del, copy_headers}

-- The configuration that New takes, and the client it makes of it.
pub record Config : Type 0 where
  pub server : Str
  pub tenant : Str
  pub agent_key : Str
  pub service : Str
  pub upstream : Str
  pub upstream_headers : List (Str × List Str)
  pub initial_backoff : ℕ
  pub max_backoff : ℕ

pub record Client : Type 0 where
  pub connect_url : Str
  pub key : Str
  pub tenant : Str
  pub service : Str
  pub upstream : Url
  pub upstream_headers : List (Str × List Str)
  pub initial_backoff : ℕ
  pub max_backoff : ℕ

abbrev pub connect_path : Str
connect_path = lit "/tunnel/connect"

-- New; none is an error.
unfoldable pub new : (Str → Option Url) → Config → Option Client
unfolding trim_right
new parse cfg = elim (parse cfg.upstream) [
  | none ↦ none
  | some u ↦
      if (u.scheme == lit "http") || (u.scheme == lit "https")
      then some (record {
        connect_url = trim_right 47 cfg.server ++ connect_path;
        key = cfg.agent_key;
        tenant = cfg.tenant;
        service = cfg.service;
        upstream = u;
        upstream_headers = cfg.upstream_headers;
        initial_backoff = cfg.initial_backoff;
        max_backoff = cfg.max_backoff;
      })
      else none
]

-- tunnelproto.AuthorizationHeader
abbrev pub authorization_header : Str → Str
authorization_header key = lit "Bearer " ++ key

-- The headers that serve sets for the dial, as the gateway reads them.
abbrev pub handshake : Client → ConnectRequest
handshake c = record {
  tenant = c.tenant;
  service_name = c.service;
  authorization = authorization_header c.key;
}

-- One turn of Run's loop: whether the context ended while the tunnel was served, the random numbers below a
-- bound that the turn draws, and whether the context ended during the wait.
pub record Turn : Type 0 where
  pub stopped : Bool
  pub random : ℕ → ℕ
  pub interrupted : Bool

unfoldable pub jitter : (ℕ → ℕ) → ℕ → ℕ
jitter random d = d - d / 4 + random (2 * (d / 4) + 1)

-- The waits that Run begins, over the turns that its tunnels take.
unfoldable pub run_from : ℕ → List Turn → ℕ → List ℕ
unfolding jitter doubled
run_from most [] backoff = []
run_from most (t ∷ turns) backoff =
    let later = run_from most turns (doubled most backoff) in
    if t.stopped then [] else jitter t.random backoff ∷ (if t.interrupted then [] else later)

unfoldable pub run : Client → List Turn → List ℕ
unfolding run_from
run c turns = run_from c.max_backoff turns c.initial_backoff

-- A request read from a stream; the host is that of its URL unless `host_header` is set.
pub record Request : Type 0 where
  pub verb : Str
  pub url : Url
  pub host_header : Str
  pub header : Header
  pub body : Str

pub record Answer : Type 0 where
  pub status : ℕ
  pub answered : Header
  pub content : Str

-- What handleStream sends upstream.
unfoldable pub outgoing : (Str → Str) → Client → Request → Request
unfolding copy_headers
outgoing canonical c req =
    let stripped =
      del (lit "Cookie") (del (lit "Proxy-Authorization") (del (lit "Authorization") req.header)) in
    record req {
      url = record (req.url) { scheme = c.upstream.scheme; host = c.upstream.host };
      host_header = [];
      header = copy_headers canonical c.upstream_headers stripped;
    }

-- writeError for a bad gateway.
abbrev pub bad_gateway : Answer
bad_gateway = record {
  status = 502;
  answered = copy_headers (λ k. k) ((lit "Content-Type", lit "text/plain" ∷ []) ∷ []) (λ name. []);
  content = [];
}

-- What handleStream writes to the stream: nothing where no request could be read from it. The upstream
-- answers none where the request fails.
unfoldable pub handle_stream :
    (Str → Str) → (Request → Option Answer) → Client → Option Request → Option Answer
unfolding outgoing
handle_stream canonical upstream c none = none
handle_stream canonical upstream c (some req) = elim (upstream (outgoing canonical c req)) [
  | none ↦ some bad_gateway
  | some resp ↦ some resp
]
