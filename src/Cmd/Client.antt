-- ===== src/Cmd/Client.antt =====
-- The client of the control plane in internal/cli/cli.go. Encoding the query and the body, and decoding an
-- answer, are parameters; what the request comes back with is a reading.
use mcptunnels.Prelude.{
  ℕ, Str, lit, Bool, not, ◌&&◌, ◌||◌, Option, none, some, [], ◌++◌, is_empty, if◌then◌else◌, leb,
  ltb, trim_right,
}
use mcptunnels.Config.{DaemonConfig, Loaded, loaded, failed, load_daemon}

-- NewClient's base URL.
unfoldable pub client_base : Str → Str
unfolding trim_right
client_base server = trim_right 47 server

-- The URL of a request; an encoded query is empty where there are no values.
unfoldable pub request_url : Str → Str → Str → Str
request_url base path query =
    base ++ (lit "/api/v1" ++ (path ++ (if is_empty query then [] else lit "?" ++ query)))

-- How a request ends: with no answer, with an error status and its message, with a body that does not
-- decode, or well, with the decoded body where one is wanted and there is one.
pub data Done (Out : Type 0) : Type 0 where
  unanswered : Done Out
  refused : ℕ → Str → Done Out
  undecoded : Done Out
  finished : Option Out → Done Out

-- `error_field` is the "error" of a JSON object, empty where the object has none.
abbrev message : (ℕ → Str) → (Str → Option Str) → ℕ → Str → Str
message status_text error_field status body = elim (error_field body) [
  | none ↦ status_text status
  | some e ↦ if is_empty e then status_text status else e
]

abbrev finished_with : {Out : Type 0} → Option Out → Done Out
finished_with none = undecoded
finished_with (some out) = finished (some out)

-- Do, from its answer on: the status and the body, or none.
unfoldable pub do_request :
    {Out : Type 0}
    → (ℕ → Str)
    → (Str → Option Str)
    → (Str → Option Out)
    → Bool
    → Option (ℕ × Str)
    → Done Out
do_request status_text error_field decode wanted none = unanswered
do_request status_text error_field decode wanted (some (status, body)) =
    if ltb status 200 || leb 300 status
    then refused status (message status_text error_field status body)
    else if wanted && not (is_empty body)
    then finished_with (decode body)
    else finished none

abbrev base_of_config : Loaded → Option Str
unfolding trim_right
base_of_config (loaded cfg) = some (trim_right 47 cfg.public_base_url)
base_of_config (failed e) = none

unfoldable pub server_from_config : (DaemonConfig → Option DaemonConfig) → Str → Option Str
unfolding load_daemon base_of_config
server_from_config load env = base_of_config (load_daemon load env)
