-- ===== src/Rpc.antt =====
-- The JSON-RPC messages that internal/bridge/bridge.go and internal/stdiofront/stdiofront.go pass on:
-- their type `envelope`, and the format of server-sent events that one writes and the other reads.
pub mod Trim
use mcptunnels.Prelude.{
  ℕ, Str, lit, Bool, true, false, Option, none, some, List, [], ◌∷◌, ◌++◌, ◌==◌,
}

-- The members that route a message: the raw text of "id", where it has one, and "method".
pub record Envelope : Type 0 where
  pub id : Option Str
  pub method : Str

-- json.Unmarshal of a message into an envelope.
abbrev pub Decode : Type 0
Decode = Str → Option Envelope

abbrev pub id_of : Option Envelope → Option Str
id_of none = none
id_of (some e) = e.id

-- The raw id of a message is the given one.
abbrev pub has_id : Str → Option Str → Bool
has_id key none = false
has_id key (some id) = id == key

-- One event as handleGet writes it: event: message\ndata: %s\n\n
unfoldable pub event : Str → Str
event msg = lit "event: message" ++ (10 ∷ (lit "data: " ++ (msg ++ (10 ∷ 10 ∷ []))))

unfoldable pub events : List Str → Str
unfolding event
events [] = []
events (m ∷ ms) = event m ++ events ms
