-- ===== src/Oauth/Handlers/Answers.antt =====
-- What the handlers of internal/oauth answer, and what net/url, net and encoding/json make of their input.
use mcptunnels.Prelude.{ℕ, ◌-◌, Str, String, Bool, Option, List, ltb, if◌then◌else◌}

-- url.Parse to a scheme and a host name, net.ParseIP with IsLoopback, and JSON of a list of strings.
pub record Web : Type 0 where
  pub parse_url : Str → Option (Str × Str)
  pub is_loopback : Str → Bool
  pub write_strings : List Str → Str
  pub read_strings : Str → Option (List Str)

-- The whole seconds until a time, or since it (a negative `expires_in`).
pub data Remaining : Type 0 where
  ahead : ℕ → Remaining
  overdue : ℕ → Remaining

abbrev pub remaining : ℕ → ℕ → Remaining
remaining at now = if ltb now at then ahead (at - now) else overdue (now - at)

pub data Answer : Type 0 where
  failed : ℕ → String → Answer
  panicked : Answer
  client_created : Str → List Str → Str → Answer
  error_redirect : Str → String → Str → Answer
  password_form : Bool → Answer
  code_redirect : Str → Str → Str → Answer
  token_issued : Str → Remaining → Answer
