-- ===== src/Gateway.antt =====
-- internal/gateway/gateway.go: the registry of the connected agents. A yamux session is known by a
-- number; websocket.Accept and yamux.Client give one or fail, and Open gives a stream or fails.
pub mod Registry
pub mod Access
use mcptunnels.Prelude.{
  ℕ, Str, Bool, true, false, not, ◌||◌, Option, none, some, List, [], ◌∷◌, ◌++◌, ◌==◌, nat_eq, find,
  keep, any, is_empty, if◌then◌else◌,
}
use mcptunnels.Act.{Result, ok, err}
use mcptunnels.Store.{Api}
use mcptunnels.ControlPlane.{bearer_key}

pub record Entry : Type 0 where
  pub key : Str
  pub session : ℕ

-- The sessions map, and the sessions that Close was called on.
pub record Gateway : Type 0 where
  pub sessions : List Entry
  pub closed : List ℕ

unfoldable pub session_key : Str → Str → Str
session_key tenant service = tenant ++ 0 ∷ service

abbrev pub has_key : Str → Entry → Bool
has_key key e = e.key == key

abbrev session_of_entry : Option Entry → Option ℕ
session_of_entry none = none
session_of_entry (some e) = some e.session

-- g.sessions[key]
unfoldable pub session_at : Str → Gateway → Option ℕ
unfolding find
session_at key g = session_of_entry (find (has_key key) g.sessions)

unfoldable pub register : Str → ℕ → Gateway → Gateway
unfolding session_at keep
register key sess g = record {
  sessions = record { key = key; session = sess } ∷ keep (λ e. not (has_key key e)) g.sessions;
  closed = elim (session_at key g) [ none ↦ g.closed | some old ↦ old ∷ g.closed ];
}

abbrev is_session : ℕ → Option ℕ → Bool
is_session sess none = false
is_session sess (some s) = nat_eq s sess

unfoldable pub unregister : Str → ℕ → Gateway → Gateway
unfolding session_at keep
unregister key sess g =
    if is_session sess (session_at key g)
    then record g { sessions = keep (λ e. not (has_key key e)) g.sessions }
    else g

unfoldable pub online : Str → Str → Gateway → Bool
unfolding session_key any
online tenant service g = any (has_key (session_key tenant service)) g.sessions

-- None is ErrServiceOffline.
unfoldable pub dial {ℓ} :
    {Stream : Type ℓ} → (ℕ → Option Stream) → Str → Str → Gateway → Option Stream
unfolding session_at session_key
dial opens tenant service g = elim (session_at (session_key tenant service) g) [
  | none ↦ none
  | some s ↦ opens s
]

pub record ConnectRequest : Type 0 where
  pub tenant : Str
  pub service_name : Str
  pub authorization : Str

pub data Connection : Type 0 where
  unauthorized : Connection
  not_upgraded : Connection
  connected : Str → ℕ → Connection

-- ServeHTTP up to the wait for the end of the session; `accepted` is the session, or none where the
-- upgrade or yamux.Client fails. When the session ends, the handler goes on with `unregister`.
module _ {S : Type 0} (api : Api S) where
  unfoldable pub connect : Option ℕ → ConnectRequest → S → Gateway → Connection × S × Gateway
  unfolding bearer_key register session_key
  connect accepted req s g =
      let sk = session_key req.tenant req.service_name in
      let (valid, s') =
        api.validate_agent_key req.tenant req.service_name (bearer_key req.authorization) s in
      if is_empty req.tenant || is_empty req.service_name
      then (unauthorized, s, g)
      else elim valid [
        | err e ↦ (unauthorized, s', g)
        | ok svc ↦ elim accepted [
          | none ↦ (not_upgraded, s', g)
          | some sess ↦ (connected sk sess, s', register sk sess g)
        ]
      ]
