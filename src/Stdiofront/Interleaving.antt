-- ===== src/Stdiofront/Interleaving.antt =====
-- Requests of internal/stdiofront/stdiofront.go that are under way at the same time: handleLine starts a
-- goroutine for each. They share the session and the cached initialize request; a step is what one of
-- them does between two points at which another may run, which are the locks and the waits for upstream.
use mcptunnels.Prelude.{
  ℕ, Str, lit, false, ◌&&◌, Option, none, some, List, [], ◌∷◌, ◌==◌, ◌≡◌, nat_eq, is_empty,
  if◌then◌else◌,
}
use mcptunnels.Stdiofront.Requests.{Sent, Response, is_success, post_header}

-- Where a goroutine of `request` is. `lost` has a 404 and has yet to look at the session; `expired` is
-- about to lock in reinit; `replaying` has the cached request and has yet to send_post it.
pub data CallPhase : Type 0 where
  ready : CallPhase
  awaiting : CallPhase
  lost : Response → CallPhase
  expired : CallPhase
  replaying : Str → CallPhase
  awaiting_replay : CallPhase
  adopting : Str → CallPhase
  retrying : CallPhase
  awaiting_retry : CallPhase
  -- what post returns
  posted : Option Response → CallPhase
  finished : Option Response → CallPhase

pub record Call : Type 0 where
  pub message : Str
  pub method : Str
  pub phase : CallPhase

-- The shared fields, the user's headers among them; the POSTs so far, the latest first, each with the call that made it; and the session ids of
-- the answers so far.
pub record Shared : Type 0 where
  pub canonical : Str → Str
  pub headers : List (Str × List Str)
  pub session : Str
  pub init_msg : Option Str
  pub calls : ℕ → Call
  pub sent : List (ℕ × Sent)
  pub given : List Str

unfoldable pub move : ℕ → CallPhase → Shared → Shared
move c p s = record s {
  calls = λ d. if nat_eq d c then record (s.calls c) { phase = p } else s.calls d;
}

-- doPost up to the wait for the answer, with the session of this moment.
unfoldable pub send_post : ℕ → Str → CallPhase → Shared → Shared
unfolding move
send_post c message p s = record (move c p s) {
  sent =
      (c, record { header = post_header s.canonical s.headers s.session; message = message })
      ∷ s.sent;
}

-- An answer, and what the call goes on with.
unfoldable pub take_answer : ℕ → Response → CallPhase → Shared → Shared
take_answer c r p s = record (move c p s) { given = r.session_id ∷ s.given }

abbrev pub after_post : Response → CallPhase
after_post r = if nat_eq r.status 404 then lost r else posted (some r)

abbrev pub after_replay : Response → CallPhase
after_replay r = if is_success r.status then adopting r.session_id else posted none

-- The first lines of reinit, under the lock.
unfoldable pub clear_session : ℕ → Shared → Shared
clear_session c s =
    let without = record s { session = [] } in
    elim (s.init_msg) [
      | none ↦ move c (posted none) without
      | some msg ↦ move c (replaying msg) without
    ]

abbrev pub adopt_id : Str → Shared → Shared
adopt_id sid s = if is_empty sid then s else record s { session = sid }

-- An answer to "initialize" is remembered, under the lock.
unfoldable pub remember_init : ℕ → Option Response → Shared → Shared
remember_init c none s = move c (finished none) s
remember_init c (some r) s =
    let left = move c (finished (some r)) s in
    if (s.calls c).method == lit "initialize" && is_success r.status
    then adopt_id r.session_id (record left { init_msg = some (s.calls c).message })
    else left

-- Call `c` goes on.
pub data CallStep (c : ℕ) (s : Shared) (t : Shared) : Type 0 where
  first_sent :
      (s.calls c).phase ≡ ready → t ≡ send_post c (s.calls c).message awaiting s → CallStep c s t
  first_failed : (s.calls c).phase ≡ awaiting → t ≡ move c (posted none) s → CallStep c s t
  first_answered :
      (r : Response)
      → (s.calls c).phase ≡ awaiting
      → t ≡ take_answer c r (after_post r) s
      → CallStep c s t
  no_session :
      (r : Response)
      → (s.calls c).phase ≡ lost r
      → s.session ≡ []
      → t ≡ move c (posted (some r)) s
      → CallStep c s t
  has_session :
      (r : Response)
      → (s.calls c).phase ≡ lost r
      → is_empty s.session ≡ false
      → t ≡ move c expired s
      → CallStep c s t
  cleared : (s.calls c).phase ≡ expired → t ≡ clear_session c s → CallStep c s t
  replay_sent :
      (msg : Str)
      → (s.calls c).phase ≡ replaying msg
      → t ≡ send_post c msg awaiting_replay s
      → CallStep c s t
  replay_failed : (s.calls c).phase ≡ awaiting_replay → t ≡ move c (posted none) s → CallStep c s t
  replay_answered :
      (r : Response)
      → (s.calls c).phase ≡ awaiting_replay
      → t ≡ take_answer c r (after_replay r) s
      → CallStep c s t
  adopted :
      (sid : Str)
      → (s.calls c).phase ≡ adopting sid
      → t ≡ move c retrying (adopt_id sid s)
      → CallStep c s t
  retry_sent :
      (s.calls c).phase ≡ retrying
      → t ≡ send_post c (s.calls c).message awaiting_retry s
      → CallStep c s t
  retry_failed : (s.calls c).phase ≡ awaiting_retry → t ≡ move c (posted none) s → CallStep c s t
  retry_answered :
      (r : Response)
      → (s.calls c).phase ≡ awaiting_retry
      → t ≡ take_answer c r (posted (some r)) s
      → CallStep c s t
  returned :
      (r : Option Response)
      → (s.calls c).phase ≡ posted r
      → t ≡ remember_init c r s
      → CallStep c s t

-- The states that steps of any calls lead to, in any order.
pub data Runs (s : Shared) : Shared → Type 0 where
  stop : Runs s s
  then_step : {t u : Shared} → (c : ℕ) → Runs s t → CallStep c t u → Runs s u
