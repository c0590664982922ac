-- ===== src/Tokencache.antt =====
-- internal/tokencache/source.go: the source of access tokens for one upstream, and the transport of
-- internal/tokencache/tokencache.go that uses it. What the token endpoint and the token command answer,
-- whether the entry's file could be written, and the clock are in the readings of a call.
pub mod Freshness
pub mod Files
pub mod Keeping
use mcptunnels.Prelude.{
  ℕ, ◌+◌, ◌-◌, Str, lit, Bool, true, false, not, ◌&&◌, ◌||◌, Option, none, some, List, [], ◌∷◌,
  is_empty, ltb, leb, nat_eq, trim_space, if◌then◌else◌,
}

pub record Entry : Type 0 where
  pub url : Str
  pub access_token : Str
  pub expires_at : ℕ
  pub refresh_token : Str
  pub token_url : Str
  pub client_id : Str
  pub token_cmd : Str

-- The source: its entry, when the token was obtained, and the entries handed to its store, latest first.
pub record Source : Type 0 where
  pub entry : Entry
  pub loaded_at : ℕ
  pub saved : List Entry

-- The decoded answer of a refresh; an `expires_in` that is not positive is 0.
pub record Refreshed : Type 0 where
  pub new_token : Str
  pub expires_in : ℕ
  pub new_refresh : Str

-- A refresh answers none where the request fails, its status is not 2xx, or its body does not decode; a
-- command answers none where it fails; `can_save` says that there is no store or that it saves the entry.
pub record Call : Type 0 where
  pub now : ℕ
  pub refresh_reply : Option Refreshed
  pub cmd_output : Option Str
  pub can_save : Bool

-- SourceType
unfoldable pub source_type : Entry → Str
source_type e =
    if not (is_empty e.token_cmd)
    then lit "command"
    else if not (is_empty e.refresh_token)
    then lit "refreshable"
    else lit "static"

abbrev pub skew : ℕ
skew = 30

abbrev pub cmd_staleness : ℕ
cmd_staleness = 300

abbrev pub expired : ℕ → ℕ → Bool
expired expires_at now = not (nat_eq expires_at 0) && leb expires_at (now + skew)

abbrev pub refreshed_entry : ℕ → Refreshed → Entry → Entry
refreshed_entry now r e = record e {
  access_token = r.new_token;
  expires_at = if ltb 0 r.expires_in then now + r.expires_in else e.expires_at;
  refresh_token = if is_empty r.new_refresh then e.refresh_token else r.new_refresh;
}

-- An answer without a token leaves the source; the entry is changed before it is saved.
unfoldable pub refresh_grant : Call → Source → Option Str × Source
refresh_grant call s = elim (call.refresh_reply) [
  | none ↦ (none, s)
  | some r ↦
      let e = refreshed_entry call.now r s.entry in
      let s' = record s { entry = e; loaded_at = call.now } in
      if is_empty r.new_token
      then (none, s)
      else if call.can_save
      then (some r.new_token, record s' { saved = e ∷ s.saved })
      else (none, s')
]

unfoldable pub run_cmd : Call → Source → Option Str × Source
unfolding trim_space
run_cmd call s = elim (call.cmd_output) [
  | none ↦ (none, s)
  | some out ↦
      let tok = trim_space out in
      if is_empty tok then (none, s) else (
        some tok,
        record s { entry = record (s.entry) { access_token = tok }; loaded_at = call.now },
      )
]

-- The token in hand may be used.
abbrev pub usable : ℕ → Source → Bool
usable now s =
    not (is_empty s.entry.access_token)
    && not (expired s.entry.expires_at now)
    && (is_empty s.entry.token_cmd
        || ltb (now - s.loaded_at) cmd_staleness
        || not (nat_eq s.entry.expires_at 0))

unfoldable pub renew : Call → Source → Option Str × Source
unfolding refresh_grant run_cmd
renew call s =
    let granted = refresh_grant call s in
    let ran = run_cmd call s in
    if not (is_empty s.entry.refresh_token) && not (is_empty s.entry.token_url)
    then granted
    else if not (is_empty s.entry.token_cmd)
    then ran
    else (none, s)

-- lockedToken: Token is `locked_token false`, Refresh is `locked_token true`.
unfoldable pub locked_token : Bool → Call → Source → Option Str × Source
unfolding renew
locked_token force call s =
    let renewed = renew call s in
    if not force && usable call.now s then (some s.entry.access_token, s) else renewed

-- What the base transport answers to the i-th request: an error, or a status.
abbrev pub Base : Type 0
Base = ℕ → Option ℕ

-- The tokens of the requests that were sent, in order, and the status of the answer; none is an error.
pub record Trip : Type 0 where
  pub sent : List Str
  pub status : Option ℕ

-- The second request, after a 401: `replayable` says that there is no body or that the request has
-- GetBody, and `body_again` that GetBody does not fail.
unfoldable pub retry : Base → Bool → Bool → Call → Str → Source → Trip × Source
unfolding locked_token
retry base replayable body_again call tok s =
    let (again, s') = locked_token true call s in
    if not replayable then (record { sent = tok ∷ []; status = none }, s) else elim again [
      | none ↦ (record { sent = tok ∷ []; status = none }, s')
      | some tok' ↦
          if body_again
          then (record { sent = tok ∷ tok' ∷ []; status = base 1 }, s')
          else (record { sent = tok ∷ []; status = none }, s')
    ]

abbrev is_unauthorized : Option ℕ → Bool
is_unauthorized none = false
is_unauthorized (some status) = nat_eq status 401

unfoldable pub round_trip : Base → Bool → Bool → Call → Call → Source → Trip × Source
unfolding retry locked_token
round_trip base replayable body_again first second s =
    let (token, s') = locked_token false first s in
    let again = λ (tok : Str). retry base replayable body_again second tok s' in
    elim token [
      | none ↦ (record { sent = []; status = none }, s')
      | some tok ↦
          if is_unauthorized (base 0)
          then again tok
          else (record { sent = tok ∷ []; status = base 0 }, s')
    ]
