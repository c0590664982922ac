-- ===== src/Tokencache/Freshness.antt =====
-- When the token source of internal/tokencache/source.go asks for a new token.
use mcptunnels.Prelude.{
  ℕ, ◌+◌, ◌≤◌, ◌<◌, Str, Bool, true, false, not, ◌&&◌, Option, none, some, Option-cases, Bool-cases,
  [], ◌∷◌, ◌≡◌, ◌≢◌, inl, inr, ◌⊎◌, arith, is_empty,
}
use mcptunnels.Tokencache.{
  Entry, Source, Refreshed, Call, locked_token, refresh_grant, renew, expired, Base, round_trip,
  retry, skew,
}

abbrev has_grant : Entry → Bool
has_grant e = not (is_empty e.refresh_token) && not (is_empty e.token_url)

-- Where a refresh of an entry with a refresh token has succeeded with a positive expires_in, Token gives
-- that very token, and changes and asks nothing, until 30 seconds before the new expiry.
pub locked_token-refresh :
    (call later : Call) (r : Refreshed) (s : Source)
    → has_grant s.entry ≡ true
    → call.refresh_reply ≡ some r
    → is_empty r.new_token ≡ false
    → 0 < r.expires_in
    → call.can_save ≡ true
    → later.now + skew < call.now + r.expires_in
    → let (token, after) = locked_token true call s in
      (token ≡ some r.new_token) × (locked_token false later after ≡ (some r.new_token, after))
unfolding locked_token renew refresh_grant
locked_token-refresh call later r s g reply full positive saved fresh =
    (ground (arith, g, reply, full, saved), ground (arith, g, reply, full, saved, positive, fresh))

-- Where a token has expired and the refresh answers with a token but without a positive expires_in, the
-- new token is returned and saved under the old expiry, so that the next Token, at any later time, uses
-- the refresh token again in place of the new token.
pub locked_token-stale :
    (call later : Call) (r : Refreshed) (s : Source)
    → has_grant s.entry ≡ true
    → expired s.entry.expires_at call.now ≡ true
    → call.refresh_reply ≡ some r
    → is_empty r.new_token ≡ false
    → r.expires_in ≡ 0
    → call.can_save ≡ true
    → call.now ≤ later.now
    → let (token, after) = locked_token false call s in
      (token ≡ some r.new_token)
      × (after.entry.expires_at ≡ s.entry.expires_at)
      × (locked_token false later after ≡ refresh_grant later after)
unfolding locked_token renew refresh_grant
locked_token-stale call later r s g old reply full none_given saved order = (
  ground (arith, g, old, reply, full, saved),
  ground (arith, g, old, reply, full, saved, none_given),
  ground (arith, g, old, reply, full, saved, none_given, order),
)

status_cases : (status : Option ℕ) → (status ≡ some 401) ⊎ (status ≢ some 401)
status_cases none = ground arith
status_cases (some n) = ground arith

-- A round trip sends nothing, where no token is to be had; or one request with the source's token, whose
-- answer is returned unless it is a 401; or, after a 401, one more request with the token of a forced
-- refresh, whose answer is returned whatever it is.
pub round_trip_cases :
    (base : Base) (replayable body_again : Bool) (first second : Call) (s : Source)
    → let (token, s') = locked_token false first s in
      let (trip, after) = round_trip base replayable body_again first second s in
      ((token ≡ none) × (trip.sent ≡ []))
      ⊎ ((tok : Str) × (token ≡ some tok)
          × (trip.sent ≡ tok ∷ [])
          × ((trip.status ≡ base 0) × (base 0 ≢ some 401)
              ⊎ (trip.status ≡ none) × (base 0 ≡ some 401)))
      ⊎ ((tok : Str) × (tok' : Str) × (token ≡ some tok)
          × (trip.sent ≡ tok ∷ tok' ∷ [])
          × (base 0 ≡ some 401)
          × ((locked_token true second s').0 ≡ some tok')
          × (trip.status ≡ base 1))
unfolding round_trip retry
round_trip_cases base replayable body_again first second s =
    let (token, s') = locked_token false first s in
    elim (Option-cases token) [
      | inl e ↦ inl (e, ground (arith, e))
      | inr (tok, e) ↦ elim (status_cases (base 0)) [
        | inr b ↦ inr (inl (tok, e, ground (arith, e, b), inl (ground (arith, e, b), b)))
        | inl b ↦ elim (Bool-cases (replayable && body_again)) [
          | inr c ↦ elim (Option-cases (locked_token true second s').0) [
            | inl f ↦
                inr (inl (tok, e, ground (arith, e, b, c, f), inr (ground (arith, e, b, c, f), b)))
            | inr (tok', f) ↦
                inr (inl (tok, e, ground (arith, e, b, c, f), inr (ground (arith, e, b, c, f), b)))
          ]
          | inl c ↦ elim (Option-cases (locked_token true second s').0) [
            | inl f ↦
                inr (inl (tok, e, ground (arith, e, b, c, f), inr (ground (arith, e, b, c, f), b)))
            | inr (tok', f) ↦
                inr
                  (inr (tok, tok', e, ground (arith, e, b, c, f), b, f, ground (arith, e, b, c, f)))
          ]
        ]
      ]
    ]
