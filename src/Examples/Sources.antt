-- ===== src/Examples/Sources.antt =====
-- The theorems on the token source at a concrete entry.
use mcptunnels.Prelude.{ℕ, Str, lit, true, false, none, some, [], ◌∷◌, ◌≡◌, ◌≢◌, ◌⊎◌}
use mcptunnels.Tokencache.{Entry, Source, Call, Base, locked_token, round_trip}
use mcptunnels.Tokencache.Freshness.{round_trip_cases}

abbrev old_entry : Entry
old_entry = record {
  url = lit "https://up";
  access_token = lit "old";
  expires_at = 100;
  refresh_token = lit "r";
  token_url = lit "https://as/token";
  client_id = [];
  token_cmd = [];
}

abbrev old_source : Source
old_source = record { entry = old_entry; loaded_at = 10; saved = [] }

abbrev answers : ℕ → ℕ → Call
answers now expires_in = record {
  now = now;
  refresh_reply =
      some (record { new_token = lit "new"; expires_in = expires_in; new_refresh = [] });
  cmd_output = none;
  can_save = true;
}

abbrev refusing : Base
refusing i = some 401

round_trip_cases_example :
    let (token, s') = locked_token false (answers 20 0) old_source in
    let (trip, after) = round_trip refusing true true (answers 20 0) (answers 21 3600) old_source in
    ((token ≡ none) × (trip.sent ≡ []))
    ⊎ ((tok : Str) × (token ≡ some tok)
        × (trip.sent ≡ tok ∷ [])
        × ((trip.status ≡ some 401) × (refusing 0 ≢ some 401)
            ⊎ (trip.status ≡ none) × (refusing 0 ≡ some 401)))
    ⊎ ((tok : Str) × (tok' : Str) × (token ≡ some tok)
        × (trip.sent ≡ tok ∷ tok' ∷ [])
        × (refusing 0 ≡ some 401)
        × ((locked_token true (answers 21 3600) s').0 ≡ some tok')
        × (trip.status ≡ some 401))
round_trip_cases_example =
    round_trip_cases refusing true true (answers 20 0) (answers 21 3600) old_source
