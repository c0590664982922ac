-- ===== src/Sqlite/Codes.antt =====
-- Authorization codes: they are good for one exchange, before they expire.
use mcptunnels.Prelude.{
  ℕ, Str, false, some, List, [], ◌∷◌, ◌≡◌, ◌≢◌, refl, arith, keep, count, any, update, inl, inr,
  if◌then◌else◌, ◌==◌, eq_iff, eq_refl, ltb, nat_eq, Bool-cases,
}
use mcptunnels.Sql.{CodeRow}
use mcptunnels.Sql.Run.{run, is_code, claimable}
use mcptunnels.Sql.Rows.{HasDistinct}
use mcptunnels.Sql.Integrity.{IsSound}
use mcptunnels.Act.{ok, err, not_found}
use mcptunnels.Driver.{Db, exec}
use mcptunnels.Store.{Grant}
use mcptunnels.Sqlite.{create_auth_code, consume_auth_code}
use mcptunnels.Sqlite.Queries.{IsHealthy}

abbrev used_up : ℕ → CodeRow → CodeRow
used_up now r = record r { used_at = some now }

none_claimable :
    (now : ℕ) (hash : Str) (cs : List CodeRow)
    → any (is_code hash) cs ≡ false
    → count (claimable now hash) cs ≡ 0
unfolding any count
none_claimable now hash [] h = refl
none_claimable now hash (c ∷ cs) h = ground (arith, none_claimable now hash cs)

any-update_code :
    (now : ℕ) (hash h' : Str) (cs : List CodeRow)
    → any (is_code h') (update (claimable now hash) (used_up now) cs) ≡ any (is_code h') cs
unfolding any update
any-update_code now hash h' [] = refl
any-update_code now hash h' (c ∷ cs) = ground (arith, any-update_code now hash h' cs)

-- Among codes with distinct hashes, the claim of a code leaves nothing to claim under its hash.
claimed_once :
    (now later : ℕ) (hash : Str) (cs : List CodeRow)
    → HasDistinct (λ r. is_code r.code_hash) cs
    → count (claimable now hash) cs ≢ 0
    → count (claimable later hash) (update (claimable now hash) (used_up now) cs) ≡ 0
unfolding any count update
claimed_once now later hash [] d h = ground arith
claimed_once now later hash (c ∷ cs) d h = ground (
  arith,
  eq_iff c.code_hash hash,
  none_claimable now hash cs,
  none_claimable later hash (update (claimable now hash) (used_up now) cs),
  any-update_code now hash hash cs,
  claimed_once now later hash cs d.1,
)

none_kept :
    (hash : Str) (cs : List CodeRow) → any (is_code hash) cs ≡ false → keep (is_code hash) cs ≡ []
unfolding any keep
none_kept hash [] h = refl
none_kept hash (c ∷ cs) h = ground (arith, none_kept hash cs)

-- Where a code was claimed, its hash selects exactly one row afterwards.
pub claimed_single :
    (now : ℕ) (hash : Str) (cs : List CodeRow)
    → HasDistinct (λ r. is_code r.code_hash) cs
    → nat_eq (count (claimable now hash) cs) 0 ≡ false
    → (row : CodeRow) × (keep
          (is_code hash)
          (update (claimable now hash) (λ r. record r { used_at = some now }) cs)
        ≡ row ∷ [])
unfolding any keep count update
claimed_single now hash [] d h = absurd (ground arith)
claimed_single now hash (c ∷ cs) d h =
    let later = update (claimable now hash) (used_up now) cs in
    elim (Bool-cases (c.code_hash == hash)) [
      | inl e ↦ (
        (if claimable now hash c then used_up now c else c),
        ground (
          arith,
          e,
          eq_iff c.code_hash hash,
          none_kept hash later,
          any-update_code now hash hash cs,
        ),
      )
      | inr e ↦
          let (row, only) = claimed_single now hash cs d.1 (ground (arith, e)) in
          (row, ground (arith, e, only))
    ]

-- A successful claim found a row to mark.
consume_found :
    (hash : Str) (now : ℕ) (db : Db) (g : Grant)
    → (consume_auth_code hash now db).0 ≡ ok g
    → (count (claimable now hash) db.tables.auth_codes ≢ 0)
      × ((consume_auth_code hash now db).1.tables ≡ record (db.tables) {
        auth_codes = update (claimable now hash) (used_up now) db.tables.auth_codes;
      })
unfolding consume_auth_code exec run
consume_found hash now db g h = (ground arith, ground arith)

-- From tables that meet the schema's constraints: once ConsumeAuthCode has returned a code, no second
-- call with the same code, at whatever time, returns it again. Driver failures are allowed anywhere.
pub consume-consume :
    (hash : Str) (now later : ℕ) (db : Db) (g g' : Grant)
    → IsSound db.tables
    → (consume_auth_code hash now db).0 ≡ ok g
    → (consume_auth_code hash later (consume_auth_code hash now db).1).0 ≢ ok g'
consume-consume hash now later db g g' v h h' =
    let (some_row, marked) = consume_found hash now db g h in
    (consume_found hash later (consume_auth_code hash now db).1 g' h').0
      (rw marked (claimed_once now later hash db.tables.auth_codes v.code_keys some_row))

-- With no driver failure, a code that CreateAuthCode has stored is returned by ConsumeAuthCode with
-- the tenant, client, redirect URI and challenge that were stored, exactly when it has not expired.
pub consume-create :
    (hash slug id uri challenge : Str) (expires now : ℕ) (db : Db)
    → IsHealthy db
    → (create_auth_code hash slug id uri challenge expires db).0 ≡ ok tt
    → (consume_auth_code hash now (create_auth_code hash slug id uri challenge expires db).1).0 ≡ (
        if ltb now expires
        then ok (record {
          tenant_slug = slug;
          client_id = id;
          redirect_uri = uri;
          code_challenge = challenge;
        })
        else err not_found)
unfolding create_auth_code consume_auth_code exec run count update keep
consume-create hash slug id uri challenge expires now db h e =
    ground (arith, eq_refl hash, none_claimable now hash db.tables.auth_codes)
