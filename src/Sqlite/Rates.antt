-- ===== src/Sqlite/Rates.antt =====
-- The persistent rate counter of quick tunnels.
use mcptunnels.Prelude.{
  ℕ, ◌+◌, ◌-◌, ◌/◌, ◌≤◌, Str, true, false, not, ◌&&◌, Option, none, some, List, [], ◌∷◌, ◌≡◌, refl,
  arith, find, any, update, keep, if◌then◌else◌, ◌==◌, eq_iff, eq_refl, ltb, nat_eq,
}
use mcptunnels.Sql.{RateRow}
use mcptunnels.Sql.Run.{run, is_rate, rate_columns}
use mcptunnels.Act.{ok}
use mcptunnels.Driver.{Db, exec, scan_int}
use mcptunnels.Sqlite.{quick_rate_hit}
use mcptunnels.Sqlite.Queries.{IsHealthy, first_row-keep}

abbrev pub hits_of : Option RateRow → ℕ
hits_of none = 0
hits_of (some r) = r.hits

-- The count that the table holds for an address in a window.
abbrev pub hits_in : Str → ℕ → Db → ℕ
hits_in ip window db = hits_of (find (is_rate ip window) db.tables.quick_rate)

-- The counters after the upsert.
abbrev pub bump : RateRow → RateRow
bump r = record r { hits = r.hits + 1 }

abbrev pub upserted : Str → ℕ → List RateRow → List RateRow
upserted ip window rs =
    if any (is_rate ip window) rs
    then update (is_rate ip window) bump rs
    else record { ip = ip; window_start = window; hits = 1 } ∷ rs

find-update_self :
    (ip : Str) (w : ℕ) (rs : List RateRow)
    → any (is_rate ip w) rs ≡ true
    → hits_of (find (is_rate ip w) (update (is_rate ip w) bump rs))
      ≡ hits_of (find (is_rate ip w) rs) + 1
unfolding any find update
find-update_self ip w [] h = ground arith
find-update_self ip w (r ∷ rs) h = ground (arith, find-update_self ip w rs)

not_found-any :
    (ip : Str) (w : ℕ) (rs : List RateRow)
    → any (is_rate ip w) rs ≡ false
    → find (is_rate ip w) rs ≡ none
unfolding any find
not_found-any ip w [] h = refl
not_found-any ip w (r ∷ rs) h = ground (arith, not_found-any ip w rs)

find-upserted_self :
    (ip : Str) (w : ℕ) (rs : List RateRow)
    → hits_of (find (is_rate ip w) (upserted ip w rs)) ≡ hits_of (find (is_rate ip w) rs) + 1
unfolding find
find-upserted_self ip w rs =
    ground (arith, eq_refl ip, find-update_self ip w rs, not_found-any ip w rs)

find-update_other :
    (ip ip' : Str) (w w' : ℕ) (rs : List RateRow)
    → is_rate ip' w' (record { ip = ip; window_start = w; hits = 1 }) ≡ false
    → hits_of (find (is_rate ip' w') (update (is_rate ip w) bump rs))
      ≡ hits_of (find (is_rate ip' w') rs)
unfolding find update
find-update_other ip ip' w w' [] h = refl
find-update_other ip ip' w w' (r ∷ rs) h =
    ground
      (arith, eq_iff ip ip', eq_iff r.ip ip, eq_iff r.ip ip', find-update_other ip ip' w w' rs h)

-- Pruning drops only windows older than the one before last.
find-pruned :
    (ip : Str) (w oldest : ℕ) (rs : List RateRow)
    → oldest ≤ w
    → find (is_rate ip w) (keep (λ r. not (ltb r.window_start oldest)) rs) ≡ find (is_rate ip w) rs
unfolding find keep
find-pruned ip w oldest [] h = refl
find-pruned ip w oldest (r ∷ rs) h = ground (arith, find-pruned ip w oldest rs h)

abbrev pub pruned : ℕ → Db → List RateRow
pruned w db = keep (λ r. not (ltb r.window_start (w - 2))) db.tables.quick_rate

abbrev pub counted : Str → ℕ → Db → Db
counted ip w db = record db {
  tables = record (db.tables) { quick_rate = upserted ip w (pruned w db) };
}

pub hits_in-counted :
    (ip : Str) (w : ℕ) (db : Db) → hits_in ip w (counted ip w db) ≡ hits_in ip w db + 1
hits_in-counted ip w db =
    ground
      (arith, find-upserted_self ip w (pruned w db), find-pruned ip w (w - 2) db.tables.quick_rate)

pub quick_rate_hit_lem :
    (ip : Str) (now : ℕ) (db : Db)
    → IsHealthy db
    → quick_rate_hit ip now db ≡ (ok (hits_in ip (now / 3600) db + 1), counted ip (now / 3600) db)
unfolding quick_rate_hit exec run
quick_rate_hit_lem ip now db h = ground (
  arith,
  hits_in-counted ip (now / 3600) db,
  first_row-keep scan_int rate_columns (λ r. r.hits) (is_rate ip (now / 3600)) (λ r. refl)
      (upserted ip (now / 3600) (pruned (now / 3600) db)),
)

find-upserted_other :
    (ip ip' : Str) (w w' : ℕ) (rs : List RateRow)
    → is_rate ip' w' (record { ip = ip; window_start = w; hits = 1 }) ≡ false
    → hits_of (find (is_rate ip' w') (upserted ip w rs)) ≡ hits_of (find (is_rate ip' w') rs)
unfolding find
find-upserted_other ip ip' w w' rs h = ground (arith, find-update_other ip ip' w w' rs h)

-- With no driver failure, QuickRateHit returns one more than the count that the table held for this
-- address in the hour of `now`, and stores it; the counts of every other address and window that is
-- at most two windows old stay as they were.
pub hits_in-quick_rate_hit :
    (ip other : Str) (now window : ℕ) (db : Db)
    → IsHealthy db
    → (ip == other && nat_eq (now / 3600) window) ≡ false
    → now / 3600 ≤ window + 2
    → let after = (quick_rate_hit ip now db).1 in
      ((quick_rate_hit ip now db).0 ≡ ok (hits_in ip (now / 3600) db + 1))
      × (hits_in ip (now / 3600) after ≡ hits_in ip (now / 3600) db + 1)
      × (hits_in other window after ≡ hits_in other window db)
hits_in-quick_rate_hit ip other now window db h ne recent = rw (quick_rate_hit_lem ip now db h) (
  refl,
  hits_in-counted ip (now / 3600) db,
  ground (
    arith,
    find-upserted_other ip other (now / 3600) window (pruned (now / 3600) db) ne,
    find-pruned other window (now / 3600 - 2) db.tables.quick_rate,
  ),
)
