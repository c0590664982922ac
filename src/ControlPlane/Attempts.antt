-- ===== src/ControlPlane/Attempts.antt =====
-- How many POST /quick of internal/controlplane/controlplane.go an address gets through in an hour, over the
-- SQLite store.
use mcptunnels.Prelude.{
  ℕ, ◌+◌, ◌/◌, Str, Bool, true, false, some, List, [], ◌∷◌, ◌≡◌, ◌∙◌, refl, ap, arith, inl, inr,
  All, length, leb, if◌then◌else◌, Bool-cases, find,
}
use mathlib.Core.Path.{subst}
use mcptunnels.Sql.Run.{is_rate}
use mcptunnels.Driver.{Db}
use mcptunnels.Store.{Bcrypt}
use mcptunnels.Sqlite.{sqlite_api, quick_rate_hit}
use mcptunnels.Sqlite.Queries.{IsHealthy}
use mcptunnels.Sqlite.Rates.{hits_of, hits_in, counted, hits_in-counted, quick_rate_hit_lem}
use mcptunnels.Sqlite.Frames.{quick_rate_hit-frame}
use mcptunnels.ControlPlane.{
  QuickRequest, Environment, Response, json_error, handle_quick, within_capacity, allow_quick,
}
use mcptunnels.ControlPlane.Counting.{HasRates, within_capacity-HasRates}

-- A request that comes from an address, at whatever port, in an hour.
abbrev pub IsFrom : Str → ℕ → Environment × QuickRequest → Type 0
IsFrom ip hour (env, req) =
    (env.split_host req.remote_addr ≡ some ip) × (env.rate_time / 3600 ≡ hour)

module _ (bcrypt : Bcrypt) where
  -- Requests one after another, each with what the system gives to it.
  abbrev pub post_all : List (Environment × QuickRequest) → Db → Db
  post_all [] db = db
  post_all ((env, req) ∷ later) db =
      post_all later (handle_quick (sqlite_api bcrypt) bcrypt env req db).1

  -- The two ways on from QuickRateHit.
  abbrev judged : Environment → QuickRequest → Bool → Db → Response × Db
  judged env req allowed hit =
      if allowed
      then within_capacity (sqlite_api bcrypt) bcrypt env req.body hit
      else (json_error 429 "quick tunnel rate limit exceeded; try again later", hit)

  handle_quick-judged :
      (ip : Str) (env : Environment) (req : QuickRequest) (db : Db)
      → IsHealthy db
      → env.split_host req.remote_addr ≡ some ip
      → handle_quick (sqlite_api bcrypt) bcrypt env req db
        ≡ judged env req
            (leb (hits_in ip (env.rate_time / 3600) db + 1) 10)
            (counted ip (env.rate_time / 3600) db)
  unfolding handle_quick allow_quick
  handle_quick-judged ip env req db h from =
      ground (arith, from, quick_rate_hit_lem ip env.rate_time db h)

  settled :
      (env : Environment) (req : QuickRequest) (n : ℕ) (hit : Db)
      → judged env req (leb (n + 1) 10) hit ≡ (
          if leb 10 n
          then (json_error 429 "quick tunnel rate limit exceeded; try again later", hit)
          else within_capacity (sqlite_api bcrypt) bcrypt env req.body hit)
  settled env req n hit = elim (Bool-cases (leb 10 n)) [
    | inl e ↦ let over : leb (n + 1) 10 ≡ false = ground (arith, e) in rw (e, over) refl
    | inr e ↦ let under : leb (n + 1) 10 ≡ true = ground (arith, e) in rw (e, under) refl
  ]

  judged-HasRates :
      (ip : Str) (hour : ℕ) (env : Environment) (req : QuickRequest) (allowed : Bool) (db : Db)
      → IsHealthy db
      → HasRates
          (counted ip hour db).tables.quick_rate
          (judged env req allowed (counted ip hour db)).1
  judged-HasRates ip hour env req true db h =
      within_capacity-HasRates _ bcrypt env req.body (counted ip hour db) (refl, h)
  judged-HasRates ip hour env req false db h = (refl, h)

  -- Each request is counted, whatever it is answered with.
  handle_quick_counts :
      (ip : Str) (hour : ℕ) (env : Environment) (req : QuickRequest) (db : Db)
      → IsHealthy db
      → IsFrom ip hour (env, req)
      → let after = (handle_quick (sqlite_api bcrypt) bcrypt env req db).1 in
        (hits_in ip hour after ≡ hits_in ip hour db + 1) × IsHealthy after
  handle_quick_counts ip hour env req db h (from, same) =
      let window : ℕ = env.rate_time / 3600 in
      let way = leb (hits_in ip window db + 1) 10 in
      let step = ap (λ o. o.1) (handle_quick-judged ip env req db h from) in
      let (rates, healthy) = judged-HasRates ip window env req way db h in
      let counts =
        ap (λ (d : Db). hits_in ip window d) step
        ∙ ap (λ rs. hits_of (find (is_rate ip window) rs)) rates
        ∙ hits_in-counted ip window db in
      (
        subst
            (λ w.
              hits_in ip w (handle_quick (sqlite_api bcrypt) bcrypt env req db).1
              ≡ hits_in ip w db + 1)
            same counts,
        ap (λ (d : Db). d.faults) step ∙ healthy,
      )

  post_all_counts :
      (ip : Str) (hour : ℕ) (attempts : List (Environment × QuickRequest)) (db : Db)
      → IsHealthy db
      → All (IsFrom ip hour) attempts
      → (hits_in ip hour (post_all attempts db) ≡ hits_in ip hour db + length attempts)
        × IsHealthy (post_all attempts db)
  post_all_counts ip hour [] db h a = (omega arith, h)
  post_all_counts ip hour ((env, req) ∷ later) db h a =
      let (one, healthy) = handle_quick_counts ip hour env req db h a.0 in
      let (rest, last) =
        post_all_counts ip hour later (handle_quick (sqlite_api bcrypt) bcrypt env req db).1 healthy
          a.1 in
      (omega (arith, one, rest), last)

  -- With no driver failure: of the POST /quick requests from one address in one hour, whatever their ports,
  -- their bodies and their answers, and whatever else each of them finds, all count. The next one is
  -- answered with 429 exactly where those that the store held before and they are ten or more; else it goes
  -- on to the check of the capacity. Its counting leaves the tenants as they are.
  pub handle_quick-post_all :
      (ip : Str) (attempts : List (Environment × QuickRequest)) (env : Environment)
      (req : QuickRequest) (db : Db)
      → IsHealthy db
      → All (IsFrom ip (env.rate_time / 3600)) attempts
      → env.split_host req.remote_addr ≡ some ip
      → let tried = post_all attempts db in
        let hit = (quick_rate_hit ip env.rate_time tried).1 in
        (handle_quick (sqlite_api bcrypt) bcrypt env req tried ≡ (
          if leb 10 (hits_in ip (env.rate_time / 3600) db + length attempts)
          then (json_error 429 "quick tunnel rate limit exceeded; try again later", hit)
          else within_capacity (sqlite_api bcrypt) bcrypt env req.body hit))
        × (hit.tables.tenants ≡ tried.tables.tenants)
  handle_quick-post_all ip attempts env req db h a from =
      let tried = post_all attempts db in
      let (count, healthy) = post_all_counts ip (env.rate_time / 3600) attempts db h a in
      (
        handle_quick-judged ip env req tried healthy from
            ∙ rw (count, quick_rate_hit_lem ip env.rate_time tried healthy)
                (settled env req (hits_in ip (env.rate_time / 3600) db + length attempts)
                  (counted ip (env.rate_time / 3600) tried)),
        (quick_rate_hit-frame tried.tables.tenants ip env.rate_time).holds tried refl,
      )
