-- ===== src/Oauth/Rate.antt =====
-- internal/oauth/register.go: the counters of requests by IP address, in windows of one hour.
use mcptunnels.Prelude.{
  ℕ, ◌+◌, ◌≤◌, Str, Bool, true, false, not, Option, none, some, Bool-cases, List, [], ◌∷◌, ◌≡◌, inl,
  inr, refl, arith, find, keep, count, All, find-keep, if◌then◌else◌, ◌==◌, eq_iff, eq_refl, leb,
  ltb,
}

pub record Hits : Type 0 where
  pub ip : Str
  pub number : ℕ

pub record IpRate : Type 0 where
  pub hits : List Hits
  pub reset : ℕ

abbrev pub is_ip : Str → Hits → Bool
is_ip ip h = h.ip == ip

abbrev number_of : Option Hits → ℕ
number_of none = 0
number_of (some h) = h.number

-- r.hits[ip], which is 0 where the map has no entry
unfoldable pub hits_of : Str → List Hits → ℕ
unfolding find
hits_of ip hs = number_of (find (is_ip ip) hs)

-- r.hits[ip]++
unfoldable pub hit : Str → List Hits → List Hits
unfolding hits_of keep
hit ip hs = record { ip = ip; number = hits_of ip hs + 1 } ∷ keep (λ h. not (is_ip ip h)) hs

-- The window of one hour has passed: the map is made anew.
abbrev pub renew : ℕ → IpRate → IpRate
renew now r = if ltb r.reset now then record { hits = []; reset = now + 3600 } else r

unfoldable pub allow : Str → ℕ → ℕ → IpRate → Bool × IpRate
unfolding hit
allow ip limit now r =
    let r' = renew now r in
    let hits' = hit ip r'.hits in (leb (hits_of ip hits') limit, record r' { hits = hits' })

-- The requests that came before: who asked, and when.
pub record Request : Type 0 where
  pub from : Str
  pub at : ℕ

unfoldable pub allow_all : ℕ → List Request → IpRate → IpRate
unfolding allow
allow_all limit [] r = r
allow_all limit (q ∷ qs) r = allow_all limit qs (allow q.from limit q.at r).1

abbrev pub came_from : Str → Request → Bool
came_from ip q = q.from == ip

abbrev pub InWindow : ℕ → Request → Type 0
InWindow reset q = q.at ≤ reset

hits_of-hit_self : (ip : Str) (hs : List Hits) → hits_of ip (hit ip hs) ≡ hits_of ip hs + 1
unfolding hits_of hit find
hits_of-hit_self ip hs = ground (arith, eq_refl ip)

other_ip :
    (ip ip' : Str) → (ip' == ip) ≡ false → (h : Hits) → is_ip ip h ≡ true → not (is_ip ip' h) ≡ true
other_ip ip ip' ne h e = ground (arith, eq_iff h.ip ip, eq_iff h.ip ip', eq_refl ip, eq_iff ip' ip)

hits_of-hit_ne :
    (ip ip' : Str) (hs : List Hits) → (ip' == ip) ≡ false → hits_of ip (hit ip' hs) ≡ hits_of ip hs
unfolding hits_of hit find
hits_of-hit_ne ip ip' hs ne =
    ground (arith, ne, find-keep (is_ip ip) (λ h. not (is_ip ip' h)) (other_ip ip ip' ne) hs)

hits_of-hit :
    (ip ip' : Str) (hs : List Hits)
    → hits_of ip (hit ip' hs) ≡ (if ip' == ip then 1 else 0) + hits_of ip hs
hits_of-hit ip ip' hs = elim (Bool-cases (ip' == ip)) [
  | inl b ↦ ground (arith, b, (eq_iff ip' ip).0 b, hits_of-hit_self ip hs)
  | inr b ↦ ground (arith, b, hits_of-hit_ne ip ip' hs b)
]

-- Requests within the window add up, by address, and leave the window as it is.
hits_of-allow_all :
    (ip : Str) (limit : ℕ) (qs : List Request) (r : IpRate)
    → All (InWindow r.reset) qs
    → (hits_of ip (allow_all limit qs r).hits ≡ count (came_from ip) qs + hits_of ip r.hits)
      × ((allow_all limit qs r).reset ≡ r.reset)
unfolding allow_all allow count
hits_of-allow_all ip limit [] r h = (ground arith, refl)
hits_of-allow_all ip limit (q ∷ qs) r h =
    let one = (allow q.from limit q.at r).1 in
    let same : one ≡ record r { hits = hit q.from r.hits } = ground (arith, h.0) in
    let (n, reset) = hits_of-allow_all ip limit qs (record r { hits = hit q.from r.hits }) h.1 in
    let sum = hits_of-hit ip q.from r.hits in
    (ground (arith, same, n, sum), ground (arith, same, reset))

-- Within one window of an hour, a request is allowed exactly when the requests of its own address,
-- those counted at the start and those that came since, are fewer than the limit; the requests of
-- other addresses, and requests that were refused, make no difference to that.
pub allow-allow_all :
    (ip : Str) (limit now : ℕ) (qs : List Request) (r : IpRate)
    → All (InWindow r.reset) qs
    → now ≤ r.reset
    → (allow ip limit now (allow_all limit qs r)).0
      ≡ ltb (hits_of ip r.hits + count (came_from ip) qs) limit
unfolding allow
allow-allow_all ip limit now qs r h t =
    let after = allow_all limit qs r in
    let (n, reset) = hits_of-allow_all ip limit qs r h in
    ground (arith, n, reset, hits_of-hit_self ip after.hits)
