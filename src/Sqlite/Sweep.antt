-- ===== src/Sqlite/Sweep.antt =====
-- The janitor's DeleteExpiredTenants: which tenants it deletes, and what it leaves.
use mcptunnels.Prelude.{
  ℕ, Str, Bool, true, false, not, ◌&&◌, ◌||◌, ap, none, List, [], ◌∷◌, map, ◌≡◌, refl, ◌∙◌, sym,
  arith, find, keep, count, any, inl, inr, if◌then◌else◌, ◌==◌, eq_iff, find-keep, find-keep-none,
  Bool-cases,
}
use mcptunnels.Sql.{Tables, TenantRow}
use mcptunnels.Sql.Run.{run, cascade, is_tenant, is_service, is_live, is_expired, slug_columns}
use mcptunnels.Sql.Rows.{HasDistinct}
use mcptunnels.Sql.Integrity.{IsSound}
use mcptunnels.Act.{ok, err, not_found, after}
use mcptunnels.Driver.{Db, exec}
use mcptunnels.Sqlite.{
  get_tenant, delete_each, delete_expired_tenants, scan_slugs, get_service, count_live_tenants,
}
use mcptunnels.Sqlite.Queries.{IsHealthy, get_tenant_lem, get_service_lem, count_live_tenants_lem}

abbrev pub names : List TenantRow → List Str
names = map (λ r. r.slug)

abbrev pub listed : List Str → Str → Bool
listed slugs s = any (λ x. s == x) slugs

unfoldable pub cascade_all : List Str → Tables → Tables
cascade_all [] t = t
cascade_all (s ∷ ss) t = cascade_all ss (cascade s t)

delete_each_lem :
    (slugs : List Str) (db : Db)
    → IsHealthy db
    → delete_each slugs db ≡ (ok tt, record db { tables = cascade_all slugs db.tables })
unfolding delete_each exec run cascade_all
delete_each_lem [] db h = refl
delete_each_lem (s ∷ ss) db h =
    ground (arith, delete_each_lem ss (record db { tables = cascade s db.tables }) h)

scan_slugs-columns : (ts : List TenantRow) → scan_slugs (map slug_columns ts) ≡ ok (names ts)
scan_slugs-columns [] = refl
scan_slugs-columns (t ∷ ts) = ground (arith, scan_slugs-columns ts)

abbrev pub expired_names : ℕ → Db → List Str
expired_names now db = names (keep (is_expired now) db.tables.tenants)

pub delete_expired_lem :
    (now : ℕ) (db : Db)
    → IsHealthy db
    → delete_expired_tenants now db ≡ (
      (expired_names now db, none),
      record db { tables = cascade_all (expired_names now db) db.tables },
    )
unfolding delete_expired_tenants exec run
delete_expired_lem now db h = ground (
  arith,
  scan_slugs-columns (keep (is_expired now) db.tables.tenants),
  delete_each_lem (expired_names now db) db h,
)

module _ {ℓ} {A : Type ℓ} where
  keep-keep : (p q : A → Bool) (xs : List A) → keep p (keep q xs) ≡ keep (λ x. q x && p x) xs
  unfolding keep
  keep-keep p q [] = refl
  keep-keep p q (x ∷ xs) = ground (arith, keep-keep p q xs)

  keep-ext : (p q : A → Bool) → ((x : A) → p x ≡ q x) → (xs : List A) → keep p xs ≡ keep q xs
  unfolding keep
  keep-ext p q h [] = refl
  keep-ext p q h (x ∷ xs) = ground (arith, h x, keep-ext p q h xs)

  count-keep :
      (p q : A → Bool)
      → ((x : A) → p x ≡ true → q x ≡ true)
      → (xs : List A) → count p (keep q xs) ≡ count p xs
  unfolding keep count
  count-keep p q h [] = refl
  count-keep p q h (x ∷ xs) = ground (arith, h x, count-keep p q h xs)

  -- Filtering by one more key at a time is filtering by the list of keys.
  keep_unlisted :
      (key : A → Str) (s : Str) (ss : List Str) (xs : List A)
      → keep (λ r. not (listed ss (key r))) (keep (λ r. not (key r == s)) xs)
        ≡ keep (λ r. not (listed (s ∷ ss) (key r))) xs
  unfolding any
  keep_unlisted key s ss xs =
      keep-keep (λ r. not (listed ss (key r))) (λ r. not (key r == s)) xs
      ∙ keep-ext _ _ (λ r. ground arith) xs

  keep_all : (key : A → Str) (xs : List A) → keep (λ r. not (listed [] (key r))) xs ≡ xs
  unfolding keep any
  keep_all key [] = refl
  keep_all key (x ∷ xs) = ground (arith, keep_all key xs)

  -- A search by a key finds nothing where the key is listed, and is not disturbed where it is not.
  find-unlisted :
      (key : A → Str) (ss : List Str) (p : A → Bool) (k : Str)
      → ((x : A) → p x ≡ true → key x ≡ k)
      → (xs : List A)
      → find p (keep (λ r. not (listed ss (key r))) xs) ≡ (if listed ss k then none else find p xs)
  find-unlisted key ss p k h xs = elim (Bool-cases (listed ss k)) [
    | inl e ↦ rw e (find-keep-none p _ (λ x px. rw h (rw e)) xs)
    | inr e ↦ rw e (find-keep p _ (λ x px. rw h (rw e)) xs)
  ]

tenants-cascade_all :
    (ss : List Str) (t : Tables)
    → (cascade_all ss t).tenants ≡ keep (λ r. not (listed ss r.slug)) t.tenants
unfolding cascade_all cascade
tenants-cascade_all [] t = sym (keep_all (λ r. r.slug) t.tenants)
tenants-cascade_all (s ∷ ss) t =
    tenants-cascade_all ss (cascade s t) ∙ keep_unlisted (λ r. r.slug) s ss t.tenants

services-cascade_all :
    (ss : List Str) (t : Tables)
    → (cascade_all ss t).services ≡ keep (λ r. not (listed ss r.tenant_slug)) t.services
unfolding cascade_all cascade
services-cascade_all [] t = sym (keep_all (λ r. r.tenant_slug) t.services)
services-cascade_all (s ∷ ss) t =
    services-cascade_all ss (cascade s t) ∙ keep_unlisted (λ r. r.tenant_slug) s ss t.services

not-listed-names :
    (a : Str) (e : TenantRow → Bool) (ts : List TenantRow)
    → any (is_tenant a) ts ≡ false
    → listed (names (keep e ts)) a ≡ false
unfolding any keep
not-listed-names a e [] h = refl
not-listed-names a e (t ∷ ts) h =
    ground (arith, eq_iff a t.slug, eq_iff t.slug a, not-listed-names a e ts)

keep_other :
    (a : Str) (g : Str → Bool) (ts : List TenantRow)
    → any (is_tenant a) ts ≡ false
    → keep (λ r. not (r.slug == a || g r.slug)) ts ≡ keep (λ r. not (g r.slug)) ts
unfolding any keep
keep_other a g [] h = refl
keep_other a g (t ∷ ts) h = ground (arith, keep_other a g ts)

-- With distinct slugs, deleting by the slugs of the rows that pass a test deletes just those rows.
keep-names :
    (e : TenantRow → Bool) (ts : List TenantRow)
    → HasDistinct (λ r. is_tenant r.slug) ts
    → keep (λ r. not (listed (names (keep e ts)) r.slug)) ts ≡ keep (λ r. not (e r)) ts
unfolding keep any
keep-names e [] d = refl
keep-names e (t ∷ ts) d = ground (
  arith,
  eq_iff t.slug t.slug,
  not-listed-names t.slug e ts,
  keep_other t.slug (listed (names (keep e ts))) ts,
  keep-names e ts d.1,
)

abbrev swept_db : ℕ → Db → Db
swept_db now db = record db { tables = cascade_all (expired_names now db) db.tables }

-- With no driver failure and tables that meet the schema's constraints, DeleteExpiredTenants returns
-- the slugs of the tenants whose expiry is at or before `now` and no error; the tenants that remain
-- are just the others, and CountLiveTenants at `now` answers as before.
pub tenants-delete_expired :
    (now : ℕ) (db : Db)
    → IsHealthy db
    → IsSound db.tables
    → let after = (delete_expired_tenants now db).1 in
      ((delete_expired_tenants now db).0 ≡ (names (keep (is_expired now) db.tables.tenants), none))
      × (after.tables.tenants ≡ keep (λ r. not (is_expired now r)) db.tables.tenants)
      × ((count_live_tenants now after).0 ≡ (count_live_tenants now db).0)
tenants-delete_expired now db h v =
    let remaining =
      tenants-cascade_all (expired_names now db) db.tables
      ∙ keep-names (is_expired now) db.tables.tenants v.tenant_keys in
    rw (delete_expired_lem now db h) (
      rw (count_live_tenants_lem (swept_db now db) h now, count_live_tenants_lem db h now)
        (
          refl,
          remaining,
          rw remaining (
              ap ok (
                count-keep (is_live now) (λ r. not (is_expired now r)) (λ r p. ground arith)
                  db.tables.tenants)),
        ))

-- With no driver failure, after DeleteExpiredTenants every slug that it returned has no tenant and no
-- service left, and of every other slug GetTenant and GetService answer as before.
pub get-delete_expired :
    (now : ℕ) (slug name : Str) (db : Db)
    → IsHealthy db
    → let (swept, after) = delete_expired_tenants now db in
      ((get_tenant slug after).0
        ≡ (if listed swept.0 slug then err not_found else (get_tenant slug db).0))
      × ((get_service slug name after).0
          ≡ (if listed swept.0 slug then err not_found else (get_service slug name db).0))
get-delete_expired now slug name db h =
    let ss = expired_names now db in
    rw (delete_expired_lem now db h) (
      rw
        (
          get_tenant_lem (swept_db now db) h slug,
          get_service_lem (swept_db now db) h slug name,
          get_tenant_lem db h slug,
          get_service_lem db h slug name,
          tenants-cascade_all ss db.tables,
          services-cascade_all ss db.tables,
        )
        (
          rw
              (find-unlisted (λ r. r.slug) ss (is_tenant slug) slug
                (λ r p. (eq_iff r.slug slug).0 p) db.tables.tenants)
              (ground arith),
          rw
              (find-unlisted (λ r. r.tenant_slug) ss (is_service slug name) slug
                (λ r p. ground (arith, eq_iff r.tenant_slug slug)) db.tables.services)
              (ground arith),
        ))
