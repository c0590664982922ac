-- ===== src/Sqlite.antt =====
-- internal/store/store.go: the methods of the SQLite store over the driver of Driver.antt.
pub mod Queries
pub mod Frames
pub mod Safety
pub mod Tenants
pub mod Sweep
pub mod Codes
pub mod Rates
pub mod Services
use mcptunnels.Prelude.{
  ℕ, ◌-◌, ◌/◌, Str, lit, Bool, ◌||◌, not, Option, none, some, List, [], ◌∷◌, ◌++◌, is_empty,
  hex_encode, if◌then◌else◌, nat_eq,
}
use mcptunnels.Sql.{
  Row, Statement, insert_tenant, select_tenant, delete_tenant_row, select_expired, count_live,
  prune_rate, upsert_rate, select_rate, insert_service, select_service, insert_signing_key,
  select_signing_key, insert_client, select_client, insert_code, claim_code, select_code,
}
use mcptunnels.Act.{
  Act, Result, ok, err, Error, not_found, invalid_agent_key, hashing, pure, raise, lift, ◌>>=◌,
  ◌>>◌,
}
use mcptunnels.Driver.{
  Db, exec, unique_exists, first_row, scan_tenant, scan_service, scan_grant, scan_text, scan_int,
}
use mcptunnels.Store.{Tenant, Service, Grant, Bcrypt, Api}

-- An INSERT whose UNIQUE violation is reported as ErrExists.
unfoldable pub insert_unique : Statement → Act Db (Unit {0})
insert_unique st db = let (r, db') = exec st db in (do lift (unique_exists r); pure tt) db'

-- QueryRow(...).Scan(...)
unfoldable pub query_row : {A : Type 0} → Statement → (Row → Result A) → Act Db A
query_row st scan = do answer ← exec st; lift (first_row scan answer.0)

unfoldable pub create_tenant_expiry : Str → Str → Option ℕ → ℕ → Act Db (Unit {0})
unfolding insert_unique
create_tenant_expiry slug name exp now = insert_unique (insert_tenant slug name now exp)

unfoldable pub create_tenant : Str → Str → ℕ → Act Db (Unit {0})
unfolding create_tenant_expiry
create_tenant slug name now = create_tenant_expiry slug name none now

unfoldable pub get_tenant : Str → Act Db Tenant
unfolding query_row
get_tenant slug = query_row (select_tenant slug) scan_tenant

unfoldable pub delete_tenant : Str → Act Db Bool
delete_tenant slug = do answer ← exec (delete_tenant_row slug); pure (nat_eq answer.1 1)

abbrev pub scan_slugs : List Row → Result (List Str)
scan_slugs [] = ok []
scan_slugs (row ∷ rows) = elim (scan_text row) [
  | err e ↦ err e
  | ok slug ↦ elim (scan_slugs rows) [ err e ↦ err e | ok slugs ↦ ok (slug ∷ slugs) ]
]

-- The loop of DeleteExpiredTenants stops at its first failure.
unfoldable pub delete_each : List Str → Act Db (Unit {0})
unfolding delete_tenant
delete_each [] = pure tt
delete_each (slug ∷ slugs) = do delete_tenant slug; delete_each slugs

abbrev pub swept : List Str → Result (Unit {0}) → List Str × Option Error
swept slugs (ok u) = (slugs, none)
swept slugs (err e) = (slugs, some e)

abbrev pub sweep : Result (List Str) → Db → (List Str × Option Error) × Db
sweep (err e) db = (([], some e), db)
sweep (ok slugs) db = let (r, db') = delete_each slugs db in (swept slugs r, db')

unfoldable pub delete_expired_tenants : ℕ → Db → (List Str × Option Error) × Db
unfolding delete_each
delete_expired_tenants now db =
    let (r, db') = (do answer ← exec (select_expired now); lift (scan_slugs answer.0)) db in
    sweep r db'

unfoldable pub count_live_tenants : ℕ → Act Db ℕ
unfolding query_row
count_live_tenants now = query_row (count_live now) scan_int

-- The oldest window that is kept is `window - 2`. Windows are not negative, so the subtraction that
-- stops at 0 prunes the same rows.
unfoldable pub quick_rate_hit : Str → ℕ → Act Db ℕ
unfolding query_row
quick_rate_hit ip now = do
  let window = now / 3600
  exec (prune_rate (window - 2))
  exec (upsert_rate ip window)
  query_row (select_rate ip window) scan_int

abbrev pub agent_key_prefix : Str
agent_key_prefix = lit "tun_agent"

unfoldable pub create_signing_key : Str → Str → ℕ → Act Db (Unit {0})
create_signing_key slug pem now = do exec (insert_signing_key slug pem now); pure tt

unfoldable pub get_signing_key : Str → Act Db Str
unfolding query_row
get_signing_key slug = query_row (select_signing_key slug) scan_text

unfoldable pub create_client : Str → Str → Str → ℕ → Act Db (Unit {0})
unfolding insert_unique
create_client slug id uris now = insert_unique (insert_client slug id uris now)

unfoldable pub get_client : Str → Str → Act Db Str
unfolding query_row
get_client slug id = query_row (select_client slug id) scan_text

unfoldable pub create_auth_code : Str → Str → Str → Str → Str → ℕ → Act Db (Unit {0})
create_auth_code hash slug id uri challenge expires = do
  exec (insert_code hash slug id uri challenge expires)
  pure tt

unfoldable pub consume_auth_code : Str → ℕ → Act Db Grant
unfolding query_row
consume_auth_code hash now = do
  claim ← exec (claim_code now hash)
  if nat_eq claim.1 0 then raise not_found else query_row (select_code hash) scan_grant

unfoldable pub get_service : Str → Str → Act Db Service
unfolding query_row
get_service slug name = query_row (select_service slug name) scan_service

abbrev pub or_oauth : Str → Str
or_oauth mode = if is_empty mode then lit "oauth" else mode

-- The key that newAgentKey makes of its random bytes.
abbrev pub agent_key_of : Str → Str
agent_key_of random = agent_key_prefix ++ (lit "_" ++ hex_encode random)

module _ (bcrypt : Bcrypt) where
  -- HashSecret and CheckSecret
  unfoldable pub hash_secret : Str → Str → Result Str
  hash_secret salt plain = elim (bcrypt.generate salt plain) [ none ↦ err hashing | some h ↦ ok h ]

  unfoldable pub check_secret : Str → Str → Bool
  check_secret hash plain = bcrypt.compare_hash hash plain

  -- newAgentKey, with the 24 random bytes and the salt that it draws.
  unfoldable pub new_agent_key : Str → Str → Result (Str × Str)
  unfolding hash_secret
  new_agent_key random salt =
      let plain = agent_key_of random in
      elim (hash_secret salt plain) [ err e ↦ err e | ok hash ↦ ok (plain, hash) ]

  unfoldable pub create_service : Str → Str → Str → Service → ℕ → Act Db Str
  unfolding get_tenant new_agent_key insert_unique
  create_service random salt slug svc now = do
    get_tenant slug
    key ← lift (new_agent_key random salt)
    insert_unique (
        insert_service (record {
          tenant_slug = slug;
          name = svc.name;
          agent_key_hash = key.1;
          created_at = now;
          auth_mode = or_oauth svc.auth_mode;
          password_hash = svc.password_hash;
        }))
    pure key.0

  unfoldable pub validate_password : Str → Str → Str → Act Db Bool
  unfolding get_service check_secret
  validate_password slug name password = do
    svc ← get_service slug name
    pure (is_empty svc.password_hash || check_secret svc.password_hash password)

  unfoldable pub validate_agent_key : Str → Str → Str → Act Db Service
  unfolding get_service check_secret
  validate_agent_key slug name key = do
    svc ← get_service slug name
    if is_empty key || not (check_secret svc.agent_key_hash key)
        then raise invalid_agent_key
        else pure svc

  abbrev pub sqlite_api : Api Db
  sqlite_api = record {
    create_tenant = create_tenant;
    create_tenant_expiry = create_tenant_expiry;
    get_tenant = get_tenant;
    delete_tenant = delete_tenant;
    delete_expired_tenants = delete_expired_tenants;
    count_live_tenants = count_live_tenants;
    quick_rate_hit = quick_rate_hit;
    create_service = create_service;
    get_service = get_service;
    validate_password = validate_password;
    validate_agent_key = validate_agent_key;
    create_signing_key = create_signing_key;
    get_signing_key = get_signing_key;
    create_client = create_client;
    get_client = get_client;
    create_auth_code = create_auth_code;
    consume_auth_code = consume_auth_code;
  }
