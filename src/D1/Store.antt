-- ===== src/D1/Store.antt =====
-- The methods of the D1 store, each a short sequence of requests.
use mcptunnels.Prelude.{
  ℕ, ◌-◌, ◌/◌, Str, lit, Bool, not, ◌||◌, Option, none, some, List, [], ◌∷◌, ◌++◌, map, is_empty,
  hex_encode, if◌then◌else◌, leb, nat_eq,
}
use mcptunnels.Sql.{
  Statement, insert_tenant, select_tenant, delete_tenant_row, select_expired, count_live,
  prune_rate, upsert_rate, select_rate, insert_service_if_tenant, select_service,
  insert_signing_key, select_signing_key, insert_client, select_client, insert_code, claim_code,
  select_code,
}
use mcptunnels.Act.{
  Act, Result, ok, err, Error, not_found, already_exists, invalid_agent_key, remote, hashing, pure,
  raise, lift, ◌>>=◌, ◌>>◌,
}
use mcptunnels.Store.{Tenant, Service, Grant, Bcrypt, Api}
use mcptunnels.D1.Wire.{
  Endpoint, JsonRow, StmtResult, Answer, refused, answered, is_unique_violation, query, lookup,
  str_col, TextNumbers, time_col, opt_time, int_col,
}

-- fmt.Errorf("d1: ...: %w", err)
abbrev wrapped {ℓ} : {A : Type ℓ} → Answer A → Result A
wrapped (refused e) = err remote
wrapped (answered a) = ok a

-- The same, with a UNIQUE violation reported as ErrExists.
abbrev wrapped_unique {ℓ} : {A : Type ℓ} → Answer A → Result A
wrapped_unique (refused e) = if is_unique_violation e then err already_exists else err remote
wrapped_unique (answered a) = ok a

-- res[0]; `query` answers one result for each statement.
abbrev head_result : List StmtResult → Result StmtResult
head_result [] = err remote
head_result (r ∷ rs) = ok r

abbrev rows_first : List JsonRow → Result JsonRow
rows_first [] = err not_found
rows_first (row ∷ rows) = ok row

abbrev pub slugs_of : List JsonRow → Result (List Str)
slugs_of [] = ok []
slugs_of (row ∷ rows) = elim (str_col row "slug") [
  | err e ↦ err e
  | ok slug ↦ elim (slugs_of rows) [ err e ↦ err e | ok slugs ↦ ok (slug ∷ slugs) ]
]

module _ {S : Type 0} (send : Endpoint S) where
  unfoldable pub ask : List Statement → Act S (List StmtResult)
  ask sts s = let (a, s') = query send sts s in (wrapped a, s')

  unfoldable pub ask_unique : List Statement → Act S (List StmtResult)
  ask_unique sts s = let (a, s') = query send sts s in (wrapped_unique a, s')

  unfoldable pub ask_one : Statement → Act S StmtResult
  unfolding ask
  ask_one st = do res ← ask (st ∷ []); lift (head_result res)

  unfoldable pub create_tenant_expiry : Str → Str → Option ℕ → ℕ → Act S (Unit {0})
  unfolding ask_unique
  create_tenant_expiry slug name exp now = do
    ask_unique (insert_tenant slug name now exp ∷ [])
    pure tt

  unfoldable pub create_tenant : Str → Str → ℕ → Act S (Unit {0})
  unfolding create_tenant_expiry
  create_tenant slug name now = create_tenant_expiry slug name none now

  unfoldable pub delete_tenant : Str → Act S Bool
  unfolding ask_one
  delete_tenant slug = do res ← ask_one (delete_tenant_row slug); pure (leb 1 res.rows_written)

  abbrev swept : List Str → Result (List StmtResult) → List Str × Option Error
  swept slugs (ok rs) = (slugs, none)
  swept slugs (err e) = (slugs, some e)

  abbrev sweep : Result (List Str) → S → (List Str × Option Error) × S
  sweep (err e) s = (([], some e), s)
  sweep (ok []) s = (([], none), s)
  sweep (ok (slug ∷ slugs)) s =
      let (r, s') = ask (map delete_tenant_row (slug ∷ slugs)) s in (swept (slug ∷ slugs) r, s')

  unfoldable pub delete_expired_tenants : ℕ → S → (List Str × Option Error) × S
  unfolding ask_one ask
  delete_expired_tenants now s =
      let (r, s') = (do res ← ask_one (select_expired now); lift (slugs_of res.results)) s in
      sweep r s'

  unfoldable pub create_signing_key : Str → Str → ℕ → Act S (Unit {0})
  unfolding ask
  create_signing_key slug pem now = do ask (insert_signing_key slug pem now ∷ []); pure tt

  unfoldable pub get_signing_key : Str → Act S Str
  unfolding ask_one
  get_signing_key slug = do
    res ← ask_one (select_signing_key slug)
    row ← lift (rows_first res.results)
    lift (str_col row "private_key_pem")

  unfoldable pub create_client : Str → Str → Str → ℕ → Act S (Unit {0})
  unfolding ask_unique
  create_client slug id uris now = do ask_unique (insert_client slug id uris now ∷ []); pure tt

  unfoldable pub get_client : Str → Str → Act S Str
  unfolding ask_one
  get_client slug id = do
    res ← ask_one (select_client slug id)
    row ← lift (rows_first res.results)
    lift (str_col row "redirect_uris")

  unfoldable pub create_auth_code : Str → Str → Str → Str → Str → ℕ → Act S (Unit {0})
  unfolding ask
  create_auth_code hash slug id uri challenge expires = do
    ask (insert_code hash slug id uri challenge expires ∷ [])
    pure tt

  abbrev single_row : List JsonRow → Result JsonRow
  single_row (row ∷ []) = ok row
  single_row rows = err remote

  unfoldable pub read_grant : JsonRow → Act S Grant
  read_grant row = do
    slug ← lift (str_col row "tenant_slug")
    id ← lift (str_col row "client_id")
    uri ← lift (str_col row "redirect_uri")
    challenge ← lift (str_col row "code_challenge")
    pure (record {
      tenant_slug = slug;
      client_id = id;
      redirect_uri = uri;
      code_challenge = challenge;
    })

  unfoldable pub consume_auth_code : Str → ℕ → Act S Grant
  unfolding ask_one read_grant
  consume_auth_code hash now = do
    claim ← ask_one (claim_code now hash)
    if nat_eq claim.rows_written 0 then raise not_found else do
      res ← ask_one (select_code hash)
      row ← lift (single_row res.results)
      read_grant row

-- The methods that read numbers and times.
module _ {S : Type 0} (send : Endpoint S) (numbers : TextNumbers) where
  unfoldable pub get_tenant : Str → Act S Tenant
  unfolding ask_one
  get_tenant slug = do
    res ← ask_one send (select_tenant slug)
    row ← lift (rows_first res.results)
    s ← lift (str_col row "slug")
    d ← lift (str_col row "display_name")
    c ← lift (time_col numbers (lookup "created_at" row))
    e ← lift (opt_time numbers (lookup "expires_at" row))
    pure (record { slug = s; display_name = d; created_at = c; expires_at = e })

  abbrev count_of : List JsonRow → Result ℕ
  count_of [] = ok 0
  count_of (row ∷ rows) = int_col numbers row "n"

  unfoldable pub count_live_tenants : ℕ → Act S ℕ
  unfolding ask_one
  count_live_tenants now = do res ← ask_one send (count_live now); lift (count_of res.results)

  -- res[2].Results[0]; a missing row is an error of its own.
  abbrev third_rows : List StmtResult → Result ℕ
  third_rows (a ∷ b ∷ c ∷ rest) = elim c.results [
    | [] ↦ err remote
    | row ∷ rows ↦ int_col numbers row "count"
  ]
  third_rows rs = err remote

  unfoldable pub quick_rate_hit : Str → ℕ → Act S ℕ
  unfolding ask
  quick_rate_hit ip now = do
    let window = now / 3600
    res ← ask send (prune_rate (window - 2) ∷ upsert_rate ip window ∷ select_rate ip window ∷ [])
    lift (third_rows res)

  unfoldable pub get_service : Str → Str → Act S Service
  unfolding ask_one
  get_service slug name = do
    res ← ask_one send (select_service slug name)
    row ← lift (rows_first res.results)
    n ← lift (str_col row "name")
    k ← lift (str_col row "agent_key_hash")
    m ← lift (str_col row "auth_mode")
    p ← lift (str_col row "password_hash")
    c ← lift (time_col numbers (lookup "created_at" row))
    pure (record { name = n; agent_key_hash = k; auth_mode = m; password_hash = p; created_at = c })

  module _ (bcrypt : Bcrypt) where
    abbrev hashed : Str → Option Str → Result (Str × Str)
    hashed plain none = err hashing
    hashed plain (some hash) = ok (plain, hash)

    -- newAgentKey: the prefix ends in an underscore, and another one is put behind it.
    unfoldable pub new_agent_key : Str → Str → Result (Str × Str)
    new_agent_key random salt =
        let plain = lit "tun_agent_" ++ (lit "_" ++ hex_encode random) in
        hashed plain (bcrypt.generate salt plain)

    unfoldable pub create_service : Str → Str → Str → Service → ℕ → Act S Str
    unfolding new_agent_key ask_unique
    create_service random salt slug svc now = do
      key ← lift (new_agent_key random salt)
      res ← ask_unique send (
          insert_service_if_tenant
            (record {
              tenant_slug = slug;
              name = svc.name;
              agent_key_hash = key.1;
              created_at = now;
              auth_mode = if is_empty svc.auth_mode then lit "oauth" else svc.auth_mode;
              password_hash = svc.password_hash;
            })
            slug
          ∷ [])
      r ← lift (head_result res)
      if nat_eq r.rows_written 0 then raise not_found else pure key.0

    unfoldable pub validate_password : Str → Str → Str → Act S Bool
    unfolding get_service
    validate_password slug name password = do
      svc ← get_service slug name
      pure (is_empty svc.password_hash || bcrypt.compare_hash svc.password_hash password)

    unfoldable pub validate_agent_key : Str → Str → Str → Act S Service
    unfolding get_service
    validate_agent_key slug name key = do
      svc ← get_service slug name
      if is_empty key || not (bcrypt.compare_hash svc.agent_key_hash key)
          then raise invalid_agent_key
          else pure svc

    abbrev pub d1_api : Api S
    d1_api = record {
      create_tenant = create_tenant send;
      create_tenant_expiry = create_tenant_expiry send;
      get_tenant = get_tenant;
      delete_tenant = delete_tenant send;
      delete_expired_tenants = delete_expired_tenants send;
      count_live_tenants = count_live_tenants;
      quick_rate_hit = quick_rate_hit;
      create_service = create_service;
      get_service = get_service;
      validate_password = validate_password;
      validate_agent_key = validate_agent_key;
      create_signing_key = create_signing_key send;
      get_signing_key = get_signing_key send;
      create_client = create_client send;
      get_client = get_client send;
      create_auth_code = create_auth_code send;
      consume_auth_code = consume_auth_code send;
    }
