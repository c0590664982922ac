-- ===== src/Sqlite/Safety.antt =====
-- Whatever is called, in whatever order and with whatever driver failures, the tables keep the
-- constraints of the schema.
use mcptunnels.Prelude.{ℕ, Str, Option, List, [], ◌∷◌, arith}
use mcptunnels.Sql.{Statement, Row}
use mcptunnels.Sql.Integrity.{IsSound, run-IsSound}
use mcptunnels.Act.{Result, ok, err, lift}
use mcptunnels.Act.Keeps.{Keeps, pure-Keeps, raise-Keeps, lift-Keeps, bind-Keeps, if-Keeps}
use mcptunnels.Driver.{Db, exec}
use mcptunnels.Store.{Service, Bcrypt}
use mcptunnels.Sqlite.{
  insert_unique, query_row, create_tenant_expiry, get_tenant, delete_tenant, delete_each,
  delete_expired_tenants, sweep, count_live_tenants, quick_rate_hit, create_service, get_service,
  validate_password, validate_agent_key, create_signing_key, get_signing_key, create_client,
  get_client, create_auth_code, consume_auth_code, new_agent_key,
}

abbrev pub HasSoundTables : Db → Type 0
HasSoundTables db = IsSound db.tables

exec-Sound : (st : Statement) → Keeps HasSoundTables (exec st)
unfolding exec
exec-Sound st = record { holds = λ db v. ground (arith, run-IsSound st db.tables v) }

insert_unique-Sound : (st : Statement) → Keeps HasSoundTables (insert_unique st)
unfolding insert_unique
insert_unique-Sound st = record { holds = λ db v. ground (arith, (exec-Sound st).holds db v) }

query_row-Sound :
    {A : Type 0} (st : Statement) (scan : Row → Result A) → Keeps HasSoundTables (query_row st scan)
unfolding query_row
query_row-Sound st scan = bind-Keeps (exec st) _ (exec-Sound st) (λ a. lift-Keeps _)

delete_tenant-Sound : (slug : Str) → Keeps HasSoundTables (delete_tenant slug)
unfolding delete_tenant
delete_tenant-Sound slug = bind-Keeps (exec _) _ (exec-Sound _) (λ a. pure-Keeps _)

delete_each-Sound : (slugs : List Str) → Keeps HasSoundTables (delete_each slugs)
unfolding delete_each
delete_each-Sound [] = pure-Keeps tt
delete_each-Sound (slug ∷ slugs) =
    bind-Keeps (delete_tenant slug) _ (delete_tenant-Sound slug) (λ a. delete_each-Sound slugs)

-- One call of a method of store.API, with what it reads from the clock and the randomness.
pub data Call : Type 0 where
  creates_tenant : Str → Str → Option ℕ → ℕ → Call
  reads_tenant : Str → Call
  deletes_tenant : Str → Call
  sweeps : ℕ → Call
  counts_live : ℕ → Call
  hits_rate : Str → ℕ → Call
  creates_service : Str → Str → Str → Service → ℕ → Call
  reads_service : Str → Str → Call
  checks_password : Str → Str → Str → Call
  checks_agent_key : Str → Str → Str → Call
  creates_signing_key : Str → Str → ℕ → Call
  reads_signing_key : Str → Call
  creates_client : Str → Str → Str → ℕ → Call
  reads_client : Str → Str → Call
  creates_auth_code : Str → Str → Str → Str → Str → ℕ → Call
  consumes_auth_code : Str → ℕ → Call

module _ (bcrypt : Bcrypt) where
  pub perform : Call → Db → Db
  perform (creates_tenant slug name exp now) db = (create_tenant_expiry slug name exp now db).1
  perform (reads_tenant slug) db = (get_tenant slug db).1
  perform (deletes_tenant slug) db = (delete_tenant slug db).1
  perform (sweeps now) db = (delete_expired_tenants now db).1
  perform (counts_live now) db = (count_live_tenants now db).1
  perform (hits_rate ip now) db = (quick_rate_hit ip now db).1
  perform (creates_service random salt slug svc now) db =
      (create_service bcrypt random salt slug svc now db).1
  perform (reads_service slug name) db = (get_service slug name db).1
  perform (checks_password slug name password) db =
      (validate_password bcrypt slug name password db).1
  perform (checks_agent_key slug name key) db = (validate_agent_key bcrypt slug name key db).1
  perform (creates_signing_key slug pem now) db = (create_signing_key slug pem now db).1
  perform (reads_signing_key slug) db = (get_signing_key slug db).1
  perform (creates_client slug id uris now) db = (create_client slug id uris now db).1
  perform (reads_client slug id) db = (get_client slug id db).1
  perform (creates_auth_code hash slug id uri challenge exp) db =
      (create_auth_code hash slug id uri challenge exp db).1
  perform (consumes_auth_code hash now) db = (consume_auth_code hash now db).1

  pub perform_all : List Call → Db → Db
  perform_all [] db = db
  perform_all (c ∷ cs) db = perform_all cs (perform c db)

  create_service-Sound :
      (random salt slug : Str) (svc : Service) (now : ℕ)
      → Keeps HasSoundTables (create_service bcrypt random salt slug svc now)
  unfolding create_service get_tenant
  create_service-Sound random salt slug svc now =
      bind-Keeps (query_row _ _) _ (query_row-Sound _ _) λ t.
        bind-Keeps (lift (new_agent_key bcrypt random salt)) _ (lift-Keeps _)
          λ k. bind-Keeps (insert_unique _) _ (insert_unique-Sound _) (λ u. pure-Keeps _)

  quick_rate_hit-Sound : (ip : Str) (now : ℕ) → Keeps HasSoundTables (quick_rate_hit ip now)
  unfolding quick_rate_hit
  quick_rate_hit-Sound ip now =
      bind-Keeps (exec _) _ (exec-Sound _)
        λ a. bind-Keeps (exec _) _ (exec-Sound _) (λ b. query_row-Sound _ _)

  consume-Sound : (hash : Str) (now : ℕ) → Keeps HasSoundTables (consume_auth_code hash now)
  unfolding consume_auth_code
  consume-Sound hash now =
      bind-Keeps (exec _) _ (exec-Sound _)
        λ claim. if-Keeps _ _ _ (raise-Keeps _) (query_row-Sound _ _)

  sweep-Sound :
      (r : Result (List Str)) (db : Db) → HasSoundTables db → HasSoundTables (sweep r db).1
  sweep-Sound (err e) db v = v
  sweep-Sound (ok slugs) db v = (delete_each-Sound slugs).holds db v

  perform-Sound : (c : Call) (db : Db) → HasSoundTables db → HasSoundTables (perform c db)
  unfolding perform create_tenant_expiry get_tenant delete_expired_tenants count_live_tenants
      get_service validate_password validate_agent_key create_signing_key get_signing_key
      create_client get_client create_auth_code
  perform-Sound (creates_tenant slug name exp now) db v = (insert_unique-Sound _).holds db v
  perform-Sound (reads_tenant slug) db v = (query_row-Sound _ _).holds db v
  perform-Sound (deletes_tenant slug) db v = (delete_tenant-Sound slug).holds db v
  perform-Sound (sweeps now) db v =
      sweep-Sound _ _ ((bind-Keeps (exec _) _ (exec-Sound _) (λ a. lift-Keeps _)).holds db v)
  perform-Sound (counts_live now) db v = (query_row-Sound _ _).holds db v
  perform-Sound (hits_rate ip now) db v = (quick_rate_hit-Sound ip now).holds db v
  perform-Sound (creates_service random salt slug svc now) db v =
      (create_service-Sound random salt slug svc now).holds db v
  perform-Sound (reads_service slug name) db v = (query_row-Sound _ _).holds db v
  perform-Sound (checks_password slug name password) db v =
      (bind-Keeps (query_row _ _) _ (query_row-Sound _ _) (λ s. pure-Keeps _)).holds db v
  perform-Sound (checks_agent_key slug name key) db v =
      (bind-Keeps (query_row _ _) _ (query_row-Sound _ _)
          (λ s. if-Keeps _ _ _ (raise-Keeps _) (pure-Keeps _))).holds
        db v
  perform-Sound (creates_signing_key slug pem now) db v =
      (bind-Keeps (exec _) _ (exec-Sound _) (λ a. pure-Keeps _)).holds db v
  perform-Sound (reads_signing_key slug) db v = (query_row-Sound _ _).holds db v
  perform-Sound (creates_client slug id uris now) db v = (insert_unique-Sound _).holds db v
  perform-Sound (reads_client slug id) db v = (query_row-Sound _ _).holds db v
  perform-Sound (creates_auth_code hash slug id uri challenge exp) db v =
      (bind-Keeps (exec _) _ (exec-Sound _) (λ a. pure-Keeps _)).holds db v
  perform-Sound (consumes_auth_code hash now) db v = (consume-Sound hash now).holds db v

  -- From tables that meet the schema's constraints (primary keys without duplicates, every service,
  -- signing key, client and code below a tenant that is there), any sequence of store calls, with any
  -- driver failures among their statements, leads to tables that meet them.
  pub perform_all-IsSound :
      (cs : List Call) (db : Db) → IsSound db.tables → IsSound (perform_all cs db).tables
  unfolding perform_all
  perform_all-IsSound [] db v = v
  perform_all-IsSound (c ∷ cs) db v = perform_all-IsSound cs (perform c db) (perform-Sound c db v)
