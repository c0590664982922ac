-- ===== src/Sqlite/Frames.antt =====
-- Methods that leave the table of tenants as it is, whatever the driver does.
use mcptunnels.Prelude.{ℕ, Str, Option, List, ◌∷◌, ◌≡◌, ◌≢◌, ◌⊎◌, refl, arith}
use mcptunnels.Sql.{TenantRow, Statement, Row}
use mcptunnels.Sql.Run.{run}
use mcptunnels.Act.{Result, ok, lift}
use mcptunnels.Act.Keeps.{Keeps, pure-Keeps, lift-Keeps, bind-Keeps}
use mcptunnels.Driver.{Db, exec}
use mcptunnels.Store.{Service, Bcrypt}
use mcptunnels.Sqlite.{
  insert_unique, query_row, get_tenant, quick_rate_hit, create_service, create_signing_key,
  count_live_tenants, new_agent_key, create_tenant_expiry,
}

module _ (ts : List TenantRow) where
  abbrev pub HasTenants : Db → Type 0
  HasTenants db = db.tables.tenants ≡ ts

  exec-frame :
      (st : Statement)
      → ((db : Db) → (run st db.tables).1.tenants ≡ db.tables.tenants)
      → Keeps HasTenants (exec st)
  unfolding exec
  exec-frame st h = record { holds = λ db v. ground (arith, h db) }

  query_row-frame :
      {A : Type 0} (st : Statement) (scan : Row → Result A)
      → ((db : Db) → (run st db.tables).1.tenants ≡ db.tables.tenants)
      → Keeps HasTenants (query_row st scan)
  unfolding query_row
  query_row-frame st scan h = bind-Keeps (exec st) _ (exec-frame st h) (λ a. lift-Keeps _)

  pub quick_rate_hit-frame : (ip : Str) (now : ℕ) → Keeps HasTenants (quick_rate_hit ip now)
  unfolding quick_rate_hit run
  quick_rate_hit-frame ip now = bind-Keeps (exec _) _ (exec-frame _ (λ db. refl)) λ a.
      bind-Keeps (exec _) _ (exec-frame _ (λ db. ground arith))
        λ b. query_row-frame _ _ (λ db. refl)

  pub count_live_tenants-frame : (now : ℕ) → Keeps HasTenants (count_live_tenants now)
  unfolding count_live_tenants run
  count_live_tenants-frame now = query_row-frame _ _ (λ db. refl)

  pub create_signing_key-frame :
      (slug pem : Str) (now : ℕ) → Keeps HasTenants (create_signing_key slug pem now)
  unfolding create_signing_key run
  create_signing_key-frame slug pem now =
      bind-Keeps (exec _) _ (exec-frame _ (λ db. ground arith)) (λ a. pure-Keeps _)

  insert_service-frame :
      (st : Statement)
      → ((db : Db) → (run st db.tables).1.tenants ≡ db.tables.tenants)
      → Keeps HasTenants (insert_unique st)
  unfolding insert_unique
  insert_service-frame st h = record {
    holds = λ db v. ground (arith, (exec-frame st h).holds db v);
  }

  pub create_service-frame :
      (bcrypt : Bcrypt) (random salt slug : Str) (svc : Service) (now : ℕ)
      → Keeps HasTenants (create_service bcrypt random salt slug svc now)
  unfolding create_service get_tenant run
  create_service-frame bcrypt random salt slug svc now =
      bind-Keeps (query_row _ _) _ (query_row-frame _ _ (λ db. refl)) λ t.
        bind-Keeps (lift (new_agent_key bcrypt random salt)) _ (lift-Keeps _) λ k.
          bind-Keeps (insert_unique _) _ (insert_service-frame _ (λ db. ground arith))
            λ u. pure-Keeps _

-- CreateTenantExpiry adds one tenant, exactly where it succeeds.
pub tenants-create :
    (slug name : Str) (exp : Option ℕ) (now : ℕ) (db : Db)
    → (((create_tenant_expiry slug name exp now db).0 ≡ ok tt)
        × ((create_tenant_expiry slug name exp now db).1.tables.tenants
            ≡ record { slug = slug; display_name = name; created_at = now; expires_at = exp }
              ∷ db.tables.tenants))
      ⊎ ((create_tenant_expiry slug name exp now db).1.tables.tenants ≡ db.tables.tenants)
        × ((create_tenant_expiry slug name exp now db).0 ≢ ok tt)
unfolding create_tenant_expiry exec run
tenants-create slug name exp now db = ground arith
