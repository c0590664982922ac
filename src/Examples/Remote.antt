-- ===== src/Examples/Remote.antt =====
-- The theorems on the D1 store at an endpoint that runs its statements on tables.
use mcptunnels.Prelude.{ℕ, Str, lit, true, false, none, ◌≡◌, refl, contains}
use mcptunnels.Sql
use mcptunnels.Sql.{Tables, SqlError, Statement}
use mcptunnels.Sql.Run.{run}
use mcptunnels.Act.{Act}
use mcptunnels.Driver.{Db}
use mcptunnels.Sqlite
use mcptunnels.D1.Wire.{Endpoint, TextNumbers}
use mcptunnels.D1.Conforms.{IsD1, encode, changes, Agrees, local}
use mcptunnels.D1.Store
use mcptunnels.D1.Refinement.{d1-Agrees}
use mcptunnels.Examples.{simple_bcrypt, acme, acme_tables, acme-IsSound}

abbrev message_of : SqlError → Str
message_of e = elim e [ Sql.unique_failed ↦ lit "UNIQUE constraint failed" | _ ↦ lit "failed" ]

abbrev written_by : Statement → Tables → ℕ
written_by st t = changes (run st t).0

-- Each statement runs on the tables themselves.
abbrev local_send : Endpoint Tables
local_send st t = (encode message_of (written_by st t) (run st t).0, (run st t).1)

message_law :
    (e : SqlError)
    → contains (lit "UNIQUE constraint") (message_of e)
      ≡ elim e [ Sql.unique_failed ↦ true | _ ↦ false ]
unfolding contains
message_law Sql.unique_failed = refl
message_law Sql.foreign_key_failed = refl
message_law Sql.io_failed = refl

local_send-IsD1 : IsD1 local_send (λ t. t)
local_send-IsD1 = record {
  message = message_of;
  written = written_by;
  state_law = λ st s. refl;
  reply_law = λ st s. refl;
  message_law = message_law;
  written_law = λ st t. refl;
}

abbrev no_numbers : TextNumbers
no_numbers = record { parse_rfc3339 = λ s. none; parse_int = λ s. none }

-- The agreement of two methods at the tables of the tenant.
abbrev AgreesHere : {A : Type 0} → Act Tables A → Act Db A → Type 0
AgreesHere m n = Agrees (λ t. t) m n acme_tables

d1-Agrees_example :
    AgreesHere
      (Store.create_tenant_expiry local_send acme (lit "n") none 20)
      (Sqlite.create_tenant_expiry acme (lit "n") none 20)
    × AgreesHere (Store.get_tenant local_send no_numbers acme) (Sqlite.get_tenant acme)
    × AgreesHere (Store.delete_tenant local_send acme) (Sqlite.delete_tenant acme)
    × AgreesHere (Store.count_live_tenants local_send no_numbers 20) (Sqlite.count_live_tenants 20)
    × AgreesHere
        (Store.quick_rate_hit local_send no_numbers (lit "key") 20)
        (Sqlite.quick_rate_hit (lit "key") 20)
    × AgreesHere
        (Store.get_service local_send no_numbers acme (lit "n"))
        (Sqlite.get_service acme (lit "n"))
    × AgreesHere
        (Store.validate_password local_send no_numbers simple_bcrypt acme (lit "n") (lit "key"))
        (Sqlite.validate_password simple_bcrypt acme (lit "n") (lit "key"))
    × AgreesHere
        (Store.validate_agent_key local_send no_numbers simple_bcrypt acme (lit "n") (lit "key"))
        (Sqlite.validate_agent_key simple_bcrypt acme (lit "n") (lit "key"))
    × AgreesHere
        (Store.create_signing_key local_send acme (lit "key") 20)
        (Sqlite.create_signing_key acme (lit "key") 20)
    × AgreesHere (Store.get_signing_key local_send acme) (Sqlite.get_signing_key acme)
    × AgreesHere
        (Store.create_client local_send acme (lit "id") (lit "uri") 20)
        (Sqlite.create_client acme (lit "id") (lit "uri") 20)
    × AgreesHere (Store.get_client local_send acme (lit "id")) (Sqlite.get_client acme (lit "id"))
    × AgreesHere
        (Store.create_auth_code local_send (lit "key") acme (lit "id") (lit "uri") (lit "n") 20)
        (Sqlite.create_auth_code (lit "key") acme (lit "id") (lit "uri") (lit "n") 20)
    × AgreesHere
        (Store.consume_auth_code local_send (lit "key") 20)
        (Sqlite.consume_auth_code (lit "key") 20)
    × ((Store.delete_expired_tenants local_send 20 acme_tables).0
        ≡ (Sqlite.delete_expired_tenants 20 (local (λ t. t) acme_tables)).0)
    × ((Store.delete_expired_tenants local_send 20 acme_tables).1
        ≡ (Sqlite.delete_expired_tenants 20 (local (λ t. t) acme_tables)).1.tables)
d1-Agrees_example =
    d1-Agrees local_send (λ t. t) local_send-IsD1 no_numbers simple_bcrypt acme (lit "n") (lit "id")
      (lit "uri") (lit "key") none 20 acme_tables acme-IsSound
