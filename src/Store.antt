-- ===== src/Store.antt =====
-- The types of internal/store/store.go and the contract of internal/store/api.go.
use mcptunnels.Prelude.{ℕ, Str, Bool, true, Option, some, List, ◌≡◌, is_empty, false}
use mcptunnels.Act.{Act, Error}

pub record Tenant : Type 0 where
  pub slug : Str
  pub display_name : Str
  pub created_at : ℕ
  pub expires_at : Option ℕ

pub record Service : Type 0 where
  pub name : Str
  pub agent_key_hash : Str
  pub auth_mode : Str
  pub password_hash : Str
  pub created_at : ℕ

-- What ConsumeAuthCode returns.
pub record Grant : Type 0 where
  pub tenant_slug : Str
  pub client_id : Str
  pub redirect_uri : Str
  pub code_challenge : Str

-- golang.org/x/crypto/bcrypt: a hash takes a salt from the system's randomness and fails on a
-- password that is too long; the hash of a password is not empty and accepts that password.
pub record Bcrypt : Type 0 where
  pub generate : Str → Str → Option Str
  pub compare_hash : Str → Str → Bool
  pub compare_generated :
      (salt plain hash : Str) → generate salt plain ≡ some hash → compare_hash hash plain ≡ true
  pub generated_not_empty :
      (salt plain hash : Str) → generate salt plain ≡ some hash → is_empty hash ≡ false

-- store.API over a state S. Where a method reads the clock or the system's randomness, the values
-- that it reads are arguments: the time in unix seconds, the bytes of a key, the salt of a hash.
-- DeleteExpiredTenants may return slugs together with an error.
pub record Api (S : Type 0) : Type 0 where
  pub create_tenant : Str → Str → ℕ → Act S (Unit {0})
  pub create_tenant_expiry : Str → Str → Option ℕ → ℕ → Act S (Unit {0})
  pub get_tenant : Str → Act S Tenant
  pub delete_tenant : Str → Act S Bool
  pub delete_expired_tenants : ℕ → S → (List Str × Option Error) × S
  pub count_live_tenants : ℕ → Act S ℕ
  pub quick_rate_hit : Str → ℕ → Act S ℕ
  pub create_service : Str → Str → Str → Service → ℕ → Act S Str
  pub get_service : Str → Str → Act S Service
  pub validate_password : Str → Str → Str → Act S Bool
  pub validate_agent_key : Str → Str → Str → Act S Service
  pub create_signing_key : Str → Str → ℕ → Act S (Unit {0})
  pub get_signing_key : Str → Act S Str
  pub create_client : Str → Str → Str → ℕ → Act S (Unit {0})
  pub get_client : Str → Str → Act S Str
  pub create_auth_code : Str → Str → Str → Str → Str → ℕ → Act S (Unit {0})
  pub consume_auth_code : Str → ℕ → Act S Grant
