-- ===== src/D1/Inserts.antt =====
-- The inserting methods of the D1 store agree with those of the SQLite store.
use mcptunnels.Prelude.{ℕ, Str, Option, arith}
use mcptunnels.Sql.{
  Tables, unique_failed, foreign_key_failed, insert_tenant, insert_client, insert_signing_key,
  insert_code,
}
use mcptunnels.Sql.Run.{run}
use mcptunnels.Driver
use mcptunnels.Driver.{Db}
use mcptunnels.Sqlite
use mcptunnels.D1.Wire.{Endpoint, query, read_reply}
use mcptunnels.D1.Store
use mcptunnels.D1.Conforms.{IsD1, Agrees}

module _ {S : Type 0} (send : Endpoint S) (tables : S → Tables) (d1 : IsD1 send tables) where
  pub create_tenant-Agrees :
      (slug name : Str) (exp : Option ℕ) (now : ℕ) (s : S)
      → Agrees tables
          (Store.create_tenant_expiry send slug name exp now)
          (Sqlite.create_tenant_expiry slug name exp now)
          s
  unfolding Store.create_tenant_expiry Sqlite.create_tenant_expiry query read_reply Driver.exec run
  create_tenant-Agrees slug name exp now s =
      let st = insert_tenant slug name now exp in
      let r = d1.reply_law st s in
      let t = d1.state_law st s in
      let m = d1.message_law unique_failed in (ground (arith, r, t, m), ground (arith, r, t, m))

  pub create_client-Agrees :
      (slug id uris : Str) (now : ℕ) (s : S)
      → Agrees tables
          (Store.create_client send slug id uris now)
          (Sqlite.create_client slug id uris now)
          s
  unfolding Store.create_client Sqlite.create_client query read_reply Driver.exec run
  create_client-Agrees slug id uris now s =
      let st = insert_client slug id uris now in
      let r = d1.reply_law st s in
      let t = d1.state_law st s in
      let m = d1.message_law unique_failed in
      let f = d1.message_law foreign_key_failed in
      (ground (arith, r, t, m, f), ground (arith, r, t, m, f))

  pub create_signing_key-Agrees :
      (slug pem : Str) (now : ℕ) (s : S)
      → Agrees tables
          (Store.create_signing_key send slug pem now)
          (Sqlite.create_signing_key slug pem now)
          s
  unfolding Store.create_signing_key Sqlite.create_signing_key query read_reply Driver.exec run
  create_signing_key-Agrees slug pem now s =
      let st = insert_signing_key slug pem now in
      let r = d1.reply_law st s in
      let t = d1.state_law st s in (ground (arith, r, t), ground (arith, r, t))

  pub create_auth_code-Agrees :
      (hash slug id uri challenge : Str) (expires : ℕ) (s : S)
      → Agrees tables
          (Store.create_auth_code send hash slug id uri challenge expires)
          (Sqlite.create_auth_code hash slug id uri challenge expires)
          s
  unfolding Store.create_auth_code Sqlite.create_auth_code query read_reply Driver.exec run
  create_auth_code-Agrees hash slug id uri challenge expires s =
      let st = insert_code hash slug id uri challenge expires in
      let r = d1.reply_law st s in
      let t = d1.state_law st s in (ground (arith, r, t), ground (arith, r, t))
