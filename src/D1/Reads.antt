-- ===== src/D1/Reads.antt =====
-- The reading methods of the D1 store agree with those of the SQLite store.
use mcptunnels.Prelude.{ℕ, Str, arith, inl, inr, keep, List-cases}
use mcptunnels.Sql.{
  Tables, select_tenant, select_client, select_signing_key, select_service, count_live,
}
use mcptunnels.Sql.Run.{run, is_tenant, is_client, is_key, is_service}
use mcptunnels.Driver
use mcptunnels.Driver.{Db}
use mcptunnels.Sqlite
use mcptunnels.D1.Wire.{
  Endpoint, TextNumbers, query, str_col, time_col, opt_time, int_col, read_reply,
}
use mcptunnels.D1.Store
use mcptunnels.D1.Conforms.{IsD1, Agrees}

module _ {S : Type 0} (send : Endpoint S) (tables : S → Tables) (d1 : IsD1 send tables) where
  pub get_client-Agrees :
      (slug id : Str) (s : S)
      → Agrees tables (Store.get_client send slug id) (Sqlite.get_client slug id) s
  unfolding Store.get_client Sqlite.get_client query read_reply Driver.exec run str_col
  get_client-Agrees slug id s =
      let st = select_client slug id in
      let r = d1.reply_law st s in
      let t = d1.state_law st s in
      elim (List-cases (keep (is_client slug id) (tables s).oauth_clients)) [
        | inl e ↦ (ground (arith, r, t, e), ground (arith, r, t, e))
        | inr (row, rows, e) ↦ (ground (arith, r, t, e), ground (arith, r, t, e))
      ]

  pub get_signing_key-Agrees :
      (slug : Str) (s : S)
      → Agrees tables (Store.get_signing_key send slug) (Sqlite.get_signing_key slug) s
  unfolding Store.get_signing_key Sqlite.get_signing_key query read_reply Driver.exec run str_col
  get_signing_key-Agrees slug s =
      let st = select_signing_key slug in
      let r = d1.reply_law st s in
      let t = d1.state_law st s in
      elim (List-cases (keep (is_key slug) (tables s).signing_keys)) [
        | inl e ↦ (ground (arith, r, t, e), ground (arith, r, t, e))
        | inr (row, rows, e) ↦ (ground (arith, r, t, e), ground (arith, r, t, e))
      ]

  pub get_tenant-Agrees :
      (numbers : TextNumbers) (slug : Str) (s : S)
      → Agrees tables (Store.get_tenant send numbers slug) (Sqlite.get_tenant slug) s
  unfolding Store.get_tenant Sqlite.get_tenant query read_reply Driver.exec run str_col opt_time
  get_tenant-Agrees numbers slug s =
      let st = select_tenant slug in
      let r = d1.reply_law st s in
      let t = d1.state_law st s in
      elim (List-cases (keep (is_tenant slug) (tables s).tenants)) [
        | inl e ↦ (ground (arith, r, t, e), ground (arith, r, t, e))
        | inr (row, rows, e) ↦ (ground (arith, r, t, e), ground (arith, r, t, e))
      ]

  pub get_service-Agrees :
      (numbers : TextNumbers) (slug name : Str) (s : S)
      → Agrees tables (Store.get_service send numbers slug name) (Sqlite.get_service slug name) s
  unfolding Store.get_service Sqlite.get_service query read_reply Driver.exec run str_col time_col
  get_service-Agrees numbers slug name s =
      let st = select_service slug name in
      let r = d1.reply_law st s in
      let t = d1.state_law st s in
      elim (List-cases (keep (is_service slug name) (tables s).services)) [
        | inl e ↦ (ground (arith, r, t, e), ground (arith, r, t, e))
        | inr (row, rows, e) ↦ (ground (arith, r, t, e), ground (arith, r, t, e))
      ]

  pub count_live-Agrees :
      (numbers : TextNumbers) (now : ℕ) (s : S)
      → Agrees tables (Store.count_live_tenants send numbers now) (Sqlite.count_live_tenants now) s
  unfolding Store.count_live_tenants Sqlite.count_live_tenants query read_reply Driver.exec run
      int_col
  count_live-Agrees numbers now s =
      let st = count_live now in
      let r = d1.reply_law st s in
      let t = d1.state_law st s in (ground (arith, r, t), ground (arith, r, t))
