-- ===== src/D1/Updates.antt =====
-- Deleting, counting and claiming: the D1 store agrees with the SQLite store.
use mcptunnels.Prelude.{
  ℕ, ◌/◌, ◌-◌, Str, refl, arith, inl, inr, count, keep, List-cases, Bool-cases, nat_eq,
}
use mcptunnels.Sql.{
  Tables, delete_tenant_row, prune_rate, upsert_rate, select_rate, claim_code, select_code,
}
use mcptunnels.Sql.Run.{run, is_rate, claimable}
use mcptunnels.Sql.Integrity.{IsSound}
use mcptunnels.Driver
use mcptunnels.Driver.{Db}
use mcptunnels.Sqlite
use mcptunnels.Sqlite.Tenants.{count-is_tenant}
use mcptunnels.Sqlite.Rates.{quick_rate_hit_lem}
use mcptunnels.Sqlite.Codes.{claimed_single}
use mcptunnels.D1.Wire.{Endpoint, TextNumbers, query, str_col, int_col, read_reply}
use mcptunnels.D1.Store
use mcptunnels.D1.Conforms.{IsD1, local, Agrees}

module _ {S : Type 0} (send : Endpoint S) (tables : S → Tables) (d1 : IsD1 send tables) where
  pub delete_tenant-Agrees :
      (slug : Str) (s : S)
      → IsSound (tables s)
      → Agrees tables (Store.delete_tenant send slug) (Sqlite.delete_tenant slug) s
  unfolding Store.delete_tenant Sqlite.delete_tenant query read_reply Driver.exec run
  delete_tenant-Agrees slug s v =
      let st = delete_tenant_row slug in
      let r = d1.reply_law st s in
      let t = d1.state_law st s in
      let w = d1.written_law st (tables s) in
      let c = count-is_tenant slug (tables s).tenants v.tenant_keys in
      (ground (arith, r, t, w, c), ground (arith, r, t))

  pub quick_rate_hit-Agrees :
      (numbers : TextNumbers) (ip : Str) (now : ℕ) (s : S)
      → Agrees tables (Store.quick_rate_hit send numbers ip now) (Sqlite.quick_rate_hit ip now) s
  unfolding Store.quick_rate_hit Sqlite.quick_rate_hit query read_reply Driver.exec run int_col
  quick_rate_hit-Agrees numbers ip now s =
      let w : ℕ = now / 3600 in
      let s1 = (send (prune_rate (w - 2)) s).1 in
      let s2 = (send (upsert_rate ip w) s1).1 in
      let r1 = d1.reply_law (prune_rate (w - 2)) s in
      let t1 = d1.state_law (prune_rate (w - 2)) s in
      let r2 = d1.reply_law (upsert_rate ip w) s1 in
      let t2 = d1.state_law (upsert_rate ip w) s1 in
      let r3 = d1.reply_law (select_rate ip w) s2 in
      let t3 = d1.state_law (select_rate ip w) s2 in
      let counted = quick_rate_hit_lem ip now (local tables s) refl in
      elim (List-cases (keep (is_rate ip w) (tables s2).quick_rate)) [
        | inl e ↦ absurd (ground (arith, t1, t2, e, counted))
        | inr (row, rows, e) ↦
            (ground (arith, r1, t1, r2, t2, r3, t3, e), ground (arith, r1, t1, r2, t2, r3, t3, e))
      ]

  pub consume-Agrees :
      (hash : Str) (now : ℕ) (s : S)
      → IsSound (tables s)
      → Agrees tables (Store.consume_auth_code send hash now) (Sqlite.consume_auth_code hash now) s
  unfolding Store.consume_auth_code Sqlite.consume_auth_code query read_reply Driver.exec run
      str_col
  consume-Agrees hash now s v =
      let s1 = (send (claim_code now hash) s).1 in
      let r1 = d1.reply_law (claim_code now hash) s in
      let t1 = d1.state_law (claim_code now hash) s in
      let w1 = d1.written_law (claim_code now hash) (tables s) in
      let r2 = d1.reply_law (select_code hash) s1 in
      let t2 = d1.state_law (select_code hash) s1 in
      elim (Bool-cases (nat_eq (count (claimable now hash) (tables s).auth_codes) 0)) [
        | inl e ↦ (ground (arith, r1, t1, w1, e), ground (arith, r1, t1, w1, e))
        | inr e ↦
            let (row, only) = claimed_single now hash (tables s).auth_codes v.code_keys e in
            (
              ground (arith, r1, t1, w1, e, r2, t2, only),
              ground (arith, r1, t1, w1, e, r2, t2, only),
            )
      ]
