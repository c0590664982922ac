-- ===== src/D1/Sweeps.antt =====
-- DeleteExpiredTenants: one DELETE request for each slug agrees with the SQLite loop.
use mcptunnels.Prelude.{
  ℕ, Str, true, List, [], ◌∷◌, map, ◌≡◌, refl, arith, inl, inr, keep, List-cases,
}
use mcptunnels.Sql.{
  Tables, Row, Value, int, text, Statement, SqlError, unique_failed, foreign_key_failed, Outcome,
  failed, done, insert_tenant, select_tenant, insert_client, select_client, select_signing_key,
  insert_signing_key, insert_code, select_service, delete_tenant_row, count_live, prune_rate,
  upsert_rate, select_rate, claim_code, select_code, select_expired,
}
use mcptunnels.Sql
use mcptunnels.Sql.Run.{run, is_expired, slug_columns}
use mcptunnels.Act.{ok}
use mcptunnels.Sqlite
use mcptunnels.Sqlite.Sweep.{names, expired_names, cascade_all, delete_expired_lem}
use mcptunnels.D1.Wire.{Endpoint, StmtResult, answered, query, str_col, read_reply}
use mcptunnels.D1.Store
use mcptunnels.D1.Conforms.{IsD1, json_row, local}

module _ {S : Type 0} (send : Endpoint S) (tables : S → Tables) (d1 : IsD1 send tables) where
  -- A row of slugs decodes to the slugs.
  slugs_of-columns :
      (ts : List Sql.TenantRow)
      → Store.slugs_of (map json_row (map slug_columns ts)) ≡ ok (names ts)
  unfolding str_col
  slugs_of-columns [] = refl
  slugs_of-columns (t ∷ ts) = ground (arith, slugs_of-columns ts)

  -- The sequence of DELETE requests ends with success and the tables of the cascades.
  query-delete_tenant_row :
      (slugs : List Str) (s : S)
      → (rs : List StmtResult) × ((query send (map delete_tenant_row slugs) s).0 ≡ answered rs)
        × (tables (query send (map delete_tenant_row slugs) s).1 ≡ cascade_all slugs (tables s))
  unfolding query read_reply run cascade_all
  query-delete_tenant_row [] s = ([], refl, refl)
  query-delete_tenant_row (slug ∷ slugs) s =
      let st = delete_tenant_row slug in
      let s1 = (send st s).1 in
      let r = d1.reply_law st s in
      let t = d1.state_law st s in
      let (rs, replied, left) = query-delete_tenant_row slugs s1 in
      (
        record {
          success = true;
          results = [];
          rows_written = d1.written st (tables s);
          errors = [];
        }
            ∷ rs,
        ground (arith, r, t, replied),
        ground (arith, r, t, left),
      )

  pub delete_expired-Agrees :
      (now : ℕ) (s : S)
      → ((Store.delete_expired_tenants send now s).0
          ≡ (Sqlite.delete_expired_tenants now (local tables s)).0)
        × (tables (Store.delete_expired_tenants send now s).1
            ≡ (Sqlite.delete_expired_tenants now (local tables s)).1.tables)
  unfolding Store.delete_expired_tenants query read_reply run
  delete_expired-Agrees now s =
      let st = select_expired now in
      let s1 = (send st s).1 in
      let r = d1.reply_law st s in
      let t = d1.state_law st s in
      let decoded = slugs_of-columns (keep (is_expired now) (tables s).tenants) in
      let (rs, replied, left) = query-delete_tenant_row (expired_names now (local tables s)) s1 in
      rw (delete_expired_lem now (local tables s) refl)
        (elim (List-cases (expired_names now (local tables s))) [
          | inl e ↦ (ground (arith, r, t, decoded, e), ground (arith, r, t, decoded, e, left))
          | inr (slug, more, e) ↦ (
            ground (arith, r, t, decoded, e, replied),
            ground (arith, r, t, decoded, e, replied, left),
          )
        ])
