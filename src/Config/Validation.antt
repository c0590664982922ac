-- ===== src/Config/Validation.antt =====
-- What LoadDaemon of internal/config/config.go promises of a configuration that it accepts.
use mcptunnels.Prelude.{
  Str, lit, Bool, true, false, not, ◌&&◌, ◌||◌, Option, some, [], ◌∷◌, is_empty, ◌==◌, ◌≡◌, refl,
  inl, inr, arith, Option-cases, eq_refl, eq_excludes, eq_iff,
}
use mcptunnels.Config.{
  DaemonConfig, loaded, load_daemon, check_database, check_tls, with_database_path, or_else,
  defaults,
}

-- The database that a configuration selects can be opened.
abbrev pub database_ready : DaemonConfig → Bool
database_ready cfg =
    (cfg.driver == lit "sqlite")
    || ((cfg.driver == lit "d1")
        && (not (is_empty cfg.account_id)
            && (not (is_empty cfg.database_id) && not (is_empty cfg.api_token_env))))

-- The TLS mode has what it needs.
abbrev pub tls_ready : DaemonConfig → Bool
tls_ready cfg =
    ((cfg.tls_mode == lit "acme") && not (is_empty cfg.cache_dir))
    || (((cfg.tls_mode == lit "manual")
          && (not (is_empty cfg.cert_file) && not (is_empty cfg.key_file)))
        || (cfg.tls_mode == lit "disabled"))

abbrev pub ready : DaemonConfig → Bool
ready cfg =
    not (is_empty cfg.public_base_url)
    && (not (is_empty cfg.database_path) && (database_ready cfg && tls_ready cfg))

or_else_filled : (s t : Str) → is_empty t ≡ false → is_empty (or_else s t) ≡ false
or_else_filled [] t h = h
or_else_filled (c ∷ s) t h = refl

-- The public URL and the path of the database stay.
abbrev Same : DaemonConfig → DaemonConfig → Type 0
Same cfg c = (c.public_base_url ≡ cfg.public_base_url) × (c.database_path ≡ cfg.database_path)

check_tls_ready :
    (cfg c : DaemonConfig)
    → check_tls cfg ≡ loaded c
    → (tls_ready c ≡ true) × (database_ready c ≡ database_ready cfg) × Same cfg c
unfolding check_tls
check_tls_ready cfg c h = ground (arith, or_else_filled cfg.cache_dir (lit "./acme-cache") refl)

check_database_ready :
    (cfg c : DaemonConfig)
    → check_database cfg ≡ loaded c
    → (tls_ready c ≡ true) × (database_ready c ≡ true) × Same cfg c
unfolding check_database
check_database_ready cfg c h = ground (
  arith,
  check_tls_ready (record cfg { driver = lit "sqlite" }) c,
  check_tls_ready cfg c,
  eq_refl (lit "sqlite"),
)

-- A configuration that LoadDaemon accepts has a public URL, a database path, a database driver with all that it
-- needs and a TLS mode with all that it needs.
pub load_daemon-ready :
    (load : DaemonConfig → Option DaemonConfig) (env : Str) (c : DaemonConfig)
    → load_daemon load env ≡ loaded c
    → ready c ≡ true
unfolding load_daemon
load_daemon-ready load env c h = elim (Option-cases (load defaults)) [
  | inl e ↦ ground (arith, e)
  | inr (d, e) ↦
      let cfg = with_database_path env d in
      ground (
        arith,
        e,
        check_database_ready cfg c,
        or_else_filled (or_else d.database_path env) (lit "./data/tunneld.db") refl,
      )
]

check_tls_complete : (cfg : DaemonConfig) → tls_ready cfg ≡ true → check_tls cfg ≡ loaded cfg
unfolding check_tls ◌==◌
check_tls_complete cfg h =
    let names = cfg.tls_mode in
    ground (
      arith,
      eq_excludes names (lit "acme") (lit "manual") refl,
      eq_excludes names (lit "acme") (lit "disabled") refl,
      eq_excludes names (lit "manual") (lit "disabled") refl,
    )

-- A complete configuration is accepted as it is: so what LoadDaemon returns, written out and read again,
-- is returned unchanged.
pub load_daemon_complete :
    (load : DaemonConfig → Option DaemonConfig) (env : Str) (c : DaemonConfig)
    → load defaults ≡ some c
    → ready c ≡ true
    → load_daemon load env ≡ loaded c
unfolding load_daemon check_database ◌==◌
load_daemon_complete load env c h r = ground (
  arith,
  h,
  check_tls_complete c,
  (eq_iff c.driver (lit "sqlite")).0,
  eq_excludes c.driver (lit "d1") (lit "sqlite") refl,
)
