-- ===== src/Config.antt =====
-- internal/config/config.go: the configuration of tunneld. Decoding the YAML file over the defaults is a
-- parameter, and so is the variable DATABASE_PATH of the environment.
pub mod Validation
use mcptunnels.Prelude.{
  Str, lit, Bool, true, false, ◌||◌, Option, none, some, [], is_empty, if◌then◌else◌, ◌==◌,
}

-- DaemonConfig, its nested structs flattened.
pub record DaemonConfig : Type 0 where
  pub listen : Str
  pub public_base_url : Str
  pub trust_cloudflare : Bool
  pub tls_mode : Str
  pub cache_dir : Str
  pub email : Str
  pub cert_file : Str
  pub key_file : Str
  pub database_path : Str
  pub driver : Str
  pub account_id : Str
  pub database_id : Str
  pub api_token_env : Str

pub data Problem : Type 0 where
  unreadable : Problem
  no_public_base_url : Problem
  incomplete_d1 : Problem
  unknown_driver : Str → Problem
  incomplete_manual : Problem
  unknown_tls_mode : Str → Problem

pub data Loaded : Type 0 where
  loaded : DaemonConfig → Loaded
  failed : Problem → Loaded

abbrev pub defaults : DaemonConfig
defaults = record {
  listen = lit ":443";
  public_base_url = [];
  trust_cloudflare = false;
  tls_mode = lit "acme";
  cache_dir = [];
  email = [];
  cert_file = [];
  key_file = [];
  database_path = [];
  driver = [];
  account_id = [];
  database_id = [];
  api_token_env = [];
}

abbrev pub or_else : Str → Str → Str
or_else s t = if is_empty s then t else s

abbrev pub with_database_path : Str → DaemonConfig → DaemonConfig
with_database_path env cfg = record cfg {
  database_path = or_else (or_else cfg.database_path env) (lit "./data/tunneld.db");
}

-- The switch on the TLS mode.
unfoldable pub check_tls : DaemonConfig → Loaded
check_tls cfg =
    if cfg.tls_mode == lit "acme"
    then loaded (record cfg { cache_dir = or_else cfg.cache_dir (lit "./acme-cache") })
    else if cfg.tls_mode == lit "manual"
    then (if is_empty cfg.cert_file || is_empty cfg.key_file
        then failed incomplete_manual
        else loaded cfg)
    else if cfg.tls_mode == lit "disabled"
    then loaded cfg
    else failed (unknown_tls_mode cfg.tls_mode)

-- The switch on the database driver, and what follows it.
unfoldable pub check_database : DaemonConfig → Loaded
unfolding check_tls
check_database cfg =
    if is_empty cfg.driver || (cfg.driver == lit "sqlite")
    then check_tls (record cfg { driver = lit "sqlite" })
    else if cfg.driver == lit "d1"
    then (if is_empty cfg.account_id || is_empty cfg.database_id || is_empty cfg.api_token_env
        then failed incomplete_d1
        else check_tls cfg)
    else failed (unknown_driver cfg.driver)

-- LoadDaemon: the decoder answers none for a file that it cannot open or parse.
unfoldable pub load_daemon : (DaemonConfig → Option DaemonConfig) → Str → Loaded
unfolding check_database
load_daemon load env = elim (load defaults) [
  | none ↦ failed unreadable
  | some decoded ↦
      let cfg = with_database_path env decoded in
      if is_empty cfg.public_base_url then failed no_public_base_url else check_database cfg
]
