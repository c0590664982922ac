-- ===== src/Daemon/Startup.antt =====
-- The store that the daemon opens for a configuration that was accepted.
use mcptunnels.Prelude.{Str, lit, Bool, true, false, Option, ◌==◌, ◌≡◌, arith, eq_excludes, refl}
use mcptunnels.Config.{DaemonConfig, loaded, load_daemon}
use mcptunnels.Config.Validation.{load_daemon-ready}
use mcptunnels.Daemon.{Opened, incomplete, open_store, d1_url}

abbrev pub is_incomplete : Opened → Bool
is_incomplete incomplete = true
is_incomplete o = false

-- With a configuration that LoadDaemon accepts, neither store is opened with a required field missing: what
-- can be missing is only the D1 token in the environment.
pub open_store-load_daemon :
    (load : DaemonConfig → Option DaemonConfig) (env : Str → Str) (path api_base : Str)
    (c : DaemonConfig)
    → load_daemon load path ≡ loaded c
    → is_incomplete (open_store api_base env c) ≡ false
unfolding open_store d1_url ◌==◌
open_store-load_daemon load env path api_base c h =
    ground
      (arith, load_daemon-ready load path c h, eq_excludes c.driver (lit "d1") (lit "sqlite") refl)
