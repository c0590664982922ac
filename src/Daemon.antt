-- ===== src/Daemon.antt =====
-- cmd/tunneld/main.go, and CloudflareClientIP of internal/server/cloudflare.go and clientIP of
-- internal/oauth/register.go with the package net as a parameter: what the daemon decides before and around
-- its handlers. Opening the database and its tables are in Schema, the muxes in Router.
pub mod Startup
pub mod Trust
use mcptunnels.Prelude.{
  ℕ, Str, lit, Bool, true, false, not, ◌||◌, Option, none, some, List, [], ◌∷◌, ◌++◌, is_empty,
  if◌then◌else◌, ◌==◌, trim_space, cut,
}
use mcptunnels.Act.{Error, Result, ok, err}
use mcptunnels.Store.{Api}
use mcptunnels.Config.{DaemonConfig}

-- SplitHostPort's host, JoinHostPort with the port 0, and ParseIP followed by String.
pub record Net : Type 0 where
  pub split_host : Str → Option Str
  pub join_host : Str → Str
  pub parse_ip : Str → Option Str

-- The remote address that the next handler sees; the header is empty where it is not set.
unfoldable pub cloudflare_client_ip : Net → Str → Str → Str
unfolding trim_space
cloudflare_client_ip net header remote = elim (net.parse_ip (trim_space header)) [
  | none ↦ remote
  | some ip ↦ net.join_host ip
]

abbrev before_comma : Str → Str
unfolding cut
before_comma fwd = elim (cut (lit ",") fwd) [ none ↦ fwd | some (a, b) ↦ a ]

-- clientIP: the host of the remote address, else the first address of X-Forwarded-For.
unfoldable pub client_ip : Net → Str → Str → Str
unfolding before_comma trim_space
client_ip net fwd remote = elim (net.split_host remote) [
  | some host ↦ host
  | none ↦
      if is_empty fwd || is_empty (before_comma fwd) then remote else trim_space (before_comma fwd)
]

pub record D1Config : Type 0 where
  pub account_id : Str
  pub database_id : Str
  pub api_token : Str

-- New of internal/stored1/stored1.go up to its first request: the URL of the queries, or none where a field is empty.
unfoldable pub d1_url : Str → D1Config → Option Str
d1_url api_base cfg =
    if is_empty cfg.account_id || (is_empty cfg.database_id || is_empty cfg.api_token)
    then none
    else some (
        api_base
        ++ (lit "/accounts/"
            ++ (cfg.account_id ++ (lit "/d1/database/" ++ (cfg.database_id ++ lit "/query")))))

pub data Opened : Type 0 where
  sqlite : Str → Opened
  d1 : Str → Opened
  no_token : Opened
  incomplete : Opened

abbrev opened_d1 : Option Str → Opened
opened_d1 none = incomplete
opened_d1 (some url) = d1 url

-- openStore; store.Open wants a path.
unfoldable pub open_store : Str → (Str → Str) → DaemonConfig → Opened
unfolding d1_url
open_store api_base env cfg =
    let token = env cfg.api_token_env in
    if cfg.driver == lit "d1"
    then (if is_empty token
        then no_token
        else opened_d1 (
            d1_url api_base (record {
              account_id = cfg.account_id;
              database_id = cfg.database_id;
              api_token = token;
            })))
    else if is_empty cfg.database_path
    then incomplete
    else sqlite cfg.database_path

-- The exit of -kill-tenant.
pub data Killed : Type 0 where
  deleted : Killed
  no_such_tenant : Killed
  failed : Error → Killed

abbrev killed : Result Bool → Killed
killed (ok true) = deleted
killed (ok false) = no_such_tenant
killed (err e) = failed e

module _ {S : Type 0} (api : Api S) where
  unfoldable pub kill_tenant : Str → S → Killed × S
  kill_tenant slug s = let (r, s') = api.delete_tenant slug s in (killed r, s')

  abbrev logged : List Str × Option Error → List Str
  logged (slugs, none) = slugs
  logged (slugs, some e) = []

  -- The janitor at the times of its ticks: the slugs that each tick logs as deleted. A sweep that fails
  -- is tried again at the next tick.
  unfoldable pub janitor : List ℕ → S → List (List Str) × S
  janitor [] s = ([], s)
  janitor (now ∷ ticks) s =
      let (swept, s') = api.delete_expired_tenants now s in
      let (rest, s'') = janitor ticks s' in (logged swept ∷ rest, s'')
