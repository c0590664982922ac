-- ===== src/Cmd/Expose.antt =====
-- parseExposeArgs, runExpose and deleteTunnel of cmd/mcptunnel/expose.go, and parseRunArgs of
-- cmd/mcptunnel/run.go. What the server, the child process and the listener answer, and how the agent's
-- run ends, are readings.
use mcptunnels.Prelude.{
  ℕ, ◌*◌, Str, lit, Bool, true, false, not, ◌&&◌, ◌||◌, Option, none, some, List, [], ◌∷◌, ◌++◌,
  if◌then◌else◌, ◌==◌, is_empty, trim_right,
}
use mcptunnels.Http.{Url}
use mcptunnels.Agent.{Config, Client, new}
use mcptunnels.Cmd.Flags.{
  FlagSet, parsed, bad_flags, out_of_fuel, parse_intermixed, split_command, http_to_ws, is_http_url,
}

abbrev pub default_server : Str
default_server = lit "https://t-mcptunnels.terragohan.com"

pub record ExposeOpts : Type 0 where
  pub server : Str
  pub config_path : Str
  pub no_auth : Bool
  pub upstream_url : Str
  pub headers : List (Str × List Str)
  pub cmd_args : List Str

abbrev pub no_opts : ExposeOpts
no_opts = record {
  server = default_server;
  config_path = [];
  no_auth = false;
  upstream_url = [];
  headers = [];
  cmd_args = [];
}

abbrev pub no_args : List Str → Bool
no_args [] = true
no_args (a ∷ args) = false

-- The checks of parseExposeArgs on what the flags gave; none is a usage error.
abbrev pub checked_expose :
    (Str → Option Url) → List Str → List Str → ExposeOpts → Option ExposeOpts
checked_expose parse_url pos cmd opts =
    if not (no_args pos)
    then none
    else if not (is_empty opts.upstream_url) && not (no_args cmd)
    then none
    else if is_empty opts.upstream_url && no_args cmd
    then none
    else if not (is_empty opts.upstream_url) && not (is_http_url parse_url opts.upstream_url)
    then none
    else some (record opts { cmd_args = cmd })

unfoldable pub parse_expose_args :
    (Str → Option Url) → FlagSet ExposeOpts → List Str → Option ExposeOpts
unfolding parse_intermixed split_command
parse_expose_args parse_url flags args =
    let (flag_args, cmd) = split_command args in
    elim (parse_intermixed flags flag_args no_opts) [
      | parsed opts pos ↦ checked_expose parse_url pos cmd opts
      | bad_flags ↦ none
      | out_of_fuel ↦ none
    ]

pub record RunOpts : Type 0 where
  pub upstream_url : Str
  pub headers : List (Str × List Str)

unfoldable pub parse_run_args : (Str → Option Url) → FlagSet RunOpts → List Str → Option RunOpts
unfolding parse_intermixed
parse_run_args parse_url flags args =
    elim (parse_intermixed flags args (record { upstream_url = []; headers = [] })) [
      | parsed opts pos ↦
          if not (no_args pos) || is_empty opts.upstream_url
          then none
          else if is_http_url parse_url opts.upstream_url
          then some opts
          else none
      | bad_flags ↦ none
      | out_of_fuel ↦ none
    ]

-- The decoded answer to POST /quick.
pub record QuickTunnel : Type 0 where
  pub tenant : Str
  pub service : Str
  pub agent_key : Str

-- The URL of the configuration file, and what the steps come to; `listener` is the address of the loopback
-- listener.
pub record Surroundings : Type 0 where
  pub config_server : Option Str
  pub random_password : Str
  pub quick_reply : Option QuickTunnel
  pub bridge_ok : Bool
  pub listener : Option Str

-- What runExpose does to the outside, in its order. The bridge stands for its listener and HTTP server too; the
-- transport that the agent is given is that of token_transport_for, in Cmd/Token.
pub data Effect : Type 0 where
  create_tunnel : Str → Bool → Str → Effect
  start_bridge : List Str → Effect
  announce : Str → Str → Effect
  run_agent : Client → Effect
  stop_bridge : Effect
  delete_tunnel : Str → Str → Str → Str → Effect

abbrev seconds : ℕ
seconds = 1000

abbrev pub agent_config : Str → QuickTunnel → Str → ExposeOpts → Config
agent_config base t upstream opts = record {
  server = http_to_ws base;
  tenant = t.tenant;
  agent_key = t.agent_key;
  service = t.service;
  upstream = upstream;
  upstream_headers = opts.headers;
  initial_backoff = 1 * seconds;
  max_backoff = 30 * seconds;
}

abbrev pub public_url : Str → QuickTunnel → Str
public_url base t = base ++ (lit "/t/" ++ (t.tenant ++ (lit "/s/" ++ t.service)))

-- The server's URL, which a configuration file gives only where --server was left at the default.
abbrev pub base_of : Surroundings → ExposeOpts → Option Str
base_of w opts =
    if (opts.server == default_server) && not (is_empty opts.config_path)
    then w.config_server
    else some opts.server

module _ (parse_url : Str → Option Url) (base password : Str) (t : QuickTunnel)
    (opts : ExposeOpts) where
  -- From agent.New on; the deferred deletion comes first of what is deferred.
  unfoldable pub connect : Str → List Effect
  unfolding new http_to_ws trim_right
  connect upstream = elim (new parse_url (agent_config base t upstream opts)) [
    | none ↦ []
    | some c ↦
        announce (public_url base t) password
        ∷ run_agent c
        ∷ delete_tunnel (trim_right 47 base) t.tenant t.service t.agent_key
        ∷ []
  ]

  -- With the tunnel made: a remote upstream, or the command behind a bridge on the loopback interface.
  abbrev pub serve : Surroundings → List Effect
  serve w =
      if not (is_empty opts.upstream_url)
      then connect opts.upstream_url
      else start_bridge opts.cmd_args
        ∷ (if not w.bridge_ok then [] else elim (w.listener) [
          | none ↦ stop_bridge ∷ []
          | some addr ↦ connect (lit "http://" ++ addr) ++ (stop_bridge ∷ [])
        ])

unfoldable pub run_expose : (Str → Option Url) → Surroundings → ExposeOpts → List Effect
unfolding connect trim_right
run_expose parse_url w opts = elim (base_of w opts) [
  | none ↦ []
  | some base ↦
      let password = if opts.no_auth then [] else w.random_password in
      create_tunnel (trim_right 47 base) (not opts.no_auth) password
      ∷ elim (w.quick_reply) [ none ↦ [] | some t ↦ serve parse_url base password t opts w ]
]
