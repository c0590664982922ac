-- ===== src/Examples/Commands.antt =====
-- The theorems on the agent, the configuration, the token files and the commands at concrete values.
use mcptunnels.Prelude.{
  Str, lit, true, false, ◌&&◌, Option, none, some, [], ◌∷◌, ◌≡◌, refl, arith, is_empty, ◌==◌, All,
  any, if◌then◌else◌, has_prefix, cut_prefix,
}
use mcptunnels.Http.{Url}
use mcptunnels.Agent.{Client, Turn, Request, run, outgoing}
use mcptunnels.Agent.Reconnect.{run-schedule, schedule}
use mcptunnels.Agent.Forward.{outgoing_header, configured, is_credential}
use mcptunnels.Config.{DaemonConfig, defaults}
use mcptunnels.Tokencache.{Entry}
use mcptunnels.Tokencache.Files.{Codec, SaveCalls, present, unreadable, save, lookup}
use mcptunnels.Tokencache.Keeping.{save_atomic, same_file}
use mcptunnels.Cmd.Flags.{FlagSet, Shrinks}
use mcptunnels.Cmd.Expose.{ExposeOpts, QuickTunnel, Surroundings, run_expose, no_opts}
use mcptunnels.Cmd.Cleanup.{run_expose_deletes, Own, is_run, is_delete}
use mcptunnels.Cmd.Token.{
  TokenAddOpts, parse_token_add_args, entry_of, run_token_add, token_transport_for,
}
use mcptunnels.Cmd.Managed.{token_transport_for-run_token_add}

abbrev upstream_url : Url
upstream_url = record {
  scheme = lit "http";
  host = lit "up:80";
  path = lit "/mcp/";
  query = [];
  fragment = [];
}

abbrev client : Client
client = record {
  connect_url = lit "wss://t/tunnel/connect";
  key = lit "k";
  tenant = lit "acme";
  service = lit "mcp";
  upstream = upstream_url;
  upstream_headers = (lit "authorization", lit "Bearer b" ∷ []) ∷ [];
  initial_backoff = 1000;
  max_backoff = 30000;
}

abbrev broke : Turn
broke = record { stopped = false; random = λ n. 0; interrupted = false }

run-schedule_example :
    run client (broke ∷ broke ∷ broke ∷ []) ≡ schedule 1000 30000 0 (broke ∷ broke ∷ broke ∷ [])
run-schedule_example =
    run-schedule client (broke ∷ broke ∷ broke ∷ []) (ground arith) (ground arith)

-- The canonical spelling of the names of these examples.
abbrev canonical_name : Str → Str
unfolding ◌==◌
canonical_name name = if name == lit "authorization" then lit "Authorization" else name

abbrev client_request : Request
client_request = record {
  verb = lit "POST";
  url = record { scheme = []; host = lit "public"; path = lit "/mcp"; query = []; fragment = [] };
  host_header = lit "public";
  header = λ name. lit "from the internet" ∷ [];
  body = lit "{}";
}

outgoing_header_example :
    let sent = outgoing canonical_name client client_request in
    (sent.url.scheme ≡ lit "http")
    × (sent.url.host ≡ lit "up:80")
    × (is_empty sent.host_header ≡ true)
    × (sent.header (lit "Cookie")
        ≡ elim (configured canonical_name client.upstream_headers (lit "Cookie")) [
          | none ↦ if is_credential (lit "Cookie") then [] else client_request.header (lit "Cookie")
          | some vals ↦ vals
        ])
outgoing_header_example = outgoing_header canonical_name client client_request (lit "Cookie")

abbrev loads : DaemonConfig → Option DaemonConfig
loads cfg = some (record cfg { public_base_url = lit "https://t" })

abbrev tunneld : DaemonConfig
tunneld = record defaults {
  public_base_url = lit "https://t";
  database_path = lit "./data/tunneld.db";
  driver = lit "sqlite";
  cache_dir = lit "./acme-cache";
}

abbrev stored : Entry
stored = record {
  url = lit "http://up";
  access_token = lit "b";
  expires_at = 0;
  refresh_token = [];
  token_url = [];
  client_id = [];
  token_cmd = [];
}

abbrev host_of : Str → Option Url
unfolding cut_prefix
host_of raw = elim (cut_prefix (lit "http://") raw) [
  | none ↦ none
  | some host ↦
      some (record { scheme = lit "http"; host = host; path = []; query = []; fragment = [] })
]

abbrev plain_codec : Codec
plain_codec = record {
  parse = host_of;
  print = λ u. u.host;
  sha256 = λ s. s;
  encode = λ e. e.access_token;
  decode = λ s. some (record stored { access_token = s });
}

abbrev all_well : SaveCalls
all_well = record {
  mkdir_ok = true;
  temp = some (lit ".tmp-1.json");
  chmod_ok = true;
  write_ok = true;
  close_ok = true;
  rename_ok = true;
}

save_atomic_example :
    lookup plain_codec true (lit "http://UP") (save plain_codec all_well stored []).1 ≡ (
      if (save plain_codec all_well stored []).0
        && same_file plain_codec (lit "http://UP") (lit "http://up")
      then some (if true then present stored else unreadable)
      else lookup plain_codec true (lit "http://UP") [])
unfolding has_prefix cut_prefix
save_atomic_example =
    save_atomic plain_codec all_well stored [] (lit ".tmp-1.json") (lit "http://UP") true refl refl
      refl

-- Flags that are all positional.
abbrev no_flags : {S : Type 0} → FlagSet S
no_flags args s = some (s, args)

no_flags-Shrinks : {S : Type 0} → Shrinks {S = S} no_flags
no_flags-Shrinks args s s' rest e = ground (arith, e)

abbrev around : Surroundings
around = record {
  config_server = none;
  random_password = lit "pw";
  quick_reply = some (record { tenant = lit "acme"; service = lit "mcp"; agent_key = lit "k" });
  bridge_ok = true;
  listener = some (lit "127.0.0.1:4000");
}

abbrev opts : ExposeOpts
opts = record no_opts { server = lit "https://t/"; cmd_args = lit "server" ∷ [] }

abbrev tunnel : QuickTunnel
tunnel = record { tenant = lit "acme"; service = lit "mcp"; agent_key = lit "k" }

run_expose_deletes_example :
    All (Own (lit "https://t/") tunnel) (run_expose host_of around opts)
    × (any is_delete (run_expose host_of around opts) ≡ any is_run (run_expose host_of around opts))
unfolding ◌==◌
run_expose_deletes_example =
    run_expose_deletes host_of around opts (lit "https://t/") tunnel refl refl

-- Flags that give a bearer token for one URL.
abbrev bearer_flags : FlagSet TokenAddOpts
bearer_flags args o = some (record o { url = lit "http://up"; bearer = lit "b" }, [])

abbrev added : TokenAddOpts
added = record {
  url = lit "http://up";
  bearer = lit "b";
  bearer_env = [];
  expires_in = 0;
  refresh_token = [];
  token_url = [];
  client_id = [];
  token_cmd = [];
}

token_transport_for-run_token_add_example :
    token_transport_for plain_codec
      (λ n. [])
      20
      true
      (lit "http://UP")
      []
      (run_token_add plain_codec (λ n. []) bearer_flags 10 all_well (lit "--bearer" ∷ []) []).1
    ≡ some (record { entry = entry_of 10 added; loaded_at = 20; saved = [] })
unfolding has_prefix cut_prefix run_token_add parse_token_add_args ◌==◌
token_transport_for-run_token_add_example =
    token_transport_for-run_token_add plain_codec (λ n. []) bearer_flags 10 20 all_well
      (lit "--bearer" ∷ []) [] added (lit ".tmp-1.json") (lit "http://UP") refl refl refl refl refl
      refl refl
