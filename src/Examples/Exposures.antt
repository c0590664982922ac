-- ===== src/Examples/Exposures.antt =====
-- A tunnel with a password, from POST /quick to the first request from outside.
use mcptunnels.Prelude.{
  arith, ℕ, ◌+◌, Str, lit, true, Option, none, some, [], ◌∷◌, ◌≡◌, refl, find, keep, any, count,
  update, ◌==◌, hex_encode,
}
use mcptunnels.Sql.Run.{run}
use mcptunnels.Driver.{Db, exec}
use mcptunnels.Http.{Url}
use mcptunnels.Sqlite.{
  sqlite_api, quick_rate_hit, count_live_tenants, create_tenant_expiry, hash_secret, create_service,
  create_signing_key,
}
use mcptunnels.ControlPlane.{handle_quick, quick_ttl, quick_slug, bearer_key}
use mcptunnels.Cmd.Flags.{http_to_ws}
use mcptunnels.Cmd.Expose.{no_opts}
use mcptunnels.Agent.{Client, new, handshake}
use mcptunnels.Gateway.{connect, connected, session_key, dial}
use mcptunnels.Oauth.Server.{Resolver}
use mcptunnels.Proxy.{ProxyRequest, serve_http, unauthorized, metadata_url}
use mcptunnels.Exposed.{quick_tunnel_reached}
use mcptunnels.Examples.{simple_bcrypt, acme_db}
use mcptunnels.Examples.Tokens.{simple_crypto}
use mcptunnels.Examples.Tunnels.{noon, secret_request, made_slug, made_key}
use mcptunnels.Examples.Gates.{no_making, bare}

abbrev local_url : Url
local_url = record {
  scheme = lit "http";
  host = lit "127.0.0.1:9";
  path = [];
  query = [];
  fragment = [];
}

abbrev parse_any : Str → Option Url
parse_any text = some local_url

abbrev base : Str
base = lit "https://h"

abbrev exposing : Client
exposing = record {
  connect_url = lit "wss://h/tunnel/connect";
  key = made_key;
  tenant = made_slug;
  service = lit "mcp";
  upstream = local_url;
  upstream_headers = [];
  initial_backoff = 1000;
  max_backoff = 30000;
}

abbrev made_db : Db
made_db = (handle_quick (sqlite_api simple_bcrypt) simple_bcrypt noon secret_request acme_db).1

abbrev first_request : ProxyRequest
first_request = record {
  path = lit "/t/q-abc/s/mcp/sse";
  content_length = none;
  authorization = [];
}

abbrev gate : Resolver Db ℕ
gate = record {
  store = (connect (sqlite_api simple_bcrypt) (some 3) (handshake exposing) made_db bare).1;
  servers = [];
}

quick_tunnel_reached_example :
    let (connection, _, g) =
      connect (sqlite_api simple_bcrypt) (some 3) (handshake exposing) made_db bare in
    (exposing.connect_url ≡ lit "wss://h/tunnel/connect")
    × (connection ≡ connected (session_key made_slug (lit "mcp")) 3)
    × (dial (λ n. some (n ∷ [])) made_slug (lit "mcp") g ≡ some (3 ∷ []))
    × ((serve_http
          (sqlite_api simple_bcrypt)
          simple_crypto
          base
          no_making
          7300
          true
          first_request
          gate).0
        ≡ unauthorized (
            metadata_url
              (sqlite_api simple_bcrypt)
              simple_crypto
              base
              no_making
              7300
              true
              made_slug
              (lit "mcp")))
unfolding handle_quick exec run any find keep count update ◌==◌ hex_encode quick_rate_hit new
    count_live_tenants create_tenant_expiry quick_slug hash_secret create_service create_signing_key
    http_to_ws bearer_key
quick_tunnel_reached_example =
    quick_tunnel_reached simple_bcrypt noon secret_request made_slug made_key (7200 + quick_ttl)
      acme_db refl refl simple_crypto base no_making 7300 parse_any true (lit "h")
      (lit "http://127.0.0.1:9") no_opts exposing 3 bare (λ n. some (n ∷ [])) first_request
      (lit "sse") gate (ground arith) refl refl refl refl refl refl
