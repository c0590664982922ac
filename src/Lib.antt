-- ===== src/Lib.antt =====
-- mcptunnels: a tunnel for MCP services, its server and its client. A command on a developer's machine asks the
-- control plane for a quick tunnel (a tenant with a random slug, one service "mcp", an agent key), an
-- agent connects to the gateway with that key, and the public proxy forwards requests under
-- /t/{tenant}/s/{service}/ to the agent's session, where the service is open or the request bears an
-- access token of the tenant's authorization server. All of these keep their state in a store. On the
-- developer's machine the agent forwards to a bridge, which runs a command as an MCP server, or to a
-- remote URL; the stdio front serves a local client from a remote URL; the tokens for such URLs are kept
-- in files.
--
-- Files and code:
--   Prelude          strings as lists of bytes with the functions of package strings, lists, tests
--   Sql              the schema and the SQL statements of internal/store/store.go and
--                    internal/stored1/stored1.go, and what each does to the tables
--   Schema           the statements that make the tables: Tables and Remote are those of
--                    internal/store/store.go and of internal/stored1/stored1.go, Open is Open and migrate
--   Act, Driver      methods with errors as values; a driver that may fail any statement
--   Store            internal/store/api.go: the contract API as a record over a state
--   Sqlite           internal/store/store.go: one function per method (CreateTenantExpiry is
--                    create_tenant_expiry and so on); its children hold the theorems
--   D1               internal/stored1/stored1.go: the wire protocol and the methods over an endpoint,
--                    and their agreement with Sqlite
--   ControlPlane     internal/controlplane/controlplane.go: handleQuick in the parts handle_quick,
--                    within_capacity, read_body, create_tunnel, add_service, finish_quick; handleDelete
--   Gateway          internal/gateway/gateway.go: register, unregister, Dial, Online; ServeHTTP up to
--                    the wait for the session's end is `connect`
--   Oauth            internal/oauth: Jwt (jwt.go), Rate (register.go), Server (oauth.go, metadata.go),
--                    WellKnown (oauth.go, metadata.go), Form (authorize.go), Handlers with a child for each of
--                    register.go, authorize.go and token.go
--   Proxy            internal/proxy/proxy.go: splitPath and ServeHTTP up to httputil.ReverseProxy
--   Tokencache       internal/tokencache/source.go (lockedToken, refreshGrant, runCmd) and the RoundTrip
--                    of internal/tokencache/tokencache.go: the client's side of access tokens; Files is
--                    the directory of the entries (NormalizeURL, Save, Lookup, Remove, List)
--   Rpc              the JSON-RPC envelope and the event format that Bridge and Stdiofront share
--   Bridge           internal/bridge/bridge.go: handlePost, handleGet, readLoop and the handling of the
--                    child's exit, cut into the pieces between two points where another may run; Steps
--                    is the relation that interleaves them
--   Stdiofront       internal/stdiofront/stdiofront.go: Events (readEvents, dispatch), Requests (request,
--                    post, doPost, reinit, handleLine), Stream (stream), Serve (Serve, scanLines);
--                    Interleaving is request, post and reinit again, as the steps of any number of
--                    goroutines on the shared session; Delivery is about an endpoint that keeps sessions
--   Backoff, Http    the doubling backoff of the two loops; URLs and headers as the program reads them
--   Agent            internal/agent/agent.go: New, the headers of serve, Run with jitter, handleStream
--   Config           internal/config/config.go: LoadDaemon
--   Daemon           cmd/tunneld/main.go (openStore, the kill switch, the janitor), the client address of
--                    internal/server/cloudflare.go and of internal/oauth/register.go
--   Cmd              cmd/mcptunnel and internal/cli: Flags (ParseIntermixed, the header flag), Expose
--                    (expose.go, run.go), Token (token.go), Registry (runToken of token.go,
--                    main.go), Client (cli.go)
--   Router           the muxes of internal/server/server.go, internal/controlplane/controlplane.go and
--                    internal/oauth/oauth.go, with ServeMux as they use it
--   Exposed          the parts of one tunnel together: POST /quick, the agent that expose makes of the
--                    answer, the gateway and the proxy
--   Examples         the theorems at concrete values
--
-- State is passed explicitly: a method takes the state and returns its result beside the new state,
-- also where it fails. A handler of an interface takes store.API as a record, which `sqlite_api` and
-- `d1_api` fill. A method holds its mutex for the whole of what is modelled as one step.
-- Readings of the clock and of the system's randomness are arguments, one for each reading. Times are
-- unix seconds, as the database's columns and the tokens hold them, and backoffs are in milliseconds;
-- strings are sequences of bytes, and TrimSpace and ToLower are those of ASCII text. Loops that wait for
-- the network run over the list of what their turns come to. The other loops of the code are over lists,
-- or, for the ten attempts at a slug, over their number; ParseIntermixed has as many rounds as there are
-- arguments, which is enough where Parse leaves no more arguments than it got.
--
-- Parameters, since their code is not part of the repository: bcrypt, the crypto and encoding packages
-- (Crypto, with IsCrypto for their documented behaviour), url and IP parsing (Web), Cloudflare's D1
-- endpoint (IsD1), websocket and yamux, the JSON decoders, the flag package, the file system's calls, and
-- the upstream servers and child processes, whose answers are readings.
--
-- Not modelled: the pragmas of the database (its statements work as with foreign keys enforced, which
-- the DSN of Open asks for), HTTP transport and the reverse proxy, the JWKS
-- document, the start of the child process and its standard error, the declaration of flags,
-- what usage errors and expose print, listeners and signals.
pub mod Prelude
pub mod Sql
pub mod Schema
pub mod Act
pub mod Store
pub mod Driver
pub mod Sqlite
pub mod D1
pub mod ControlPlane
pub mod Gateway
pub mod Oauth
pub mod Proxy
pub mod Tokencache
pub mod Rpc
pub mod Stdiofront
pub mod Backoff
pub mod Daemon
pub mod Cmd
pub mod Config
pub mod Http
pub mod Agent
pub mod Bridge
pub mod Exposed
pub mod Router
pub mod Examples
