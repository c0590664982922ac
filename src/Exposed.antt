-- ===== src/Exposed.antt =====
-- The way from `mcptunnel expose` to a request from outside: POST /quick of
-- internal/controlplane/controlplane.go, the agent of internal/agent/agent.go that the command starts with
-- the answer, the gateway of internal/gateway/gateway.go that admits it, and the proxy of
-- internal/proxy/proxy.go. The database is the SQLite store's, and nothing else writes to it on the way.
pub mod Names
use mathlib.Core.List.{append_assoc, append_cancel_left}
use mcptunnels.Prelude.{
  ℕ, Str, lit, Bool, true, false, not, ◌&&◌, ◌||◌, Option, none, some, List, [], ◌∷◌, ◌++◌, ◌≡◌,
  refl, sym, ap, ◌∙◌, arith, is_empty, find, Option-cases, Bool-cases, inl, inr, eq_refl, ◌==◌,
  if◌then◌else◌, Lacks, trim_right, trim_end, cut_prefix, trim_prefix, has_prefix,
}
use mcptunnels.Act.{ok}
use mcptunnels.Driver.{Db}
use mcptunnels.Store.{Bcrypt, Service}
use mcptunnels.Http.{Url}
use mcptunnels.Sqlite.{sqlite_api, validate_agent_key, agent_key_of, get_service}
use mcptunnels.Sqlite.Queries.{IsHealthy, get_service_lem, to_service}
use mcptunnels.Sqlite.Services.{validate_agent_key_read}
use mcptunnels.Sql.Run.{is_service}
use mcptunnels.ControlPlane.{
  QuickRequest, Environment, created, handle_quick, quick_slug, bearer_key,
}
use mcptunnels.ControlPlane.Quick.{wants_auth, handle_quick_lem, handle_quick_created}
use mcptunnels.Cmd.Flags.{http_to_ws}
use mcptunnels.Cmd.Cleanup.{new_of_tunnel}
use mcptunnels.Cmd.Expose.{QuickTunnel, ExposeOpts, agent_config, public_url}
use mcptunnels.Agent.{Config, Client, new, handshake, authorization_header}
use mcptunnels.Gateway.{Gateway, register, connect, ConnectRequest, connected, session_key, dial}
use mcptunnels.Gateway.Access.{connect_admits, dial-register}
use mcptunnels.Gateway.Registry.{session_at-register_self}
use mcptunnels.Oauth.Jwt.{Crypto}
use mcptunnels.Oauth.Server.{Resolver, Making}
use mcptunnels.Proxy.{
  ProxyRequest, forwarded, unauthorized, Outcome, metadata_url, oversized, serve_http, authorize,
  guard,
}
use mcptunnels.Proxy.Guard.{serve_http_answer}
use mcptunnels.Proxy.Path.{path_of, split_path, split_path_rest}
use mcptunnels.Exposed.Names.{
  bearer_key-authorization_header, agent_key_of-NoSpaces, quick_slug-Lacks, quick_slug_full,
}

-- The decoded answer to POST /quick.
abbrev pub answered : Str → Str → QuickTunnel
answered slug key = record { tenant = slug; service = lit "mcp"; agent_key = key }

empty_of : (s : Str) → is_empty s ≡ true → s ≡ []
empty_of [] h = refl
empty_of (c ∷ s) h = ground arith

-- A server's URL without a path: http, or https, and a host; and that of its websockets.
abbrev pub origin : Bool → Str → Str
origin tls host = (if tls then lit "https://" else lit "http://") ++ host

abbrev pub ws_origin : Bool → Str → Str
ws_origin tls host = (if tls then lit "wss://" else lit "ws://") ++ host

http_to_ws-origin : (tls : Bool) (host : Str) → http_to_ws (origin tls host) ≡ ws_origin tls host
unfolding http_to_ws has_prefix trim_prefix cut_prefix
http_to_ws-origin true host = refl
http_to_ws-origin false host = refl

trim_right-Lacks : (host : Str) → Lacks 47 host → trim_right 47 host ≡ host
unfolding trim_right trim_end
trim_right-Lacks [] h = refl
trim_right-Lacks (c ∷ host) h = ground (arith, h.0, trim_right-Lacks host h.1)

trim_right-ws_origin :
    (tls : Bool) (host : Str)
    → Lacks 47 host
    → is_empty host ≡ false
    → trim_right 47 (ws_origin tls host) ≡ ws_origin tls host
unfolding trim_right trim_end
trim_right-ws_origin true host l full = rw (trim_right-Lacks host l, full) refl
trim_right-ws_origin false host l full = rw (trim_right-Lacks host l, full) refl

together :
    (base : Str) (t : QuickTunnel) (rest : Str)
    → base ++ path_of t.tenant t.service rest ≡ public_url base t ++ rest
together base t rest = simp (append_assoc) refl

-- The path of a request to a URL below the announced one is one of the tunnel's paths.
path_below :
    (tls : Bool) (host path rest : Str) (t : QuickTunnel)
    → origin tls host ++ path ≡ public_url (origin tls host) t ++ rest
    → path ≡ path_of t.tenant t.service rest
path_below tls host path rest t h =
    append_cancel_left (origin tls host) path _ (h ∙ sym (together (origin tls host) t rest))

module _ (bcrypt : Bcrypt) (env : Environment) (qreq : QuickRequest) (slug key : Str) (expires : ℕ)
    (db : Db) (healthy : IsHealthy db)
    (made : (handle_quick (sqlite_api bcrypt) bcrypt env qreq db).0
      ≡ created slug key expires) where
  abbrev after : Db
  after = (handle_quick (sqlite_api bcrypt) bcrypt env qreq db).1

  slug_fits : Lacks 47 slug × (is_empty slug ≡ false)
  slug_fits =
      let (_, _, tunnel) = handle_quick_lem bcrypt env qreq slug key expires db healthy made in
      let (_, _, _, _, _, (i, drawn), _, _, _, _) = tunnel in
      rw drawn (quick_slug-Lacks (env.draw i), quick_slug_full (env.draw i))

  key_fits : bearer_key (authorization_header key) ≡ key
  key_fits =
      let (_, _, tunnel) = handle_quick_lem bcrypt env qreq slug key expires db healthy made in
      let (_, _, _, _, _, _, drawn, _, _, _) = tunnel in
      bearer_key-authorization_header key (rw drawn (agent_key_of-NoSpaces env.key_random))

  after-IsHealthy : IsHealthy after
  after-IsHealthy =
      let (_, _, tunnel) = handle_quick_lem bcrypt env qreq slug key expires db healthy made in
      let (_, _, _, _, _, _, _, _, _, holds) = tunnel in holds.2

  -- The tunnel's service, as the gateway and the proxy read it.
  service_there :
      (svc : Service) × (validate_agent_key bcrypt slug (lit "mcp") key after ≡ (ok svc, after))
      × (get_service slug (lit "mcp") after ≡ (ok svc, after))
      × (svc.auth_mode ≡ (if wants_auth bcrypt env qreq.body then lit "oauth" else lit "open"))
  service_there =
      let (_, _, _, (svc, valid, mode, _)) =
        handle_quick_created bcrypt env qreq slug key expires db healthy made in
      let (validated, read) =
        validate_agent_key_read bcrypt slug (lit "mcp") key svc after after-IsHealthy valid in
      (svc, validated, read, mode)

  abbrev asked : ConnectRequest
  asked = record {
    tenant = slug;
    service_name = lit "mcp";
    authorization = authorization_header key;
  }

  asked_admitted :
      (sess : ℕ) (g : Gateway)
      → connect (sqlite_api bcrypt) (some sess) asked after g ≡ (
        connected (session_key slug (lit "mcp")) sess,
        after,
        register (session_key slug (lit "mcp")) sess g,
      )
  asked_admitted sess g =
      let (svc, valid, _, _) = service_there in
      let accepts : validate_agent_key bcrypt slug (lit "mcp")
            (bearer_key (authorization_header key)) after
          ≡ (ok svc, after) =
        rw key_fits valid in
      connect_admits (sqlite_api bcrypt) asked svc sess after after g slug_fits.1 refl accepts

  -- The gateway admits the client that the command makes, and the store stays as it is.
  admitted :
      (c : Client) (sess : ℕ) (g : Gateway)
      → c.tenant ≡ slug
      → c.service ≡ lit "mcp"
      → c.key ≡ key
      → connect (sqlite_api bcrypt) (some sess) (handshake c) after g ≡ (
        connected (session_key slug (lit "mcp")) sess,
        after,
        register (session_key slug (lit "mcp")) sess g,
      )
  admitted c sess g t s k =
      let same : handshake c ≡ asked = rw (t, s, k) refl in
      ap (λ (req : ConnectRequest). connect (sqlite_api bcrypt) (some sess) req after g) same
      ∙ asked_admitted sess g

  module _ {Key : Type 0} (crypto : Crypto Key) (base_url : Str) (making : Making) (now : ℕ) where
    -- From POST /quick to a request from outside, with no driver failure on the way, where the server's
    -- URL is http or https and a host, without a slash behind it. When the server has answered 201 with a
    -- slug and a key, the command makes an agent of the answer: it dials /tunnel/connect at that host under
    -- ws or wss, and with its headers the gateway admits it on the first try, under the tunnel's key, and
    -- from then on Dial opens its streams on that agent's session. A request whose URL is the announced one and a path
    -- below it, with a body within the limit, then reaches that service with just that path where the
    -- tunnel was made without authentication; where it was made with it, a request without a token is
    -- answered with the address of the tunnel's own metadata.
    pub quick_tunnel_reached :
        {Stream : Type 0}
        → (parse_url : Str → Option Url) (tls : Bool) (host upstream : Str) (opts : ExposeOpts)
          (c : Client) (sess : ℕ) (g : Gateway) (opens : ℕ → Option Stream) (req : ProxyRequest)
          (rest : Str) (r : Resolver Db Key)
        → Lacks 47 host
        → is_empty host ≡ false
        → new parse_url (agent_config (origin tls host) (answered slug key) upstream opts) ≡ some c
        → origin tls host ++ req.path
          ≡ public_url (origin tls host) (answered slug key) ++ (47 ∷ rest)
        → oversized req.content_length ≡ false
        → (wants_auth bcrypt env qreq.body && not (is_empty (bearer_key req.authorization))) ≡ false
        → r.store ≡ (connect (sqlite_api bcrypt) (some sess) (handshake c) after g).1
        → let (connection, _, g') = connect (sqlite_api bcrypt) (some sess) (handshake c) after g in
          (c.connect_url ≡ ws_origin tls host ++ lit "/tunnel/connect")
          × (connection ≡ connected (session_key slug (lit "mcp")) sess)
          × (dial opens slug (lit "mcp") g' ≡ opens sess)
          × ((serve_http (sqlite_api bcrypt) crypto base_url making now true req r).0 ≡ (
              if wants_auth bcrypt env qreq.body
              then unauthorized (
                  metadata_url (sqlite_api bcrypt) crypto base_url making now true slug (lit "mcp"))
              else forwarded slug (lit "mcp") (47 ∷ rest)))
    quick_tunnel_reached parse_url tls host upstream opts c sess g opens req rest r plain full h p
          small bare same =
        let (dials, t, s, k) =
          new_of_tunnel parse_url (agent_config (origin tls host) (answered slug key) upstream opts)
            c h in
        let server : trim_right 47 (http_to_ws (origin tls host)) ≡ ws_origin tls host =
          ap (trim_right 47) (http_to_ws-origin tls host)
          ∙ trim_right-ws_origin tls host plain full in
        let joined = admitted c sess g t s k in
        let (svc, _, read, mode) = service_there in
        let path = path_below tls host req.path (47 ∷ rest) (answered slug key) p in
        let split =
          ap split_path path
          ∙ split_path_rest slug (lit "mcp") rest slug_fits.0 (refl, (refl, (refl, tt))) in
        let stored : r.store ≡ after = same ∙ ap (λ o. o.1) joined in
        let found : (get_service slug (lit "mcp") r.store).0 ≡ ok svc =
          rw stored (ap (λ o. o.0) read) in
        let (open_to_all, asks) =
          serve_http_answer (sqlite_api bcrypt) crypto base_url making now req slug (lit "mcp")
            (47 ∷ rest) svc r split slug_fits.1 refl small found in
        (
          dials ∙ ap (λ url. url ++ lit "/tunnel/connect") server,
          ap (λ o. o.0) joined,
          ap (λ o. dial opens slug (lit "mcp") o.2) joined
              ∙ dial-register opens slug (lit "mcp") sess g,
          elim (Bool-cases (wants_auth bcrypt env qreq.body)) [
            | inl w ↦ rw w (
                asks (mode ∙ (rw w refl))
                  (empty_of (bearer_key req.authorization) (ground (arith, w, bare))))
            | inr w ↦ rw w (open_to_all (mode ∙ (rw w refl)))
          ],
        )
