-- ===== src/ControlPlane.antt =====
-- internal/controlplane/controlplane.go: the handlers of /api/v1/quick over any store.API. What the
-- net and json packages make of the request, the readings of the clock, the random bytes and the
-- generated signing key are in the request's environment.
pub mod Tunnel
pub mod Quick
pub mod Counting
pub mod Attempts
pub mod Limits
pub mod Deletion
use mcptunnels.Prelude.{
  ℕ, zero, suc, ◌+◌, ◌*◌, ◌%◌, Str, String, lit, Bool, true, false, not, ◌&&◌, ◌||◌, Option, none,
  some, List, [], ◌∷◌, ◌++◌, map, is_empty, if◌then◌else◌, leb, trim_space, trim_prefix,
}
use mcptunnels.Act.{Act, Result, ok, err, Error, already_exists}
use mcptunnels.Store.{Service, Bcrypt, Api}
use mcptunnels.Sqlite.{hash_secret}

abbrev pub quick_ttl : ℕ
quick_ttl = 24 * 3600

abbrev pub quick_rate_limit : ℕ
quick_rate_limit = 10

abbrev pub max_live_tunnels : ℕ
max_live_tunnels = 500

-- The body of POST /quick: not read (ContentLength is not positive), refused by the decoder, or its
-- `auth` and `password`.
pub data Body : Type 0 where
  no_body : Body
  bad_json : Body
  decoded : Option Bool → Str → Body

pub record QuickRequest : Type 0 where
  pub remote_addr : Str
  pub body : Body

-- What the handler reads beside the request: net.SplitHostPort of an address, the clock at each
-- reading, the i-th draw of ten random bytes, the bytes and salts of the keys, and the signing key.
pub record Environment : Type 0 where
  pub split_host : Str → Option Str
  pub rate_time : ℕ
  pub count_time : ℕ
  pub expiry_time : ℕ
  pub tenant_time : ℕ
  pub service_time : ℕ
  pub key_time : ℕ
  pub draw : ℕ → Str
  pub password_salt : Str
  pub key_random : Str
  pub key_salt : Str
  pub generated_pem : Option Str

pub data Response : Type 0 where
  json_error : ℕ → String → Response
  created : Str → Str → ℕ → Response
  no_content : Response

abbrev pub quick_slug_alphabet : Str
quick_slug_alphabet = lit "abcdefghijklmnopqrstuvwxyz0123456789"

abbrev pub byte_at : Str → ℕ → ℕ
byte_at [] i = 0
byte_at (c ∷ s) zero = c
byte_at (c ∷ s) (suc i) = byte_at s i

unfoldable pub quick_slug : Str → Str
quick_slug bytes = lit "q-" ++ map (λ b. byte_at quick_slug_alphabet (b % 36)) bytes

module _ {S : Type 0} (api : Api S) (bcrypt : Bcrypt) (env : Environment) where
  abbrev pub remote_ip : Str → Str
  remote_ip addr = elim (env.split_host addr) [ none ↦ addr | some ip ↦ ip ]

  -- A store error lets the request pass.
  unfoldable pub allow_quick : Str → S → Bool × S
  allow_quick addr s =
      let (r, s') = api.quick_rate_hit (remote_ip addr) env.rate_time s in
      (elim r [ err e ↦ true | ok n ↦ leb n quick_rate_limit ], s')

  -- `tries` attempts are left; the next draw is number `i`.
  unfoldable pub create_quick_tenant : ℕ → ℕ → ℕ → Act S Str
  create_quick_tenant zero i expires s = (err already_exists, s)
  create_quick_tenant (suc tries) i expires s =
      let slug = quick_slug (env.draw i) in
      let (r, s') =
        api.create_tenant_expiry slug (lit "quick tunnel") (some expires) env.tenant_time s in
      let again = create_quick_tenant tries (i + 1) expires s' in
      elim r [ ok u ↦ (ok slug, s') | err already_exists ↦ again | err e ↦ (err e, s') ]

  abbrev pub store_error : Response
  store_error = json_error 500 "store error"

  -- The signing key, where the tunnel has OAuth, and the answer.
  unfoldable pub finish_quick : Bool → Str → Str → ℕ → S → Response × S
  finish_quick false slug key expires s = (created slug key expires, s)
  finish_quick true slug key expires s = elim env.generated_pem [
    | none ↦ (json_error 500 "key generation failed", s)
    | some pem ↦
        let (r, s') = api.create_signing_key slug pem env.key_time s in
        elim r [ err e ↦ (store_error, s') | ok u ↦ (created slug key expires, s') ]
  ]

  abbrev mcp_service : Bool → Str → Service
  mcp_service auth hash = record {
    name = lit "mcp";
    agent_key_hash = [];
    auth_mode = if auth then lit "oauth" else lit "open";
    password_hash = hash;
    created_at = 0;
  }

  -- The service of a tenant just made, with the hash of the authorize password.
  unfoldable pub add_service : Bool → Str → Str → ℕ → S → Response × S
  unfolding finish_quick
  add_service auth hash slug expires s =
      let (r, s') =
        api.create_service env.key_random env.key_salt slug (mcp_service auth hash) env.service_time
          s in
      let rest = λ (key : Str). finish_quick auth slug key expires s' in
      elim r [ err e ↦ (store_error, s') | ok key ↦ rest key ]

  -- An empty password is not hashed.
  abbrev password_hash : Bool → Str → Result Str
  password_hash auth password =
      if auth && not (is_empty password)
      then hash_secret bcrypt env.password_salt password
      else ok []

  unfoldable pub create_tunnel : Bool → Str → S → Response × S
  unfolding add_service create_quick_tenant
  create_tunnel auth password s =
      let expires = env.expiry_time + quick_ttl in
      let (r, s') = create_quick_tenant 10 0 expires s in
      let hash = password_hash auth password in
      let rest = λ (slug : Str) (h : Str). add_service auth h slug expires s' in
      elim r [
        | err e ↦ (store_error, s')
        | ok slug ↦ elim hash [ err e ↦ (json_error 500 "hash error", s') | ok h ↦ rest slug h ]
      ]

  abbrev checked_tunnel : Bool → Str → S → Response × S
  checked_tunnel auth password s =
      if auth && is_empty password
      then (json_error 400 "password is required when auth is enabled", s)
      else create_tunnel auth password s

  abbrev or_true : Option Bool → Bool
  or_true none = true
  or_true (some b) = b

  -- The handler from the parsing of the body on.
  unfoldable pub read_body : Body → S → Response × S
  unfolding create_tunnel
  read_body no_body s = checked_tunnel true [] s
  read_body bad_json s = (json_error 400 "invalid JSON body", s)
  read_body (decoded auth password) s = checked_tunnel (or_true auth) password s

  unfoldable pub within_capacity : Body → S → Response × S
  unfolding read_body
  within_capacity body s =
      let (live, s') = api.count_live_tenants env.count_time s in
      let rest = read_body body s' in
      elim live [
        | err e ↦ (store_error, s')
        | ok n ↦
            if leb max_live_tunnels n
            then (json_error 503 "service at capacity, try again later", s')
            else rest
      ]

  unfoldable pub handle_quick : QuickRequest → S → Response × S
  unfolding within_capacity allow_quick
  handle_quick req s =
      let (allowed, s') = allow_quick req.remote_addr s in
      let rest = within_capacity req.body s' in
      if allowed
      then rest
      else (json_error 429 "quick tunnel rate limit exceeded; try again later", s')

-- DELETE /api/v1/quick/{tenant} with its two headers.
pub record DeleteRequest : Type 0 where
  pub tenant : Str
  pub service_name : Str
  pub authorization : Str

unfoldable pub bearer_key : Str → Str
unfolding trim_space trim_prefix
bearer_key header = trim_space (trim_prefix (lit "Bearer ") header)

module _ {S : Type 0} (api : Api S) where
  abbrev deleted_response : Result Bool → Response
  deleted_response (err e) = json_error 500 "store error"
  deleted_response (ok false) = json_error 404 "tenant not found"
  deleted_response (ok true) = no_content

  unfoldable pub handle_delete : DeleteRequest → S → Response × S
  unfolding bearer_key
  handle_delete req s =
      let key = bearer_key req.authorization in
      let (valid, s') = api.validate_agent_key req.tenant req.service_name key s in
      let (gone, s'') = api.delete_tenant req.tenant s' in
      if is_empty req.service_name || is_empty key
      then (json_error 401 "X-Service-Name and Authorization: Bearer <agent_key> are required", s)
      else elim valid [
        | err e ↦ (json_error 401 "invalid agent key", s')
        | ok svc ↦ (deleted_response gone, s'')
      ]
