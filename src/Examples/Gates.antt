-- ===== src/Examples/Gates.antt =====
-- The theorems on tokens, on the authorization server, on the proxy and on the gateway at concrete requests.
use mcptunnels.Prelude.{
  ℕ, zero, suc, ◌+◌, ◌<◌, Str, lit, true, false, some, [], ◌∷◌, ◌++◌, ◌≡◌, ◌≢◌, ◌⊎◌, refl, arith,
  find, keep, count, ◌==◌, length, ltb,
}
use mcptunnels.Oauth.Jwt.{
  sign_access_token, validate_access_token, split_jwt, AccessClaims, signing_input,
}
use mcptunnels.Sql.{ServiceRow, Tables}
use mcptunnels.Sql.Run.{run, is_service}
use mcptunnels.Act.{ok}
use mcptunnels.Driver.{Db, exec}
use mcptunnels.Store.{Service}
use mcptunnels.Sqlite.{sqlite_api, get_service, validate_agent_key}
use mcptunnels.Oauth.Server.{Server, Resolver, Making, server}
use mcptunnels.Sqlite.Queries.{to_service}
use mcptunnels.Oauth.Rate.{allow, allow_all, hits_of, came_from, allow-allow_all}
use mcptunnels.Proxy.Path.{split_path}
use mcptunnels.Proxy.{ProxyRequest, forwarded, serve_http, oversized}
use mcptunnels.Proxy.Guard.{Authorized, serve_http_forwarded}
use mcptunnels.Gateway.{Gateway, ConnectRequest, connect, dial, session_key, session_at}
use mcptunnels.Gateway.Access.{connect_sound}
use mcptunnels.Gateway.Registry.{started, ended, perform_all, serving_all, session_at-perform_all}
use mcptunnels.ControlPlane.{bearer_key}
use mcptunnels.Examples.{simple_bcrypt, acme, mcp_row, acme_db, acme_tables}
use mcptunnels.Oauth.Tokens.{validate_access_token_sound}
use mcptunnels.Proxy.Admission.{serve_http-sign_access_token}
use mcptunnels.Examples.Tokens.{simple_crypto, simple-IsCrypto}

abbrev zeros : ℕ → Str
zeros zero = []
zeros (suc n) = 0 ∷ zeros n

abbrev signed : Str
signed =
    (simple_crypto.encode (lit "h")
      ++ b'.' ∷ simple_crypto.encode (90 ∷ 1 ∷ 73 ∷ 1 ∷ 83 ∷ 1 ∷ 67 ∷ 1 ∷ 80 ∷ 73 ∷ []))
    ++ b'.' ∷ simple_crypto.encode (5 ∷ zeros 63)

abbrev accepted : AccessClaims
accepted = record {
  issuer = lit "I";
  subject = lit "S";
  client_id = lit "C";
  scope = lit "P";
  audience = lit "I" ∷ [];
  expires_at = 90;
}

validate_access_token_sound_example :
    (head : Str) × (payload : Str) × (signature : Str) × (sig : Str) × (split_jwt signed
      ≡ some (head, payload, signature))
    × (simple_crypto.decode signature ≡ some sig)
    × (length sig ≡ 64)
    × (simple_crypto.verify 5 (simple_crypto.sha256 (head ++ b'.' ∷ payload)) sig ≡ true)
    × (lit "I" ≡ lit "I")
    × (80 < 90)
unfolding validate_access_token ◌==◌
validate_access_token_sound_example =
    validate_access_token_sound simple_crypto 5 (lit "I") 80 signed accepted refl

allow-allow_all_example :
    (allow (lit "a") 2 30 (
      allow_all 2
        (record { from = lit "a"; at = 10 } ∷ record { from = lit "b"; at = 20 } ∷ [])
        (record { hits = []; reset = 100 }))).0
    ≡ ltb
        (hits_of (lit "a") []
          + count
              (came_from (lit "a"))
              (record { from = lit "a"; at = 10 } ∷ record { from = lit "b"; at = 20 } ∷ []))
        2
allow-allow_all_example =
    allow-allow_all (lit "a") 2 30
      (record { from = lit "a"; at = 10 } ∷ record { from = lit "b"; at = 20 } ∷ [])
      (record { hits = []; reset = 100 }) (ground arith, (ground arith, tt)) (ground arith)

abbrev pub no_making : Making
no_making = record { generated_pem = some (lit "pem"); key_time = 20; fallback_time = 20 }

abbrev fresh : Resolver Db ℕ
fresh = record { store = acme_db; servers = [] }

abbrev acme_server : Server ℕ
acme_server = record {
  issuer = lit "h/t/acme";
  base_url = lit "h";
  tenant = acme;
  signing_key = 5;
  expires_at = 1000;
}

abbrev open_request : ProxyRequest
open_request = record {
  path = lit "/t/acme/s/mcp/sse";
  content_length = some 12;
  authorization = [];
}

serve_http_forwarded_example :
    (split_path (lit "/t/acme/s/mcp/sse") ≡ (acme, lit "mcp", lit "/sse"))
    × (oversized (some 12) ≡ false)
    × ((svc : Service) × ((get_service acme (lit "mcp") acme_db).0 ≡ ok svc)
        × ((svc.auth_mode ≢ lit "oauth")
            ⊎ Authorized
                (sqlite_api simple_bcrypt)
                simple_crypto
                (lit "h")
                no_making
                20
                acme
                []
                (record fresh { store = (get_service acme (lit "mcp") acme_db).1 })))
unfolding serve_http exec run keep ◌==◌ get_service
serve_http_forwarded_example =
    serve_http_forwarded (sqlite_api simple_bcrypt) simple_crypto (lit "h") no_making 20
      open_request fresh acme (lit "mcp") (lit "/sse") refl

abbrev guarded_row : ServiceRow
guarded_row = record mcp_row { auth_mode = lit "oauth" }

abbrev guarded_tables : Tables
guarded_tables = record acme_tables { services = guarded_row ∷ [] }

-- The service behind OAuth, and a resolver that has made the tenant's server.
abbrev guarded : Resolver Db ℕ
guarded = record {
  store = record { tables = guarded_tables; faults = [] };
  servers = record { slug = acme; server = acme_server } ∷ [];
}

abbrev admitting : Str
admitting =
    (simple_crypto.encode (lit "h")
      ++ b'.'
        ∷ simple_crypto.encode
            (90 ∷ 8 ∷ lit "h/t/acme" ++ (1 ∷ 83 ∷ 1 ∷ 67 ∷ 1 ∷ 80 ∷ lit "h/t/acme")))
    ++ b'.' ∷ simple_crypto.encode (5 ∷ zeros 63)

abbrev bearing : ProxyRequest
bearing = record open_request { authorization = lit "Bearer " ++ admitting }

serve_http-sign_access_token_example :
    (serve_http
      (sqlite_api simple_bcrypt)
      simple_crypto
      (lit "h")
      no_making
      80
      true
      bearing
      guarded).0
    ≡ forwarded acme (lit "mcp") (lit "/sse")
unfolding serve_http sign_access_token signing_input exec run keep ◌==◌ get_service server find
serve_http-sign_access_token_example =
    serve_http-sign_access_token (sqlite_api simple_bcrypt) simple_crypto (lit "h") no_making 80
      simple-IsCrypto bearing (to_service guarded_row) acme_server guarded guarded acme (lit "mcp")
      (lit "/sse") (lit "S") (lit "C") (lit "P") [] [] [] admitting 90 10 refl refl refl refl refl
      refl refl refl refl

abbrev pub bare : Gateway
bare = record { sessions = []; closed = [] }

abbrev agent_request : ConnectRequest
agent_request = record { tenant = acme; service_name = lit "mcp"; authorization = lit "Bearer key" }

connect_sound_example :
    let after = (connect (sqlite_api simple_bcrypt) (some 3) agent_request acme_db bare).2 in
    ((r : ServiceRow) × (find (is_service acme (lit "mcp")) acme_tables.services ≡ some r)
      × (simple_bcrypt.compare_hash r.agent_key_hash (bearer_key (lit "Bearer key")) ≡ true))
    × (dial (λ n. some (n ∷ [])) acme (lit "mcp") after ≡ some (3 ∷ []))
    × ((dial (λ n. some (n ∷ [])) (lit "beta") (lit "mcp") after
          ≡ dial (λ n. some (n ∷ [])) (lit "beta") (lit "mcp") bare)
        ⊎ (lit "beta" ≡ acme) × (lit "mcp" ≡ lit "mcp"))
unfolding connect validate_agent_key exec run keep ◌==◌
connect_sound_example =
    connect_sound simple_bcrypt (some 3) agent_request acme_db bare (λ n. some (n ∷ []))
      (session_key acme (lit "mcp")) 3 (lit "beta") (lit "mcp") refl
      (refl, (refl, (refl, (refl, tt)))) (refl, (refl, (refl, (refl, tt))))

session_at-perform_all_example :
    session_at
      (lit "k")
      (perform_all (started (lit "k") 1 ∷ started (lit "k") 2 ∷ ended (lit "k") 1 ∷ []) bare)
    ≡ serving_all
        (lit "k")
        (started (lit "k") 1 ∷ started (lit "k") 2 ∷ ended (lit "k") 1 ∷ [])
        (session_at (lit "k") bare)
session_at-perform_all_example =
    session_at-perform_all (lit "k")
      (started (lit "k") 1 ∷ started (lit "k") 2 ∷ ended (lit "k") 1 ∷ []) bare
