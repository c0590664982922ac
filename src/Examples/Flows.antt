-- ===== src/Examples/Flows.antt =====
-- The authorization-code flow at a concrete client, and the resolver at a concrete tenant.
use mcptunnels.Prelude.{
  ℕ, zero, suc, Str, lit, false, none, some, [], ◌∷◌, ◌++◌, ◌≡◌, ◌≢◌, refl, arith, find, any, keep,
  count, update, ◌==◌, hex_encode, eq_refl,
}
use mcptunnels.Sql.{Tables, ClientRow}
use mcptunnels.Sql.Run.{run, is_service}
use mcptunnels.Sql.Integrity.{IsSound}
use mcptunnels.Act.{ok}
use mcptunnels.Driver.{Db, exec}
use mcptunnels.Store.{Grant}
use mcptunnels.Sqlite.{
  sqlite_api, get_client, get_service, validate_password, check_secret, create_auth_code,
  consume_auth_code,
}
use mcptunnels.Oauth.Jwt.{valid, sign_access_token, signing_input}
use mcptunnels.Oauth.Rate.{IpRate, allow}
use mcptunnels.Oauth.Server.{Server, validate}
use mcptunnels.Oauth.Handlers.{
  Web, AuthorizeRequest, TokenForm, Readings, ahead, token_issued, handle_authorize, handle_token,
}
use mcptunnels.Oauth.Exchange.{Registered, Admits}
use mcptunnels.Oauth.Flow.{form_for, handle_authorize_sound, authorize_then_token}
use mcptunnels.Oauth.Redeem.{Fits, handle_token_sound, handle_token-handle_token}
use mcptunnels.Examples.{simple_bcrypt, acme, acme_tables, mcp_row}
use mcptunnels.Examples.Tokens.{simple_crypto, simple-IsCrypto}

abbrev simple_web : Web
simple_web = record {
  parse_url = λ uri. some (lit "https", lit "client");
  is_loopback = λ host. false;
  write_strings = λ uris. lit "cb";
  read_strings = λ json. some (json ∷ []);
}

abbrev client_row : ClientRow
client_row = record {
  tenant_slug = acme;
  client_id = lit "c";
  redirect_uris = lit "cb";
  created_at = 10;
}

abbrev flow_tables : Tables
flow_tables = record acme_tables {
  services = record mcp_row { password_hash = 1 ∷ lit "pw" } ∷ [];
  oauth_clients = client_row ∷ [];
  auth_codes = [];
}

abbrev flow_db : Db
flow_db = record { tables = flow_tables; faults = [] }

flow-IsSound : IsSound flow_tables
unfolding any
flow-IsSound = ground (arith, eq_refl acme)

abbrev flow_server : Server ℕ
flow_server = record {
  issuer = lit "I";
  base_url = lit "h";
  tenant = acme;
  signing_key = 5;
  expires_at = 500;
}

abbrev flow_request : AuthorizeRequest
flow_request = record {
  client_id = lit "c";
  redirect_uri = lit "cb";
  response_type = lit "code";
  code_challenge = simple_crypto.encode (lit "v");
  challenge_method = lit "S256";
  req_state = lit "s";
  password = lit "pw";
}

abbrev flow_code : Str
flow_code = lit "07"

handle_authorize_sound_example :
    (lit "code" ≡ lit "code")
    × (lit "S256" ≡ lit "S256")
    × (simple_crypto.encode (lit "v") ≢ [])
    × (lit "cb" ≡ lit "cb")
    × Registered simple_bcrypt simple_web simple_crypto flow_server flow_request flow_db
    × Admits simple_bcrypt simple_web simple_crypto flow_server
        (lit "pw")
        (find (is_service acme (lit "mcp")) flow_tables.services)
unfolding handle_authorize get_client get_service validate_password create_auth_code exec run keep
    any check_secret ◌==◌ hex_encode
handle_authorize_sound_example =
    handle_authorize_sound simple_bcrypt simple_web simple_crypto flow_server flow_request (7 ∷ [])
      40 flow_db (lit "cb") flow_code (lit "s") refl refl

abbrev idle : IpRate
idle = record { hits = []; reset = 1000 }

abbrev readings : Readings
readings = record {
  rate_time = 60;
  use_time = 60;
  sign_time = 60;
  until_time = 60;
  jti = [];
  sign_random = [];
}

abbrev zeros : ℕ → Str
zeros zero = []
zeros (suc n) = 0 ∷ zeros n

abbrev quick_payload : Str
quick_payload =
    500 ∷ 1 ∷ lit "I" ++ (12 ∷ lit "quick-tunnel" ++ (1 ∷ lit "c" ++ (3 ∷ lit "mcp" ++ lit "I")))

abbrev flow_token : Str
flow_token =
    (simple_crypto.encode (lit "h") ++ b'.' ∷ simple_crypto.encode quick_payload)
    ++ b'.' ∷ simple_crypto.encode (5 ∷ zeros 63)

authorize_then_token_example :
    let after =
      (handle_authorize
        (sqlite_api simple_bcrypt)
        simple_web
        simple_crypto
        flow_server
        flow_request
        (7 ∷ [])
        40
        flow_db).1 in
    ((handle_token
        (sqlite_api simple_bcrypt)
        simple_crypto
        flow_server
        readings
        (lit "a")
        (some (
          form_for simple_bcrypt simple_web simple_crypto flow_server flow_request flow_code
            (lit "v")))
        idle
        after).0
      ≡ token_issued flow_token (ahead 440))
    × (validate simple_crypto flow_server 400 flow_token
        ≡ valid (record {
          issuer = lit "I";
          subject = lit "quick-tunnel";
          client_id = lit "c";
          scope = lit "mcp";
          audience = lit "I" ∷ [];
          expires_at = 500;
        }))
unfolding handle_authorize get_client get_service validate_password create_auth_code exec run keep
    any check_secret ◌==◌ hex_encode allow sign_access_token signing_input
authorize_then_token_example =
    authorize_then_token simple_bcrypt simple_web simple_crypto flow_server simple-IsCrypto
      flow_request (7 ∷ []) 40 flow_db (lit "cb") flow_code (lit "s") (lit "a") (lit "v") flow_token
      idle readings 400 refl refl (ground arith) refl refl refl refl refl refl (ground arith)

-- The database with the digest of the code "07" in place, for the same client.
abbrev code_db : Db
code_db = record {
  tables = record flow_tables {
    auth_codes =
        record {
          code_hash = lit "3037";
          tenant_slug = acme;
          client_id = lit "c";
          redirect_uri = lit "cb";
          code_challenge = simple_crypto.encode (lit "v");
          expires_at = 100;
          used_at = none;
        }
        ∷ [];
  };
  faults = [];
}

abbrev flow_form : TokenForm
flow_form =
    form_for simple_bcrypt simple_web simple_crypto flow_server flow_request flow_code (lit "v")

handle_token_sound_example :
    (g : Grant) × ((consume_auth_code (hex_encode flow_code) 60 code_db).0 ≡ ok g)
    × Fits simple_crypto flow_server readings flow_form g
    × ((handle_token
          (sqlite_api simple_bcrypt)
          simple_crypto
          flow_server
          readings
          (lit "a")
          (some flow_form)
          idle
          code_db).2
        ≡ (consume_auth_code (hex_encode flow_code) 60 code_db).1)
unfolding handle_token consume_auth_code exec run keep count update ◌==◌ hex_encode allow
    sign_access_token signing_input
handle_token_sound_example =
    handle_token_sound simple_crypto flow_server readings simple_bcrypt (lit "a") flow_token
      flow_form (ahead 440) idle code_db refl

code-IsSound : IsSound code_db.tables
unfolding any
code-IsSound = ground (arith, eq_refl acme)

handle_token-handle_token_example :
    (handle_token
      (sqlite_api simple_bcrypt)
      simple_crypto
      flow_server
      readings
      (lit "b")
      (some flow_form)
      idle
      (handle_token
        (sqlite_api simple_bcrypt)
        simple_crypto
        flow_server
        readings
        (lit "a")
        (some flow_form)
        idle
        code_db).2).0
    ≢ token_issued flow_token (ahead 440)
unfolding handle_token consume_auth_code exec run keep count update ◌==◌ hex_encode allow
    sign_access_token signing_input
handle_token-handle_token_example =
    handle_token-handle_token simple_bcrypt simple_crypto flow_server flow_server readings readings
      (lit "a") (lit "b") flow_token flow_token flow_form flow_form (ahead 440) (ahead 440) idle
      idle code_db code-IsSound refl refl
