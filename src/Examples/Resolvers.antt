-- ===== src/Examples/Resolvers.antt =====
-- The theorems on the resolver, on the discovery of a tenant's server and on client addresses at concrete values.
use mcptunnels.Oauth.Handlers.{AuthorizeRequest}
use mcptunnels.Oauth.Form.{outside, password_page, outside-password_page}
use mcptunnels.Prelude.{
  Str, false, Lacks, Bool-cases, inl, inr, nat_eq, if◌then◌else◌, ℕ, lit, true, some, [], ◌∷◌, ◌++◌,
  ◌≡◌, refl, arith, find, ◌==◌,
}
use mcptunnels.Driver.{Db}
use mcptunnels.Sqlite.{sqlite_api}
use mcptunnels.Oauth.Server.{Server, Resolver, Making, server}
use mcptunnels.Oauth.WellKnown.{protected_resource, well_known}
use mcptunnels.Proxy.{metadata_url}
use mcptunnels.Proxy.Discovery.{service_path, well_known-metadata_url}
use mcptunnels.ControlPlane.{Environment}
use mcptunnels.Daemon.{Net}
use mcptunnels.Examples.{simple_bcrypt, acme, acme_db}
use mcptunnels.Examples.Tokens.{simple_crypto}
use mcptunnels.Examples.Tunnels.{noon}

abbrev pub no_making : Making
no_making = record { generated_pem = some (lit "key"); key_time = 20; fallback_time = 30 }

abbrev pub built : Server ℕ
built = record {
  issuer = lit "h/t/acme";
  base_url = lit "h";
  tenant = acme;
  signing_key = 5;
  expires_at = 1000;
}

-- A resolver that has made the server.
abbrev pub resolver : Resolver Db ℕ
resolver = record { store = acme_db; servers = record { slug = acme; server = built } ∷ [] }

well_known-metadata_url_example :
    let path = lit "/.well-known/oauth-protected-resource" ++ service_path acme (lit "mcp") in
    (metadata_url
        (sqlite_api simple_bcrypt)
        simple_crypto
        (lit "h")
        no_making
        40
        true
        acme
        (lit "mcp")
      ≡ lit "h" ++ path)
    × (well_known (sqlite_api simple_bcrypt) simple_crypto (lit "h") path no_making resolver ≡ (
      protected_resource (lit "h" ++ service_path acme (lit "mcp")) (lit "h/t/acme"),
      resolver,
    ))
unfolding server find ◌==◌
well_known-metadata_url_example =
    well_known-metadata_url (sqlite_api simple_bcrypt) simple_crypto (lit "h") no_making 40 true
      acme (lit "mcp") resolver resolver built (ground arith) refl

abbrev bare_net : Net
bare_net = record { split_host = λ s. some s; join_host = λ host. host; parse_ip = λ s. some s }

-- Noon, with a parser of addresses that takes any for its host.
abbrev behind : Environment
behind = record noon { split_host = λ s. some s }

-- An escape that leaves double quotes out.
unquoted : Str → Str
unquoted [] = []
unquoted (c ∷ s) = let rest = unquoted s in if nat_eq c 34 then rest else c ∷ rest

unquoted-Lacks : (s : Str) → Lacks 34 (unquoted s)
unfolding unquoted
unquoted-Lacks [] = ground arith
unquoted-Lacks (c ∷ s) = elim (Bool-cases (nat_eq c 34)) [
  | inl e ↦ rw e (unquoted-Lacks s)
  | inr e ↦ rw e (e, unquoted-Lacks s)
]

abbrev hostile : AuthorizeRequest
hostile = record {
  client_id = lit "c\"><script>";
  redirect_uri = lit "https://c";
  response_type = lit "code";
  code_challenge = lit "x";
  challenge_method = lit "S256";
  req_state = lit "\" onload=\"";
  password = [];
}

abbrev harmless : AuthorizeRequest
harmless = record hostile { client_id = lit "c"; req_state = [] }

outside-password_page_example :
    outside false (password_page unquoted true hostile)
    ≡ outside false (password_page unquoted true harmless)
outside-password_page_example = outside-password_page unquoted unquoted-Lacks true hostile harmless
