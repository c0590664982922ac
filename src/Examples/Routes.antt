-- ===== src/Examples/Routes.antt =====
-- The paths of the tenant "acme" and of its service "mcp".
use mcptunnels.Prelude.{lit, find, ◌==◌, ◌≡◌, ◌++◌, refl, arith, All}
use mcptunnels.Agent.{connect_path}
use mcptunnels.Proxy.Path.{path_of}
use mcptunnels.Proxy.Discovery.{service_path}
use mcptunnels.Sqlite.{sqlite_api}
use mcptunnels.Oauth.Server.{server}
use mcptunnels.Router.{
  dispatch, handled, is_plain, is_clean, split_slashes, root_mux, gateway, public_proxy,
  well_known_documents, control_plane, quick_mux, quick, delete,
}
use mcptunnels.Router.Routes.{own_paths}
use mcptunnels.Router.Endpoints.{Arrives, advertised, advertised-Arrives}
use mcptunnels.Examples.{simple_bcrypt, acme}
use mcptunnels.Examples.Tokens.{simple_crypto}
use mcptunnels.Examples.Resolvers.{no_making, built, resolver}

own_paths_example :
    (dispatch root_mux (lit "PUT") connect_path ≡ handled gateway)
    × (dispatch root_mux (lit "PUT") (service_path acme (lit "mcp")) ≡ handled public_proxy)
    × (dispatch root_mux (lit "PUT") (path_of acme (lit "mcp") (lit "/sse")) ≡ handled public_proxy)
    × (dispatch root_mux
          (lit "PUT")
          (lit "/.well-known/oauth-protected-resource" ++ service_path acme (lit "mcp"))
        ≡ handled well_known_documents)
    × ((dispatch root_mux (lit "POST") (lit "/api/v1/quick") ≡ handled control_plane)
        × (dispatch quick_mux (lit "POST") (lit "/api/v1/quick") ≡ handled quick))
    × ((dispatch root_mux (lit "DELETE") (lit "/api/v1/quick/" ++ acme) ≡ handled control_plane)
        × (dispatch quick_mux (lit "DELETE") (lit "/api/v1/quick/" ++ acme) ≡ handled delete))
unfolding is_plain is_clean split_slashes ◌==◌
own_paths_example =
    own_paths (lit "PUT") acme (lit "mcp") (lit "sse") (ground arith) refl (ground arith) refl refl

advertised-Arrives_example :
    All
      (Arrives
        (sqlite_api simple_bcrypt)
        simple_crypto
        (lit "h")
        acme
        no_making
        resolver
        resolver
        built)
      (advertised built)
unfolding server find ◌==◌ is_plain
advertised-Arrives_example =
    advertised-Arrives (sqlite_api simple_bcrypt) simple_crypto (lit "h") acme no_making resolver
      resolver built (ground arith) refl refl refl
