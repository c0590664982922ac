-- ===== src/Router.antt =====
-- NewHandler of internal/server/server.go, and the muxes of internal/controlplane/controlplane.go and of
-- internal/oauth/oauth.go: which handler a request gets. A mux is http.ServeMux, as the code uses it: of
-- the patterns that match, the most specific wins, which here stands before the others; a path without a
-- slash at its end is redirected where only that slash is missing, and one that is not clean is redirected
-- to its clean form. Paths hold no percent signs.
pub mod Segments
pub mod Routes
pub mod Endpoints
use mcptunnels.Prelude.{
  ℕ, Str, lit, Bool, true, false, not, ◌||◌, ◌&&◌, Option, none, some, List, [], ◌∷◌, ◌++◌, ◌==◌,
  is_empty, nat_eq, if◌then◌else◌,
}

-- A segment of a pattern, and a pattern: its method, which is empty for any, and whether it ends in a
-- slash and so takes all paths below it.
pub data Segment : Type 0 where
  literal : Str → Segment
  wildcard : Segment

pub record Pattern : Type 0 where
  pub verb : Str
  pub segments : List Segment
  pub subtree : Bool

abbrev push_char : ℕ → List Str → List Str
push_char c [] = (c ∷ []) ∷ []
push_char c (s ∷ rest) = (c ∷ s) ∷ rest

-- What stands between the slashes of a path, behind its first.
unfoldable pub split_slashes : Str → List Str
split_slashes [] = [] ∷ []
split_slashes (c ∷ s) =
    let rest = split_slashes s in if nat_eq c 47 then [] ∷ rest else push_char c rest

unfoldable pub segments_of : Str → List Str
segments_of [] = []
segments_of (c ∷ path) = split_slashes path

abbrev pub fits_segment : Segment → Str → Bool
fits_segment (literal s) t = t == s
fits_segment wildcard t = not (is_empty t)

-- All of the path, or all of the pattern and at least one more segment of the path.
unfoldable pub fits : List Segment → Bool → List Str → Bool
fits [] subtree [] = not subtree
fits [] subtree (t ∷ ts) = subtree
fits (p ∷ ps) subtree [] = false
fits (p ∷ ps) subtree (t ∷ ts) = fits_segment p t && fits ps subtree ts

abbrev pub fits_method : Str → Str → Bool
fits_method pattern method =
    is_empty pattern || (pattern == method || (pattern == lit "GET" && method == lit "HEAD"))

abbrev pub matches : Str → List Str → Pattern → Bool
matches method ts p = fits_method p.verb method && fits p.segments p.subtree ts

-- The path is the pattern's own, which for a subtree is the one that ends in its slash.
unfoldable pub is_own : List Segment → Bool → List Str → Bool
is_own [] subtree [] = not subtree
is_own [] subtree ([] ∷ []) = subtree
is_own [] subtree ((c ∷ t) ∷ ts) = false
is_own [] subtree ([] ∷ (t ∷ ts)) = false
is_own (p ∷ ps) subtree [] = false
is_own (p ∷ ps) subtree (t ∷ ts) = is_own ps subtree ts

pub data Dispatch (A : Type 0) : Type 0 where
  handled : A → Dispatch A
  -- to the same path with a slash at its end, or to the clean path
  redirected : Dispatch A
  -- 404, or 405 where only the method does not fit
  refused : Dispatch A

abbrev pub ends_in_slash : List Str → Bool
ends_in_slash [] = false
ends_in_slash (t ∷ []) = is_empty t
ends_in_slash (t ∷ (u ∷ ts)) = ends_in_slash (u ∷ ts)

-- Neither empty, nor a name of this directory or of the one above it.
unfoldable pub is_plain : Str → Bool
is_plain t = not (is_empty t || (t == lit "." || t == lit ".."))

-- What cleanPath leaves as it is: only the last segment may be empty.
unfoldable pub is_clean : List Str → Bool
unfolding is_plain
is_clean [] = true
is_clean (t ∷ []) = is_empty t || is_plain t
is_clean (t ∷ (u ∷ ts)) = is_plain t && is_clean (u ∷ ts)

module _ {A : Type 0} where
  unfoldable pub first_match : Str → List Str → List (Pattern × A) → Option (Pattern × A)
  first_match method ts [] = none
  first_match method ts ((p, a) ∷ rest) =
      let later = first_match method ts rest in if matches method ts p then some (p, a) else later

  abbrev pub own_match : List Str → Option (Pattern × A) → Bool
  own_match ts none = false
  own_match ts (some (p, a)) = is_own p.segments p.subtree ts

  abbrev pub handled_by : Option (Pattern × A) → Dispatch A
  handled_by none = refused
  handled_by (some (p, a)) = handled a

  -- ServeMux on a clean path.
  unfoldable pub matched : List (Pattern × A) → Str → Str → Dispatch A
  unfolding segments_of
  matched mux method path =
      let ts = segments_of path in
      let found = first_match method ts mux in
      let slashed = ts ++ ([] ∷ []) in
      if not (own_match ts found)
        && not (ends_in_slash ts)
        && own_match slashed (first_match method slashed mux)
      then redirected
      else handled_by found

  -- ServeMux, which cleans the path of every method but CONNECT.
  unfoldable pub dispatch : List (Pattern × A) → Str → Str → Dispatch A
  unfolding matched segments_of is_clean
  dispatch mux method path =
      if not (method == lit "CONNECT") && not (is_clean (segments_of path))
      then redirected
      else matched mux method path

abbrev any_method : List Segment → Bool → Pattern
any_method segments subtree = record { verb = []; segments = segments; subtree = subtree }

abbrev only : Str → List Segment → Pattern
only verb segments = record { verb = verb; segments = segments; subtree = false }

pub data Handler : Type 0 where
  gateway : Handler
  control_plane : Handler
  public_proxy : Handler
  well_known_documents : Handler
  tenant_servers : Handler
  healthz : Handler
  robots_txt : Handler

-- The mux of NewHandler.
abbrev pub root_mux : List (Pattern × Handler)
root_mux =
    (any_method (literal (lit "tunnel") ∷ literal (lit "connect") ∷ []) false, gateway)
    ∷ (any_method (literal (lit "api") ∷ literal (lit "v1") ∷ []) true, control_plane)
    ∷ (any_method (literal (lit "t") ∷ wildcard ∷ literal (lit "s") ∷ []) true, public_proxy)
    ∷ (any_method (literal (lit ".well-known") ∷ []) true, well_known_documents)
    ∷ (any_method (literal (lit "t") ∷ []) true, tenant_servers)
    ∷ (only (lit "GET") (literal (lit "healthz") ∷ []), healthz)
    ∷ (only (lit "GET") (literal (lit "robots.txt") ∷ []), robots_txt)
    ∷ []

pub data QuickHandler : Type 0 where
  quick : QuickHandler
  delete : QuickHandler

-- The mux of the control plane.
abbrev pub quick_mux : List (Pattern × QuickHandler)
quick_mux =
    (
      only (lit "POST") (literal (lit "api") ∷ literal (lit "v1") ∷ literal (lit "quick") ∷ []),
      quick,
    )
    ∷ (
      only (lit "DELETE")
          (literal (lit "api") ∷ literal (lit "v1") ∷ literal (lit "quick") ∷ wildcard ∷ []),
      delete,
    )
    ∷ []

pub data TenantHandler : Type 0 where
  authorizing : TenantHandler
  exchanging : TenantHandler
  registering : TenantHandler
  key_set : TenantHandler
  describing : TenantHandler

-- The mux of a tenant's authorization server.
abbrev pub tenant_mux : List (Pattern × TenantHandler)
tenant_mux =
    (only (lit "GET") (literal (lit "authorize") ∷ []), authorizing)
    ∷ (only (lit "POST") (literal (lit "authorize") ∷ []), authorizing)
    ∷ (only (lit "POST") (literal (lit "token") ∷ []), exchanging)
    ∷ (only (lit "POST") (literal (lit "register") ∷ []), registering)
    ∷ (only (lit "GET") (literal (lit "jwks.json") ∷ []), key_set)
    ∷ (
      only (lit "GET")
          (literal (lit ".well-known") ∷ literal (lit "oauth-authorization-server") ∷ []),
      describing,
    )
    ∷ []
