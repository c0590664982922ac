-- ===== src/Router/Routes.antt =====
-- The URLs that the program itself hands out or calls, and the handlers that get them.
use mcptunnels.Prelude.{
  Str, lit, true, false, ◌∙◌, if◌then◌else◌, [], ◌∷◌, ◌++◌, ◌==◌, ◌≡◌, refl, arith, is_empty, Lacks,
}
use mcptunnels.Agent.{connect_path}
use mcptunnels.Proxy.Path.{path_of}
use mcptunnels.Proxy.Discovery.{service_path}
use mcptunnels.Router.{
  split_slashes, segments_of, fits, is_own, first_match, handled, dispatch, gateway, control_plane,
  public_proxy, well_known_documents, root_mux, quick_mux, quick, delete, ends_in_slash, matched,
  is_plain, is_clean, redirected,
}
use mcptunnels.Router.Segments.{
  split_slashes-append, split_slashes_bare, split_slashes_full, longer, settled, is_plain_full,
  dispatch-matched, dispatch_of_clean,
}

-- A path with the segments of a service's path and at least one more is the proxy's.
service_segments :
    (slug service rest : Str)
    → Lacks 47 slug
    → Lacks 47 service
    → segments_of (path_of slug service (47 ∷ rest))
      ≡ lit "t" ∷ slug ∷ lit "s" ∷ service ∷ split_slashes rest
unfolding segments_of split_slashes
service_segments slug service rest l l' =
    let one = split_slashes-append slug (lit "s/" ++ (service ++ (47 ∷ rest))) l in
    let two = split_slashes-append service rest l' in ground (arith, one, two)

proxied :
    (method slug service rest : Str)
    → Lacks 47 slug
    → is_empty slug ≡ false
    → Lacks 47 service
    → matched root_mux method (path_of slug service (47 ∷ rest)) ≡ handled public_proxy
unfolding matched first_match fits is_own ◌==◌
proxied method slug service rest l full l' =
    let (t, ts, more) = split_slashes_full rest in
    let segments = service_segments slug service rest l l' in
    rw (segments, more, full)
      (rw (longer service t ts, longer service t (ts ++ ([] ∷ [])))
        (settled (ends_in_slash (t ∷ ts)) (handled public_proxy)))

proxied_clean :
    (slug service rest : Str)
    → Lacks 47 slug
    → Lacks 47 service
    → is_plain slug ≡ true
    → is_plain service ≡ true
    → is_clean (segments_of (path_of slug service (47 ∷ rest))) ≡ is_clean (split_slashes rest)
unfolding is_clean ◌==◌
proxied_clean slug service rest l l' plain plain' =
    let (t, ts, more) = split_slashes_full rest in
    rw (service_segments slug service rest l l', more, plain, plain') refl

-- A path below it.
below :
    (method slug service rest : Str)
    → Lacks 47 slug
    → is_plain slug ≡ true
    → Lacks 47 service
    → is_plain service ≡ true
    → (method == lit "CONNECT") ≡ false
    → dispatch root_mux method (path_of slug service (47 ∷ rest))
      ≡ (if is_clean (split_slashes rest) then handled public_proxy else redirected)
below method slug service rest l plain l' plain' cleaning =
    dispatch_of_clean root_mux method (path_of slug service (47 ∷ rest)) cleaning
    ∙ rw
        (
          proxied_clean slug service rest l l' plain plain',
          proxied method slug service rest l (is_plain_full slug plain) l',
        )
        refl

-- The announced URL itself, without a slash behind the service.
proxied_bare :
    (method slug service : Str)
    → Lacks 47 slug
    → is_plain slug ≡ true
    → Lacks 47 service
    → is_plain service ≡ true
    → dispatch root_mux method (service_path slug service) ≡ handled public_proxy
unfolding dispatch is_clean matched first_match fits is_own ◌==◌ segments_of split_slashes
proxied_bare method slug service l plain l' plain' =
    let one = split_slashes-append slug (lit "s/" ++ service) l in
    let full = is_plain_full slug plain in
    let full' = is_plain_full service plain' in
    rw (one, split_slashes_bare service l', plain, plain', full, full') (ground (arith, full'))

documented :
    (method slug service : Str)
    → Lacks 47 slug
    → is_plain slug ≡ true
    → Lacks 47 service
    → is_plain service ≡ true
    → dispatch root_mux method
        (lit "/.well-known/oauth-protected-resource" ++ service_path slug service)
      ≡ handled well_known_documents
unfolding dispatch is_clean matched first_match fits is_own ◌==◌ segments_of split_slashes
documented method slug service l plain l' plain' =
    let one = split_slashes-append slug (lit "s/" ++ service) l in
    rw (one, split_slashes_bare service l', plain, plain')
      (ground (arith, is_plain_full service plain'))

deletes :
    (slug : Str)
    → Lacks 47 slug
    → is_plain slug ≡ true
    → (dispatch root_mux (lit "DELETE") (lit "/api/v1/quick/" ++ slug) ≡ handled control_plane)
      × (dispatch quick_mux (lit "DELETE") (lit "/api/v1/quick/" ++ slug) ≡ handled delete)
unfolding dispatch is_clean matched first_match fits is_own ◌==◌ segments_of split_slashes
deletes slug l plain =
    let full = is_plain_full slug plain in
    (
      rw (split_slashes_bare slug l, plain, full) refl,
      rw (split_slashes_bare slug l, plain, full) refl,
    )

-- The paths that the program calls or hands out go to their handlers, where the tenant's slug and the
-- service's name are not empty, ".", or "..", and hold no slash, and the method is not CONNECT: the
-- agent's dial, whatever its other method, to the gateway; the announced URL of a service to the proxy, and
-- of the paths below it those that are clean, while the others are redirected; the URL of a service's
-- metadata to the well-known documents; and the creation and the deletion of a tunnel through the control
-- plane's mux to their own handlers.
pub own_paths :
    (method slug service rest : Str)
    → Lacks 47 slug
    → is_plain slug ≡ true
    → Lacks 47 service
    → is_plain service ≡ true
    → (method == lit "CONNECT") ≡ false
    → (dispatch root_mux method connect_path ≡ handled gateway)
      × (dispatch root_mux method (service_path slug service) ≡ handled public_proxy)
      × (dispatch root_mux method (path_of slug service (47 ∷ rest))
          ≡ (if is_clean (split_slashes rest) then handled public_proxy else redirected))
      × (dispatch root_mux method
            (lit "/.well-known/oauth-protected-resource" ++ service_path slug service)
          ≡ handled well_known_documents)
      × ((dispatch root_mux (lit "POST") (lit "/api/v1/quick") ≡ handled control_plane)
          × (dispatch quick_mux (lit "POST") (lit "/api/v1/quick") ≡ handled quick))
      × ((dispatch root_mux (lit "DELETE") (lit "/api/v1/quick/" ++ slug) ≡ handled control_plane)
          × (dispatch quick_mux (lit "DELETE") (lit "/api/v1/quick/" ++ slug) ≡ handled delete))
unfolding dispatch is_clean matched first_match fits is_own ◌==◌ segments_of split_slashes
own_paths method slug service rest l plain l' plain' cleaning = (
  dispatch-matched root_mux method connect_path refl,
  proxied_bare method slug service l plain l' plain',
  below method slug service rest l plain l' plain' cleaning,
  documented method slug service l plain l' plain',
  (refl, refl),
  deletes slug l plain,
)
