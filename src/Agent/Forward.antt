-- ===== src/Agent/Forward.antt =====
-- What internal/agent/agent.go sends to the upstream.
use mcptunnels.Prelude.{
  Str, lit, Bool, true, ◌||◌, if◌then◌else◌, ◌==◌, Option, none, some, is_empty, List, [], ◌∷◌, ◌≡◌,
  refl, inl, inr, arith, Option-cases,
}
use mcptunnels.Http.{Header, copy_headers, set_values, del}
use mcptunnels.Agent.{Client, Request, outgoing}

-- The names that handleStream takes out of a request.
abbrev pub is_credential : Str → Bool
is_credential name =
    lit "Authorization" == name || lit "Proxy-Authorization" == name || lit "Cookie" == name

module _ (canonical : Str → Str) where
  -- The values that the last of the pairs with a name sets.
  unfoldable pub configured : List (Str × List Str) → Str → Option (List Str)
  configured [] name = none
  configured ((k, vals) ∷ src) name =
      let this = if canonical k == name then some vals else none in
      elim (configured src name) [ none ↦ this | some later ↦ some later ]

  copy_headers_lem :
      (src : List (Str × List Str)) (h : Header) (name : Str)
      → copy_headers canonical src h name
        ≡ elim (configured src name) [ none ↦ h name | some vals ↦ vals ]
  unfolding copy_headers configured
  copy_headers_lem [] h name = ground arith
  copy_headers_lem ((k, vals) ∷ src) h name = elim (Option-cases (configured src name)) [
    | inl e ↦ ground (arith, e, copy_headers_lem src (set_values (canonical k) vals h) name)
    | inr (later, e) ↦
        ground (arith, e, copy_headers_lem src (set_values (canonical k) vals h) name)
  ]

  -- The request that goes upstream has the scheme and the host of the configured upstream and no host of
  -- its own. A header's values are the configured ones where the configuration sets it; else Authorization,
  -- Proxy-Authorization and Cookie have none, and every other header has those of the client's request.
  pub outgoing_header :
      (c : Client) (req : Request) (name : Str)
      → ((outgoing canonical c req).url.scheme ≡ c.upstream.scheme)
        × ((outgoing canonical c req).url.host ≡ c.upstream.host)
        × (is_empty (outgoing canonical c req).host_header ≡ true)
        × ((outgoing canonical c req).header name ≡ elim (configured c.upstream_headers name) [
          | none ↦ if is_credential name then [] else req.header name
          | some vals ↦ vals
        ])
  unfolding outgoing
  outgoing_header c req name =
      let stripped =
        del (lit "Cookie")
          (del (lit "Proxy-Authorization") (del (lit "Authorization") req.header)) in
      let copied = copy_headers_lem c.upstream_headers stripped name in
      (
        refl,
        refl,
        refl,
        elim (Option-cases (configured c.upstream_headers name)) [
          | inl e ↦ ground (arith, e, copied)
          | inr (vals, e) ↦ ground (arith, e, copied)
        ],
      )
