-- ===== src/Proxy/Path.antt =====
-- splitPath of internal/proxy/proxy.go: the tenant, the service and the rest of a public path.
use mcptunnels.Prelude.{
  ℕ, Str, lit, none, some, Option-cases, [], ◌∷◌, ◌++◌, ◌≡◌, ◌≢◌, ◌⊎◌, inl, inr, ap, ◌∙◌, arith,
  cut_prefix, cut_prefix_sound, cut_prefix-append, split_at_byte, split_at_byte_sound,
  split_at_byte-append, Lacks,
}

abbrev slash : ℕ
slash = 47

abbrev no_path : Str × Str × Str
no_path = ([], [], [])

-- What follows "/s/".
unfoldable pub split_service : Str → Str → Str × Str × Str
unfolding split_at_byte
split_service tenant sp = elim (split_at_byte slash sp) [
  | none ↦ (tenant, sp, lit "/")
  | some (service, rest) ↦ (tenant, service, rest)
]

-- What follows "/t/".
unfoldable pub split_tenant : Str → Str × Str × Str
unfolding split_service cut_prefix split_at_byte
split_tenant p = elim (split_at_byte slash p) [
  | none ↦ no_path
  | some (tenant, tail) ↦ elim (cut_prefix (lit "/s/") tail) [
    | none ↦ no_path
    | some sp ↦ split_service tenant sp
  ]
]

unfoldable pub split_path : Str → Str × Str × Str
unfolding split_tenant cut_prefix
split_path path = elim (cut_prefix (lit "/t/") path) [ none ↦ no_path | some p ↦ split_tenant p ]

-- "/t/{tenant}/s/{service}" and what follows.
abbrev pub path_of : Str → Str → Str → Str
path_of tenant service rest = lit "/t/" ++ (tenant ++ (lit "/s/" ++ (service ++ rest)))

-- A path under "/t/{tenant}/s/{service}/" is split into that tenant, that service and the rest from the
-- slash on, where neither name holds a slash.
pub split_path_rest :
    (tenant service rest : Str)
    → Lacks slash tenant
    → Lacks slash service
    → split_path (path_of tenant service (slash ∷ rest)) ≡ (tenant, service, slash ∷ rest)
unfolding split_path split_tenant split_service
split_path_rest tenant service rest t s =
    let after_s = service ++ (slash ∷ rest) in
    let after_t = lit "/s/" ++ after_s in
    let cut : split_at_byte slash (tenant ++ after_t) ≡ some (tenant, after_t) =
      split_at_byte-append slash tenant (lit "s/" ++ after_s) t in
    ground (
      arith,
      cut_prefix-append (lit "/t/") (tenant ++ after_t),
      cut,
      cut_prefix-append (lit "/s/") after_s,
      split_at_byte-append slash service rest s,
    )

-- What a path stands for, and what is asked of the answer.
abbrev Splits : Str → Str → Str → Str → Type 0
Splits path tenant service rest =
    (path ≡ path_of tenant service rest
      ⊎ (path ≡ lit "/t/" ++ (tenant ++ (lit "/s/" ++ service))) × (rest ≡ lit "/"))
    × Lacks slash tenant
    × Lacks slash service

Lacks-none : (c : ℕ) (s : Str) → split_at_byte c s ≡ none → Lacks c s
unfolding split_at_byte
Lacks-none c [] h = tt
Lacks-none c (d ∷ s) h = elim (Option-cases (split_at_byte c s)) [
  | inl e ↦ (ground (arith, e), Lacks-none c s e)
  | inr (r, e) ↦ absurd (ground (arith, e))
]

split_service_sound :
    (tenant sp t s r : Str)
    → Lacks slash tenant
    → split_service tenant sp ≡ (t, s, r)
    → (t ≡ tenant) × Lacks slash s × ((sp ≡ s ++ r) ⊎ (sp ≡ s) × (r ≡ lit "/"))
unfolding split_service
split_service_sound tenant sp t s r l h = elim (Option-cases (split_at_byte slash sp)) [
  | inl e ↦
      let same : sp ≡ s = ground (arith, e) in
      (ground (arith, e), rw (← same) (Lacks-none slash sp e), inr (same, ground (arith, e)))
  | inr (cut, e) ↦
      let (joined, lacks) = split_at_byte_sound slash sp cut.0 cut.1 e in
      let same : cut.0 ≡ s = ground (arith, e) in
      (ground (arith, e), rw (← same) lacks, inl (ground (arith, e, joined)))
]

-- Where splitPath gives a tenant that is not empty, the path is "/t/", the tenant, "/s/", the service and
-- the rest, or it ends with the service and the rest is "/"; neither name holds a slash.
pub split_path_sound :
    (path tenant service rest : Str)
    → split_path path ≡ (tenant, service, rest)
    → tenant ≢ []
    → Splits path tenant service rest
unfolding split_path split_tenant
split_path_sound path tenant service rest h full =
    elim (Option-cases (cut_prefix (lit "/t/") path)) [
      | inl e ↦ absurd (ground (arith, e))
      | inr (p, e) ↦ elim (Option-cases (split_at_byte slash p)) [
        | inl a ↦ absurd (ground (arith, e, a))
        | inr (cut, a) ↦ elim (Option-cases (cut_prefix (lit "/s/") cut.1)) [
          | inl b ↦ absurd (ground (arith, e, a, b))
          | inr (sp, b) ↦
              let (joined, lacks) = split_at_byte_sound slash p cut.0 cut.1 a in
              let split : split_service cut.0 sp ≡ (tenant, service, rest) =
                ground (arith, e, a, b) in
              let (same, bare, found) =
                split_service_sound cut.0 sp tenant service rest lacks split in
              let whole : path ≡ lit "/t/" ++ (tenant ++ (lit "/s/" ++ sp)) = rw same (
                cut_prefix_sound (lit "/t/") path p e
                ∙ ap (λ q. lit "/t/" ++ q)
                    (joined ∙ ap (λ q. cut.0 ++ q) (cut_prefix_sound (lit "/s/") cut.1 sp b))) in
              let lacking : Lacks slash tenant = rw same lacks in
              (
                elim found [ inl j ↦ inl (rw (← j) whole) | inr (j, r) ↦ inr (rw (← j) whole, r) ],
                lacking,
                bare,
              )
        ]
      ]
    ]
