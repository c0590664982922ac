-- ===== src/Gateway/Access.antt =====
-- Who gets into the registry of internal/gateway/gateway.go, and what one agent can reach there.
use mcptunnels.Prelude.{
  ℕ, Str, true, false, ◌||◌, Option, some, Option-cases, Bool-cases, ◌∷◌, is_empty, ◌≡◌, inl, inr,
  ◌⊎◌, sym, ap, refl, ◌∙◌, arith, find, ◌==◌, eq_iff, Lacks, split_at_byte, split_at_byte-append,
}
use mcptunnels.Act.{Result-cases, ok}
use mcptunnels.Sql.{ServiceRow}
use mcptunnels.Sql.Run.{is_service}
use mcptunnels.Driver.{Db}
use mcptunnels.Store.{Bcrypt, Api, Service}
use mcptunnels.Sqlite.{sqlite_api, validate_agent_key}
use mcptunnels.Sqlite.Services.{validate_agent_key_sound}
use mcptunnels.Gateway.{Gateway, ConnectRequest, connected, connect, session_key, dial, register}
use mcptunnels.ControlPlane.{bearer_key}
use mcptunnels.Gateway.Registry.{session_at-register_self, session_at-register_ne}

-- The keys of the registry tell (tenant, service) pairs apart where tenants hold no zero byte.
session_key_injective :
    (t s t' s' : Str)
    → Lacks 0 t
    → Lacks 0 t'
    → session_key t s ≡ session_key t' s'
    → (t ≡ t') × (s ≡ s')
unfolding session_key
session_key_injective t s t' s' l l' e =
    let one = split_at_byte-append 0 t s l in
    let two = split_at_byte-append 0 t' s' l' in
    let both : ◌≡◌ {A = Option (Str × Str)} (some (t, 0 ∷ s)) (some (t', 0 ∷ s')) =
      sym one ∙ ap (split_at_byte 0) e ∙ two in
    ground arith

-- Whatever the driver and the upgrade do: where the gateway has registered an agent, the tables hold a
-- service of the request's tenant under the request's name, whose hash accepts the key in the
-- Authorization header; the agent's session is the one that Dial opens a stream on for that service; and
-- for any other service Dial does as before, where neither tenant's slug holds a zero byte.
pub connect_sound :
    (bcrypt : Bcrypt) (accepted : Option ℕ) (req : ConnectRequest) (db : Db) (g : Gateway)
    (opens : ℕ → Option Str) (sk : Str) (sess : ℕ) (tenant service : Str)
    → (connect (sqlite_api bcrypt) accepted req db g).0 ≡ connected sk sess
    → Lacks 0 tenant
    → Lacks 0 req.tenant
    → let after = (connect (sqlite_api bcrypt) accepted req db g).2 in
      ((r : ServiceRow) × (find (is_service req.tenant req.service_name) db.tables.services
          ≡ some r)
        × (bcrypt.compare_hash r.agent_key_hash (bearer_key req.authorization) ≡ true))
      × (dial opens req.tenant req.service_name after ≡ opens sess)
      × ((dial opens tenant service after ≡ dial opens tenant service g)
          ⊎ (tenant ≡ req.tenant) × (service ≡ req.service_name))
unfolding connect dial
connect_sound bcrypt accepted req db g opens sk sess tenant service h l l' =
    let key = bearer_key req.authorization in
    let sk' = session_key req.tenant req.service_name in
    elim (Bool-cases (is_empty req.tenant || is_empty req.service_name)) [
      | inl e ↦ absurd (ground (arith, e))
      | inr e ↦
          elim (Result-cases (validate_agent_key bcrypt req.tenant req.service_name key db).0) [
            | inr (x, v) ↦ absurd (ground (arith, e, v))
            | inl (svc, v) ↦ elim (Option-cases accepted) [
              | inl n ↦ absurd (ground (arith, e, v, n))
              | inr (s, n) ↦
                  let (r, at, _, _, accepts) =
                    validate_agent_key_sound bcrypt req.tenant req.service_name key svc db v in
                  (
                    (r, at, accepts),
                    ground (arith, e, v, n, session_at-register_self sk' s g),
                    elim (Bool-cases (sk' == session_key tenant service)) [
                      | inl b ↦ inr (
                          session_key_injective tenant service req.tenant req.service_name l l'
                            (sym ((eq_iff sk' (session_key tenant service)).0 b)))
                      | inr b ↦ inl (
                          ground (
                            arith,
                            e,
                            v,
                            n,
                            session_at-register_ne (session_key tenant service) sk' s g b,
                          ))
                    ],
                  )
            ]
          ]
    ]

-- An agent whose key the store accepts is registered, over any store.
pub connect_admits :
    {S : Type 0}
    → (api : Api S) (req : ConnectRequest) (svc : Service) (sess : ℕ) (s s' : S) (g : Gateway)
    → is_empty req.tenant ≡ false
    → is_empty req.service_name ≡ false
    → api.validate_agent_key req.tenant req.service_name (bearer_key req.authorization) s
      ≡ (ok svc, s')
    → connect api (some sess) req s g ≡ (
      connected (session_key req.tenant req.service_name) sess,
      s',
      register (session_key req.tenant req.service_name) sess g,
    )
unfolding connect
connect_admits api req svc sess s s' g t n v = rw (t, n, v) (rw (ap (λ o. o.1) v) refl)

-- The session that is registered is the one that Dial opens a stream on.
pub dial-register :
    {Stream : Type 0}
    → (opens : ℕ → Option Stream) (tenant service : Str) (sess : ℕ) (g : Gateway)
    → dial opens tenant service (register (session_key tenant service) sess g) ≡ opens sess
unfolding dial
dial-register opens tenant service sess g =
    rw (session_at-register_self (session_key tenant service) sess g, dial) refl
