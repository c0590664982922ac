-- ===== src/Cmd/Cleanup.antt =====
-- Which quick tunnels runExpose of cmd/mcptunnel/expose.go takes down again.
use mcptunnels.Prelude.{
  if_has, Str, lit, Bool, true, false, not, Option, none, some, List, [], ◌∷◌, ◌++◌, if◌then◌else◌,
  is_empty, any, All, trim_right, ◌≡◌, refl, inl, inr, arith, Option-cases,
}
use mcptunnels.Http.{Url}
use mcptunnels.Cmd.Flags.{http_to_ws}
use mcptunnels.Agent.{Config, Client, new}
use mcptunnels.Cmd.Expose.{
  ExposeOpts, QuickTunnel, Surroundings, Effect, start_bridge, run_agent, stop_bridge,
  delete_tunnel, run_expose, base_of, agent_config, connect, serve,
}

abbrev pub is_run : Effect → Bool
is_run (run_agent c) = true
is_run e = false

abbrev pub is_delete : Effect → Bool
is_delete (delete_tunnel b t s k) = true
is_delete e = false

-- An agent that runs, and a deletion, are those of the tunnel that was created, and go to its server.
abbrev pub Own : Str → QuickTunnel → Effect → Type 0
unfolding trim_right http_to_ws
Own base t (run_agent c) =
    (c.connect_url ≡ trim_right 47 (http_to_ws base) ++ lit "/tunnel/connect")
    × (c.tenant ≡ t.tenant)
    × (c.service ≡ t.service)
    × (c.key ≡ t.agent_key)
Own base t (delete_tunnel b tenant service key) =
    (b ≡ trim_right 47 base) × (tenant ≡ t.tenant) × (service ≡ t.service) × (key ≡ t.agent_key)
Own base t e = Unit {0}

-- The settings of a client that the gateway reads, and where it dials, are those of its configuration.
pub new_of_tunnel :
    (parse_url : Str → Option Url) (cfg : Config) (c : Client)
    → new parse_url cfg ≡ some c
    → (c.connect_url ≡ trim_right 47 cfg.server ++ lit "/tunnel/connect")
      × (c.tenant ≡ cfg.tenant)
      × (c.service ≡ cfg.service)
      × (c.key ≡ cfg.agent_key)
unfolding new trim_right
new_of_tunnel parse_url cfg c h = elim (Option-cases (parse_url cfg.upstream)) [
  | inl e ↦ ground (arith, e)
  | inr (u, e) ↦ ground (arith, e)
]

-- The effects are about one tunnel, and delete it where the agent runs.
abbrev Cleans : Str → QuickTunnel → List Effect → Type 0
Cleans base t effects = All (Own base t) effects × (any is_delete effects ≡ any is_run effects)

module _ (parse_url : Str → Option Url) (base password : Str) (t : QuickTunnel)
    (opts : ExposeOpts) where
  -- Whatever is deferred behind the connection, if it is nothing of the agent's.
  connect-Cleans :
      (upstream : Str)
      → Cleans base t (connect parse_url base password t opts upstream)
        × Cleans base t (connect parse_url base password t opts upstream ++ (stop_bridge ∷ []))
  unfolding any connect
  connect-Cleans upstream =
      elim (Option-cases (new parse_url (agent_config base t upstream opts))) [
        | inl e ↦ ground (arith, e)
        | inr (c, e) ↦
            ground (arith, e, new_of_tunnel parse_url (agent_config base t upstream opts) c e)
      ]

  heard :
      (o : Option Str)
      → Cleans base t (elim o [
        | none ↦ stop_bridge ∷ []
        | some addr ↦
            connect parse_url base password t opts (lit "http://" ++ addr) ++ (stop_bridge ∷ [])
      ])
  unfolding any Own
  heard none = ((tt, tt), refl)
  heard (some addr) = (connect-Cleans (lit "http://" ++ addr)).1

  started :
      (b : Bool) (later : List Effect)
      → Cleans base t later
      → Cleans base t (start_bridge opts.cmd_args ∷ (if b then [] else later))
  unfolding any Own
  started true later h = ((tt, tt), refl)
  started false later h = ((tt, h.0), h.1)

  serve-Cleans : (w : Surroundings) → Cleans base t (serve parse_url base password t opts w)
  unfolding any
  serve-Cleans w =
      if_has (Cleans base t) (not (is_empty opts.upstream_url)) _ _
        (connect-Cleans opts.upstream_url).0 (started (not w.bridge_ok) _ (heard w.listener))

-- One expose with a server and the tunnel that it created: the agent and the deletion are for that tunnel,
-- with its key; the agent dials /tunnel/connect at that server, under ws or wss for its http or https, and
-- the deletion goes to it too; and the tunnel is deleted exactly where the agent was run.
pub run_expose_deletes :
    (parse_url : Str → Option Url) (w : Surroundings) (opts : ExposeOpts) (base : Str)
    (t : QuickTunnel)
    → base_of w opts ≡ some base
    → w.quick_reply ≡ some t
    → All (Own base t) (run_expose parse_url w opts)
      × (any is_delete (run_expose parse_url w opts) ≡ any is_run (run_expose parse_url w opts))
unfolding run_expose any
run_expose_deletes parse_url w opts base t b q = ground (
  arith,
  b,
  q,
  serve-Cleans parse_url base (if opts.no_auth then [] else w.random_password) t opts w,
)
