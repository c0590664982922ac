-- ===== src/Stdiofront/Delivery.antt =====
-- Messages of internal/stdiofront/stdiofront.go to an endpoint that keeps sessions and may drop them at any time.
use mcptunnels.Prelude.{
  ℕ, ◌+◌, Str, lit, Bool, false, Option, none, some, List, [], ◌∷◌, ◌++◌, ◌==◌, ◌≡◌, is_empty,
  if◌then◌else◌, All,
}
use mcptunnels.Stdiofront.Requests.{Response, Endpoint, Front, post}

-- The endpoint: the session that lives, the number of the next one, and the messages that it has taken.
pub record Upstream : Type 0 where
  pub live : Option Str
  pub next : ℕ
  pub taken : List Str

abbrev pub status_only : ℕ → Str → Response
status_only status sid = record {
  status = status;
  session_id = sid;
  is_stream = false;
  content = [];
  cut_short = false;
}

abbrev pub is_live : Option Str → List Str → Bool
is_live (some sid) (given ∷ []) = sid == given
is_live live given = false

-- A session id that does not live is answered with 404, whatever the message; without one, only an
-- initialize request is taken, which makes a session.
abbrev answer_to : (ℕ → Str) → Str → Str → List Str → Upstream → Option Response × Upstream
answer_to ids init message [] u =
    if message == init
    then (
      some (status_only 200 (ids u.next)),
      record u { live = some (ids u.next); next = u.next + 1 },
    )
    else (some (status_only 400 []), u)
answer_to ids init message (g ∷ gs) u =
    if is_live u.live (g ∷ gs)
    then (some (status_only 200 []), record u { taken = u.taken ++ (message ∷ []) })
    else (some (status_only 404 []), u)

unfoldable pub session_endpoint : (ℕ → Str) → Str → Endpoint Upstream
session_endpoint ids init q u = answer_to ids init q.message (q.header (lit "Mcp-Session-Id")) u

-- The user's headers have no session id.
abbrev pub Unset : (Str → Str) → List (Str × List Str) → Type 0
Unset canonical headers =
    All (λ (h : Str × List Str). (canonical h.0 == lit "Mcp-Session-Id") ≡ false) headers

module _ (ids : ℕ → Str) (init : Str) where
  abbrev upstream_of : Endpoint Upstream
  upstream_of = session_endpoint ids init

  -- The front has had a session, and has no session id among the user's headers.
  abbrev pub IsReady : Front Upstream → Type 0
  IsReady g = (g.init_msg ≡ some init) × (is_empty g.session ≡ false) × Unset g.canonical g.headers

  abbrev took : Str → Front Upstream → Front Upstream
  took msg g = record g {
    upstream = record (g.upstream) { taken = g.upstream.taken ++ (msg ∷ []) };
  }

  -- What doPost makes of the endpoint's answer to a message under the header's session ids.
  abbrev posted_under : List Str → Str → Front Upstream → Option Response × Front Upstream
  posted_under given msg g =
      let (r, u) = answer_to ids init msg given g.upstream in (r, record g { upstream = u })

  -- The front under the session that a replayed initialize request makes.
  abbrev renewed : Front Upstream → Front Upstream
  renewed g = record g {
    session = ids g.upstream.next;
    upstream = record (g.upstream) {
      live = some (ids g.upstream.next);
      next = g.upstream.next + 1;
    };
  }

  abbrev Delivered : Str → Front Upstream → Option Response × Front Upstream → Type 0
  Delivered msg g o =
      (o.0 ≡ some (status_only 200 []))
      × (o.1.upstream.taken ≡ g.upstream.taken ++ (msg ∷ []))
      × IsReady o.1

  -- Messages one after another; before each, the endpoint drops its session or does not.
  abbrev dropping : Bool → Front Upstream → Front Upstream
  dropping drops g =
      if drops then record g { upstream = record (g.upstream) { live = none } } else g

  unfoldable pub post_each :
      List (Bool × Str) → Front Upstream → List (Option Response) × Front Upstream
  unfolding post
  post_each [] g = ([], g)
  post_each ((drops, msg) ∷ later) g =
      let (r, g') = post upstream_of msg (dropping drops g) in
      let (rs, last) = post_each later g' in (r ∷ rs, last)

  abbrev pub messages_of : List (Bool × Str) → List Str
  messages_of [] = []
  messages_of ((drops, msg) ∷ later) = msg ∷ messages_of later
