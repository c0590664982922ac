-- ===== src/Stdiofront/Requests.antt =====
-- handleLine, request, post, doPost and reinit of internal/stdiofront/stdiofront.go. The endpoint is a
-- function from a message with its header to an answer, over a state of its own; requests run one
-- after another here.
use mcptunnels.Prelude.{
  ℕ, ◌/◌, Str, lit, Bool, true, false, not, ◌||◌, ◌&&◌, Option, none, some, List, [], ◌∷◌, ◌++◌,
  ◌==◌, is_empty, if◌then◌else◌, nat_eq, trim_space,
}
use mcptunnels.Rpc.{Decode}
use mcptunnels.Http.{Header, set_values, copy_headers}
use mcptunnels.Stdiofront.Events.{read_events}

-- A POST: its header and its body.
pub record Sent : Type 0 where
  pub header : Header
  pub message : Str

-- An answer: its status, its Mcp-Session-Id header, whether its content type is that of an event
-- stream, and what its body gives up to its end or a failure; a body that fails is cut short.
pub record Response : Type 0 where
  pub status : ℕ
  pub session_id : Str
  pub is_stream : Bool
  pub content : Str
  pub cut_short : Bool

-- None is a request that fails.
abbrev pub Endpoint : Type 0 → Type 0
Endpoint U = Sent → U → Option Response × U

-- Why no response is passed on.
pub data Failure : Type 0 where
  no_answer : Failure
  bad_status : ℕ → Failure
  no_body : Failure

-- The header of doPost: the user's headers are copied over what the front has set, its session id too.
-- `canonical` is http.CanonicalHeaderKey, and the user's headers stand in the order of the iteration.
unfoldable pub post_header : (Str → Str) → List (Str × List Str) → Str → Header
unfolding copy_headers
post_header canonical headers session =
    let typed =
      set_values (lit "Accept") (lit "application/json, text/event-stream" ∷ [])
        (set_values (lit "Content-Type") (lit "application/json" ∷ []) (λ name. [])) in
    copy_headers canonical headers
      (if is_empty session then typed else set_values (lit "Mcp-Session-Id") (session ∷ []) typed)

pub record Front (U : Type 0) : Type 0 where
  pub canonical : Str → Str
  pub headers : List (Str × List Str)
  pub session : Str
  pub init_msg : Option Str
  pub out : List Str
  pub streaming : Bool
  pub upstream : U

abbrev pub is_success : ℕ → Bool
is_success status = nat_eq (status / 100) 2

module _ {U : Type 0} (send : Endpoint U) where
  -- What a message is sent as under a session.
  abbrev pub posting : Front U → Str → Str → Sent
  posting s session msg = record {
    header = post_header s.canonical s.headers session;
    message = msg;
  }

  unfoldable pub do_post : Str → Front U → Option Response × Front U
  do_post msg s =
      let (r, u) = send (posting s s.session msg) s.upstream in (r, record s { upstream = u })

  abbrev pub adopt : Str → Front U → Front U
  adopt sid s = if is_empty sid then s else record s { session = sid }

  -- What reinit makes of the answer to the replayed request.
  abbrev settled : Option Response × Front U → Bool × Front U
  settled (none, s) = (false, s)
  settled (some r, s) = if is_success r.status then (true, adopt r.session_id s) else (false, s)

  -- True is a re-initialization that went well.
  unfoldable pub reinit : Front U → Bool × Front U
  unfolding do_post
  reinit s =
      let without = record s { session = [] } in
      elim (s.init_msg) [ none ↦ (false, without) | some msg ↦ settled (do_post msg without) ]

  unfoldable pub retry_post : Str → Front U → Option Response × Front U
  unfolding reinit do_post
  retry_post msg s =
      let (ready, s') = reinit s in
      let again = do_post msg s' in if ready then again else (none, s')

  unfoldable pub post : Str → Front U → Option Response × Front U
  unfolding retry_post do_post
  post msg s =
      let (r, s') = do_post msg s in
      let retried = retry_post msg s' in
      elim r [
        | none ↦ (none, s')
        | some resp ↦
            if not (nat_eq resp.status 404) || is_empty s'.session then (some resp, s') else retried
      ]

  module _ (decode : Decode) (quoted : Failure → Str) where
    -- writeError; the quoted text of the error is a parameter.
    unfoldable pub error_line : Str → Failure → Str
    error_line id why =
        lit "{\"jsonrpc\":\"2.0\",\"id\":"
        ++ (id ++ (lit ",\"error\":{\"code\":-32603,\"message\":" ++ (quoted why ++ lit "}}")))

    abbrev pub write_line : Str → Front U → Front U
    write_line line s = record s { out = s.out ++ (line ∷ []) }

    -- A successful answer to "initialize" is remembered, and starts the stream.
    abbrev pub remember : Str → Str → Response → Front U → Front U
    remember msg method resp s =
        if method == lit "initialize" && is_success resp.status
        then adopt resp.session_id (record s { init_msg = some msg; streaming = true })
        else s

    -- The body of an answer, on stdout.
    unfoldable pub write_answer : Str → Response → Front U → Front U
    unfolding error_line read_events trim_space
    write_answer id resp s =
        let line = trim_space resp.content in
        if not (is_success resp.status)
        then write_line (error_line id (bad_status resp.status)) s
        else if resp.is_stream
        then record s { out = read_events decode id resp.content s.out }
        else if resp.cut_short || is_empty line
        then write_line (error_line id no_body) s
        else write_line line s

    unfoldable pub request : Str → Str → Str → Front U → Front U
    unfolding post write_answer
    request msg id method s =
        let (r, s') = post msg s in
        elim r [
          | none ↦ write_line (error_line id no_answer) s'
          | some resp ↦ write_answer id resp (remember msg method resp s')
        ]

    -- A line of stdin: not JSON, a request, or a message to which nothing comes back.
    unfoldable pub handle_line : Str → Front U → Front U
    unfolding request
    handle_line line s =
        let forwarded = (post line s).1 in
        elim (decode line) [
          | none ↦ s
          | some e ↦ elim (e.id) [
            | none ↦ forwarded
            | some id ↦
                let asked = request line id e.method s in
                if is_empty e.method then forwarded else asked
          ]
        ]
