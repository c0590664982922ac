-- ===== src/Examples/Bridges.antt =====
-- The theorems on the bridge and on the stdio front at concrete runs. A message of these examples is its id, one byte,
-- with the method behind it.
use mcptunnels.Prelude.{
  ℕ, ◌+◌, ◌≤◌, Str, lit, true, false, none, some, [], ◌∷◌, ◌++◌, ◌≡◌, inl, refl, arith, length,
  trim_space, trim_end, drop_while, ◌==◌,
}
use mcptunnels.Rpc.{Decode, id_of, events}
use mcptunnels.Bridge.{
  Server, answered, started, register, set_phase, write, waiting, read_line, deliver, receive,
  clean_up, fail_pending, plan, route, notif_queue,
}
use mcptunnels.Bridge.Steps.{Reach, start, later, begin, sent, line, delivered, received, cleaned}
use mcptunnels.Bridge.Progress.{Returns, exit-Returns}
use mcptunnels.Bridge.{bad_gateway}
use mcptunnels.Bridge.Safety.{answered_own_id}
use mcptunnels.Bridge.Races.{fail_pending-deliver}
use mcptunnels.Stdiofront.Events.{read_events}
use mcptunnels.Stdiofront.Framing.{read_events-events, through}
use mcptunnels.Stdiofront.Requests.{Response, Endpoint, Front, Failure, do_post, reinit, post}
use mcptunnels.Stdiofront.Recovery.{post_lost}

abbrev pub short_decode : Decode
short_decode [] = none
short_decode (c ∷ method) = some (record { id = some (c ∷ []); method = method })

abbrev pub ping : Str
ping = lit "7ping"

abbrev pub pong : Str
pong = lit "7"

abbrev registered : Server
registered = register pong ping started

abbrev asked : Server
asked = set_phase 0 waiting (write ping registered)

abbrev holding : Server
holding = read_line short_decode pong asked

abbrev filled : Server
filled = deliver 0 pong holding

abbrev taken : Server
taken = receive 0 pong filled

abbrev finished : Server
finished = clean_up 0 (answered pong) taken

holding-Reach : Reach short_decode holding
unfolding register read_line plan route trim_space trim_end drop_while ◌==◌
holding-Reach =
    later
      (later (later start refl (begin (lit "POST") (some ping) pong ping refl refl refl)) refl
        (sent 0 refl refl refl))
      refl (line pong refl refl)

finished-Reach : Reach short_decode finished
unfolding register read_line deliver receive trim_space trim_end drop_while ◌==◌
finished-Reach =
    later
      (later (later holding-Reach refl (delivered 0 pong refl refl refl)) refl
        (received 0 pong refl refl refl))
      refl (cleaned 0 (answered pong) refl refl)

answered_own_id_example :
    (id_of (short_decode pong) ≡ some (finished.posts 0).key)
    × (length finished.notifs ≤ notif_queue)
unfolding clean_up
answered_own_id_example = answered_own_id short_decode finished 0 pong finished-Reach (inl refl)

fail_pending-deliver_example :
    let crashed = deliver 0 pong (fail_pending holding) in
    Reach short_decode crashed × (crashed.panicked ≡ true)
unfolding register read_line trim_space trim_end drop_while ◌==◌
fail_pending-deliver_example =
    fail_pending-deliver short_decode holding 0 pong holding-Reach refl refl refl refl

read_events-events_example :
    read_events short_decode pong (events (lit "note" ∷ pong ∷ lit "late" ∷ [])) []
    ≡ [] ++ through short_decode pong (lit "note" ∷ pong ∷ lit "late" ∷ [])
unfolding trim_space trim_end drop_while
read_events-events_example =
    read_events-events short_decode pong (lit "note" ∷ pong ∷ lit "late" ∷ []) [] (ground arith)

abbrev pub reply : ℕ → Str → Str → Response
reply status session body = record {
  status = status;
  session_id = session;
  is_stream = false;
  content = body;
  cut_short = false;
}

abbrev pub front : Front ℕ
front = record {
  canonical = λ name. name;
  headers = [];
  session = lit "s1";
  init_msg = some (lit "1initialize");
  out = [];
  streaming = true;
  upstream = 0;
}

abbrev refusing : Endpoint ℕ
refusing q n = (some (reply 404 [] []), n + 1)

post_lost_example :
    let after = (reinit refusing front).1 in
    (after.session ≡ [])
    × (post refusing ping after ≡ do_post refusing ping after)
    × ((post refusing ping after).1.session ≡ [])
unfolding reinit do_post
post_lost_example = post_lost refusing front ping refl

abbrev unquoted : Failure → Str
unquoted why = lit "\"failed\""

-- The request of `asked` has registered after the child's exit was announced.
abbrev belated : Server
belated = record asked { failed = true; done = true }

exit-Returns_example : Returns short_decode belated 0 bad_gateway
unfolding register
exit-Returns_example = exit-Returns short_decode belated 0 refl refl
