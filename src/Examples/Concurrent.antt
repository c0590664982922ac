-- ===== src/Examples/Concurrent.antt =====
-- The theorems on the lines of the bridge's child, and on requests of the stdio front that are under way
-- at the same time, at concrete runs.
use mcptunnels.Prelude.{
  ◌++◌, List, Bool, ℕ, false, true, ◌≤◌, Str, lit, none, some, [], ◌∷◌, ◌≡◌, refl, count, ◌==◌,
}
use mcptunnels.Rpc.{Decode}
use mcptunnels.Bridge.{started, write}
use mcptunnels.Bridge.{plan, route}
use mcptunnels.Bridge.Steps.{Reach, start, later, forwarded}
use mcptunnels.Bridge.Lines.{messages, message_of, stdin_lines}
use mcptunnels.Stdiofront.Events.{lines_of}
use mcptunnels.Stdiofront.Requests.{Front}
use mcptunnels.Stdiofront.Interleaving.{
  ready, lost, posted, replaying, Call, Shared, move, send_post, awaiting, first_sent, Runs, stop,
  then_step,
}
use mcptunnels.Stdiofront.Delivery.{Upstream}
use mcptunnels.Stdiofront.Sharing.{calls_finish, steps_of, is_from, GoesOn}
use mcptunnels.Stdiofront.Expiry.{second_left}
use mcptunnels.Examples.Bridges.{ping, reply}

-- Every text is a notification.
abbrev bare_decode : Decode
bare_decode text = some (record { id = none; method = text })

-- Two notifications.
abbrev first_run : Reach bare_decode (write (lit "1a") started)
unfolding plan route ◌==◌
first_run = later start refl (forwarded (lit "POST") (some (lit "1a")) (lit "1a") refl refl refl)

abbrev compact_run : Reach bare_decode (write (lit "2b") (write (lit "1a") started))
unfolding plan route ◌==◌
compact_run =
    later first_run refl (forwarded (lit "POST") (some (lit "2b")) (lit "2b") refl refl refl)

stdin_lines_example :
    lines_of (write (lit "2b") (write (lit "1a") started)).stdin ≡ (lit "1a" ∷ lit "2b" ∷ [], [])
unfolding messages message_of first_run compact_run
stdin_lines_example =
    stdin_lines bare_decode (write (lit "2b") (write (lit "1a") started)) compact_run
      ((refl, (refl, tt)), ((refl, (refl, tt)), tt))

abbrev call : Str → Call
call message = record { message = message; method = lit "ping"; phase = ready }

abbrev at_start : Shared
at_start = record {
  canonical = λ name. name;
  headers = [];
  session = lit "s1";
  init_msg = some (lit "1initialize");
  calls = λ c. call ping;
  sent = [];
  given = [];
}

-- The first call has sent its message.
abbrev under_way : Shared
under_way = send_post 0 ping awaiting at_start

one_step : Runs at_start under_way
one_step = then_step 0 stop (first_sent refl refl)

calls_finish_example :
    (steps_of 0 one_step ≤ 10) × (count (is_from 0) under_way.sent ≤ 3) × GoesOn 0 under_way
unfolding count
calls_finish_example = calls_finish 0 at_start under_way one_step refl refl

-- Both of the calls 0 and 1 have been answered with 404.
abbrev both_lost : Shared
both_lost = move 0 (lost (reply 404 [] [])) (move 1 (lost (reply 404 [] [])) at_start)

second_left_example :
    (t : Shared) × Runs both_lost t
    × ((t.calls 0).phase ≡ replaying (lit "1initialize"))
    × ((t.calls 1).phase ≡ posted (some (reply 404 [] [])))
unfolding move
second_left_example =
    second_left both_lost 0 1 (reply 404 [] []) (reply 404 [] []) (lit "1initialize") refl refl refl
      refl refl

abbrev numbered : ℕ → Str
numbered n = lit "s" ++ (n ∷ [])

-- The endpoint knows nothing of the session of `front`, and drops its own before the third message.
abbrev forgotten : Front Upstream
forgotten = record {
  canonical = λ name. name;
  headers = (lit "Authorization", lit "Bearer t" ∷ []) ∷ [];
  session = lit "s1";
  init_msg = some (lit "initialize");
  out = [];
  streaming = true;
  upstream = record { live = none; next = 2; taken = [] };
}

abbrev three_messages : List (Bool × Str)
three_messages = (false, lit "a") ∷ (false, lit "b") ∷ (true, lit "c") ∷ []
