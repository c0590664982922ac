-- ===== src/Bridge/Lines.antt =====
-- What the child of internal/bridge/bridge.go reads on its stdin, line by line.
use mathlib.Core.List.{append_assoc, append-nil}
use mcptunnels.Prelude.{Str, List, [], ◌∷◌, ◌++◌, ◌≡◌, refl, sym, ap, ◌∙◌, arith, Lacks, All}
use mcptunnels.Rpc.{Decode}
use mcptunnels.Bridge.{
  Server, read_line, deliver, fail_pending, stream, register, receive, clean_up,
}
use mcptunnels.Bridge.Steps.{
  Step, begin, forwarded, sent, not_sent, line, delivered, delivered_late, received, saw_closed,
  saw_done, cancelled, cleaned, streamed, exited, announced, Reach, start, later,
}
use mcptunnels.Stdiofront.Events.{lines_of}

-- The message that a step sends to the child.
unfoldable pub message_of : {decode : Decode} {s t : Server} → Step decode s t → List Str
message_of (begin method body key msg r p e) = []
message_of (forwarded method body msg r p e) = msg ∷ []
message_of {s = s} (sent c p d e) = (s.posts c).body ∷ []
message_of (not_sent c p e) = []
message_of (line text h e) = []
message_of (delivered c msg h b e) = []
message_of (delivered_late c msg h b e) = []
message_of (received c msg p b e) = []
message_of (saw_closed c p b q e) = []
message_of (saw_done c p d e) = []
message_of (cancelled c p e) = []
message_of (cleaned c o p e) = []
message_of (streamed msg rest p e) = []
message_of (exited f e) = []
message_of (announced f e) = []

-- The messages that a run has sent to the child, in their order.
unfoldable pub messages : {decode : Decode} {s : Server} → Reach decode s → List Str
messages start = []
messages (later r p k) = messages r ++ message_of k

lines_of-line :
    (m s : Str) → Lacks 10 m → lines_of (m ++ (10 ∷ s)) ≡ (m ∷ (lines_of s).0, (lines_of s).1)
unfolding lines_of
lines_of-line [] s h = ground arith
lines_of-line (c ∷ m) s h = ground (arith, lines_of-line m s h.1)

-- Messages with a line feed behind each.
abbrev framed : List Str → Str
framed [] = []
framed (m ∷ ms) = m ++ (10 ∷ framed ms)

framed-append : (ms : List Str) (rest : List Str) → framed (ms ++ rest) ≡ framed ms ++ framed rest
framed-append [] rest = refl
framed-append (m ∷ ms) rest =
    rw (framed-append ms rest) (sym (append_assoc m (10 ∷ framed ms) (framed rest)))

lines_of-framed :
    (ms rest : List Str)
    → All (Lacks 10) ms
    → lines_of (framed (ms ++ rest))
      ≡ (ms ++ (lines_of (framed rest)).0, (lines_of (framed rest)).1)
lines_of-framed [] rest h = refl
lines_of-framed (m ∷ ms) rest (h, hs) =
    lines_of-line m (framed (ms ++ rest)) h ∙ ap (λ o. (m ∷ o.0, o.1)) (lines_of-framed ms rest hs)

read_line-stdin :
    (decode : Decode) (text : Str) (s : Server) → (read_line decode text s).stdin ≡ s.stdin
unfolding read_line
read_line-stdin decode text s = ground arith

stdin_grows :
    {decode : Decode} (s t : Server) (k : Step decode s t)
    → t.stdin ≡ s.stdin ++ framed (message_of k)
unfolding message_of register receive clean_up deliver stream fail_pending
stdin_grows s t (begin method body key msg r p e) = rw e (sym (append-nil s.stdin))
stdin_grows s t (forwarded method body msg r p e) = rw e refl
stdin_grows s t (sent c p d e) = rw e refl
stdin_grows s t (not_sent c p e) = rw e (sym (append-nil s.stdin))
stdin_grows {decode} s t (line text h e) =
    rw e (read_line-stdin decode text s ∙ sym (append-nil s.stdin))
stdin_grows s t (delivered c msg h b e) = rw e (ground (arith, append-nil s.stdin))
stdin_grows s t (delivered_late c msg h b e) = rw e (ground (arith, append-nil s.stdin))
stdin_grows s t (received c msg p b e) = rw e (sym (append-nil s.stdin))
stdin_grows s t (saw_closed c p b q e) = rw e (sym (append-nil s.stdin))
stdin_grows s t (saw_done c p d e) = rw e (sym (append-nil s.stdin))
stdin_grows s t (cancelled c p e) = rw e (sym (append-nil s.stdin))
stdin_grows s t (cleaned c o p e) = rw e (sym (append-nil s.stdin))
stdin_grows s t (streamed msg rest p e) = rw e (sym (append-nil s.stdin))
stdin_grows s t (exited f e) = rw e (sym (append-nil s.stdin))
stdin_grows s t (announced f e) = rw e (sym (append-nil s.stdin))

reach-stdin : {decode : Decode} (s : Server) (r : Reach decode s) → s.stdin ≡ framed (messages r)
unfolding messages
reach-stdin s start = refl
reach-stdin t (later {s = s} r p k) =
    stdin_grows s t k
    ∙ (ap (λ (x : Str). x ++ framed (message_of k)) (reach-stdin s r)
        ∙ sym (framed-append (messages r) (message_of k)))

-- However the handlers, readLoop and the child's exit are interleaved: where no message that was sent to
-- the child holds a line feed, the lines that the child can read are just these messages, in the order
-- in which they were sent, each whole and with nothing behind the last.
pub stdin_lines :
    (decode : Decode) (s : Server) (r : Reach decode s)
    → All (Lacks 10) (messages r)
    → lines_of s.stdin ≡ (messages r, [])
unfolding lines_of
stdin_lines decode s r h =
    ap lines_of (reach-stdin s r)
    ∙ (ap (λ (ms : List Str). lines_of (framed ms)) (sym (append-nil (messages r)))
        ∙ (lines_of-framed (messages r) [] h
            ∙ ap (λ (ms : List Str). (ms, [])) (append-nil (messages r))))

-- A message with a line feed in it, as a JSON body that was laid out over lines, reaches the child as two
-- lines, neither of which is the message.
stdin_split :
    (decode : Decode) (s : Server) (r : Reach decode s) (ms : List Str) (a b : Str)
    → messages r ≡ ms ++ ((a ++ (10 ∷ b)) ∷ [])
    → All (Lacks 10) ms
    → Lacks 10 a
    → Lacks 10 b
    → lines_of s.stdin ≡ (ms ++ (a ∷ b ∷ []), [])
unfolding lines_of
stdin_split decode s r ms a b e h la lb =
    let split : lines_of (framed ((a ++ (10 ∷ b)) ∷ [])) ≡ (a ∷ b ∷ [], []) =
      rw (append_assoc a (10 ∷ b) (10 ∷ []))
        (lines_of-line a (b ++ (10 ∷ [])) la ∙ ap (λ o. (a ∷ o.0, o.1)) (lines_of-line b [] lb)) in
    ap lines_of (reach-stdin s r)
    ∙ (rw e (lines_of-framed ms _ h ∙ ap (λ o. (ms ++ o.0, o.1)) split))
