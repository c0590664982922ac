-- ===== src/Bridge/Safety.antt =====
-- What holds in every state that internal/bridge/bridge.go can reach.
use mcptunnels.Prelude.{
  if_has, ℕ, ◌≤◌, Str, true, none, some, Option-cases, Bool-cases, List, ◌∷◌, ◌≡◌, ◌⊎◌, inl, inr,
  refl, arith, length, is_empty, trim_space,
}
use mcptunnels.Rpc.{Decode, id_of}
use mcptunnels.Bridge.{
  Server, Outcome, answered, bad_gateway, gone, waiting, leaving, returned, write, set_post,
  set_phase, set_pending, clean_up, read_line, deliver, receive, fail_pending, stream, notif_queue,
}
use mcptunnels.Bridge.Steps.{
  Step, begin, forwarded, sent, not_sent, line, delivered, delivered_late, received, saw_closed,
  saw_done, cancelled, cleaned, streamed, exited, announced, Reach, start, later,
}
use mcptunnels.Bridge.Invariant.{
  answer_of, Inv, started-Inv, posts-Inv, set_post-Inv, set_phase-Inv, rest-Inv, register-Inv,
  enqueue-Inv,
}

answer_kept :
    (o : Outcome) (m : Str) → answer_of (returned o) ≡ some m → answer_of (leaving o) ≡ some m
answer_kept (answered n) m e = e
answer_kept bad_gateway m e = e
answer_kept gone m e = e

module _ (decode : Decode) where
  read_line-Inv :
      (text : Str) (s : Server)
      → s.held ≡ none
      → Inv decode s
      → Inv decode (read_line decode text s)
  unfolding read_line
  read_line-Inv text s none_held v = elim (Bool-cases (is_empty (trim_space text))) [
    | inl b ↦ rw b v
    | inr b ↦ elim (Option-cases (decode text)) [
      | inl d ↦ rw (b, d) v
      | inr (e, d) ↦ elim (Option-cases e.id) [
        | inl i ↦ rw (b, d, i) (enqueue-Inv decode text s v)
        | inr (key, i) ↦ elim (Option-cases (s.pending key)) [
          | inl p ↦ rw (b, d, i, p) (enqueue-Inv decode text s v)
          | inr (c, p) ↦
              rw (b, d, i, p)
                (rest-Inv decode s (record s { held = some (c, text) }) v refl refl (λ k x q. q)
                  (λ x m q. ground (arith, d, i, q, v.keyed key c p)) v.bounded)
        ]
      ]
    ]
  ]

  deliver-Inv :
      (c : ℕ) (m : Str) (s : Server)
      → s.held ≡ some (c, m)
      → Inv decode s
      → Inv decode (deliver c m s)
  unfolding deliver
  deliver-Inv c m s h v =
      let filled = record (s.posts c) { buffer = some m } in
      let there =
        set_post-Inv decode c filled s v refl
          ((λ n e. ground (arith, e, v.held_own c m h)), (v.own c).1) in
      if_has (Inv decode) (s.posts c).closed (record s { panicked = true })
        (record (set_post c filled s) { held = none })
        (rest-Inv decode s (record s { panicked = true }) v refl refl (λ k x q. q) v.held_own
          v.bounded)
        (rest-Inv decode (set_post c filled s) (record (set_post c filled s) { held = none }) there
          refl refl (λ k x q. q) (λ x n q. absurd (ground (arith, q))) v.bounded)

  receive-Inv :
      (c : ℕ) (m : Str) (s : Server)
      → (s.posts c).buffer ≡ some m
      → Inv decode s
      → Inv decode (receive c m s)
  unfolding receive
  receive-Inv c m s h v =
      set_post-Inv decode c (record (s.posts c) { buffer = none; phase = leaving (answered m) }) s v
        refl (λ n e. absurd (ground (arith, e)), λ n e. ground (arith, e, (v.own c).0 m h))

  clean_up-Inv :
      (c : ℕ) (o : Outcome) (s : Server)
      → (s.posts c).phase ≡ leaving o
      → Inv decode s
      → Inv decode (clean_up c o s)
  unfolding clean_up
  clean_up-Inv c o s h v =
      let phased =
        set_phase-Inv decode c (returned o) s v (λ m e. (v.own c).1 m (rw h (answer_kept o m e))) in
      rest-Inv decode (set_phase c (returned o) s) (clean_up c o s) phased refl refl
        (λ k x q. fewer k x q) phased.held_own v.bounded
    where
      fewer :
          (k : Str) (x : ℕ)
          → set_pending (s.posts c).key none s.pending k ≡ some x
          → s.pending k ≡ some x
      fewer k x q = ground (arith, q)

  fail_pending-Inv : (s : Server) → Inv decode s → Inv decode (fail_pending s)
  unfolding fail_pending
  fail_pending-Inv s v =
      let closing = posts-Inv decode (fail_pending s).posts s v (λ d. refl) v.own in
      rest-Inv decode (record s { posts = (fail_pending s).posts }) (fail_pending s) closing refl
        refl (λ k x q. absurd (ground (arith, q))) closing.held_own v.bounded

  write-Inv : (m : Str) (s : Server) → Inv decode s → Inv decode (write m s)
  write-Inv m s v = rest-Inv decode s (write m s) v refl refl (λ k x q. q) v.held_own v.bounded

  stream-Inv :
      (m : Str) (rest : List Str) (s : Server)
      → s.notifs ≡ m ∷ rest
      → Inv decode s
      → Inv decode (stream m rest s)
  unfolding stream
  stream-Inv m rest s h v =
      rest-Inv decode s (stream m rest s) v refl refl (λ k x q. q) v.held_own
        (ground (arith, h, v.bounded))

  done-Inv : (s : Server) → Inv decode s → Inv decode (record s { done = true })
  done-Inv s v =
      rest-Inv decode s (record s { done = true }) v refl refl (λ k x q. q) v.held_own v.bounded

  Step-Inv : {s t : Server} → Step decode s t → Inv decode s → Inv decode t
  Step-Inv {s} (begin method body key msg r p e) v = rw e (register-Inv decode key msg s v)
  Step-Inv {s} (forwarded method body msg r p e) v = rw e (write-Inv msg s v)
  Step-Inv {s} (sent c h d e) v = rw e (
      set_phase-Inv decode c waiting (write (s.posts c).body s) (write-Inv (s.posts c).body s v)
        (λ m q. absurd (ground (arith, q))))
  Step-Inv {s} (not_sent c h e) v =
      rw e (set_phase-Inv decode c (leaving bad_gateway) s v (λ m q. absurd (ground (arith, q))))
  Step-Inv {s} (line text h e) v = rw e (read_line-Inv text s h v)
  Step-Inv {s} (delivered c m h b e) v = rw e (deliver-Inv c m s h v)
  Step-Inv {s} (delivered_late c m h b e) v = rw e (deliver-Inv c m s h v)
  Step-Inv {s} (received c m w b e) v = rw e (receive-Inv c m s b v)
  Step-Inv {s} (saw_closed c w b d e) v =
      rw e (set_phase-Inv decode c (leaving bad_gateway) s v (λ m q. absurd (ground (arith, q))))
  Step-Inv {s} (saw_done c w d e) v =
      rw e (set_phase-Inv decode c (leaving bad_gateway) s v (λ m q. absurd (ground (arith, q))))
  Step-Inv {s} (cancelled c w e) v =
      rw e (set_phase-Inv decode c (leaving gone) s v (λ m q. absurd (ground (arith, q))))
  Step-Inv {s} (cleaned c o w e) v = rw e (clean_up-Inv c o s w v)
  Step-Inv {s} (streamed m rest h e) v = rw e (stream-Inv m rest s h v)
  Step-Inv {s} (exited f e) v = rw e (fail_pending-Inv s v)
  Step-Inv {s} (announced f e) v = rw e (done-Inv s v)

  Reach-Inv : {s : Server} → Reach decode s → Inv decode s
  Reach-Inv start = started-Inv decode
  Reach-Inv (later r p st) = Step-Inv st (Reach-Inv r)

  -- In every state that any interleaving of handlers, readLoop and the child's exit can reach: a request
  -- that was answered with a message of the child was answered with one that has the request's own id,
  -- a message that waits on a request's channel has that id too, and at most 256 messages are queued for
  -- the stream.
  pub answered_own_id :
      (s : Server) (c : ℕ) (m : Str)
      → Reach decode s
      → ((s.posts c).phase ≡ returned (answered m)) ⊎ ((s.posts c).buffer ≡ some m)
      → (id_of (decode m) ≡ some (s.posts c).key) × (length s.notifs ≤ notif_queue)
  answered_own_id s c m r h =
      let v = Reach-Inv r in
      (elim h [ inl e ↦ (v.own c).1 m (rw e refl) | inr e ↦ (v.own c).0 m e ], v.bounded)
