-- ===== src/Bridge/Invariant.antt =====
-- The invariant of internal/bridge/bridge.go, and the changes that keep it.
use mcptunnels.Prelude.{
  if_has, ℕ, ◌+◌, ◌≤◌, ◌<◌, Str, false, Option, none, some, Bool-cases, List, [], ◌∷◌, ◌++◌, ◌≡◌,
  inl, inr, refl, ap, arith, nat_eq, nat_eq_iff, length, ltb, if◌then◌else◌, ◌==◌, eq_iff,
}
use mcptunnels.Rpc.{Decode, id_of}
use mcptunnels.Bridge.{
  Server, Post, Phase, answered, unsent, waiting, leaving, returned, started, register, set_post,
  set_phase, enqueue, notif_queue,
}

-- The message that a request has been answered with.
abbrev pub answer_of : Phase → Option Str
answer_of unsent = none
answer_of waiting = none
answer_of (leaving (answered m)) = some m
answer_of (leaving o) = none
answer_of (returned (answered m)) = some m
answer_of (returned o) = none

module _ (decode : Decode) where
  -- A message that belongs to a request: its id is the request's.
  abbrev pub Belongs : Str → Post → Type 0
  Belongs m p = id_of (decode m) ≡ some p.key

  -- One request: what its channel holds and what it was answered with belong to it.
  abbrev pub IsOwn : Post → Type 0
  IsOwn p =
      ((m : Str) → p.buffer ≡ some m → Belongs m p)
      × ((m : Str) → answer_of p.phase ≡ some m → Belongs m p)

  -- All requests, the map, the message in readLoop's hands, and the queue.
  pub record Inv (s : Server) : Type 0 where
    pub own : (c : ℕ) → IsOwn (s.posts c)
    pub keyed :
        (key : Str) (c : ℕ) → s.pending key ≡ some c → ((s.posts c).key ≡ key) × (c < s.next)
    pub held_own : (c : ℕ) (m : Str) → s.held ≡ some (c, m) → Belongs m (s.posts c) × (c < s.next)
    pub bounded : length s.notifs ≤ notif_queue

  pub started-Inv : Inv started
  started-Inv = record {
    own = λ c. (λ m e. ground (arith, e), λ m e. ground (arith, e));
    keyed = λ key c e. absurd (ground (arith, e));
    held_own = λ c m e. absurd (ground (arith, e));
    bounded = ground arith;
  }

  -- Requests that change in place, each under the key that it has.
  pub posts-Inv :
      (posts : ℕ → Post) (s : Server)
      → Inv s
      → ((d : ℕ) → (posts d).key ≡ (s.posts d).key)
      → ((d : ℕ) → IsOwn (posts d))
      → Inv (record s { posts = posts })
  posts-Inv posts s v k o = record {
    own = o;
    keyed = λ key d e. ground (arith, k d, v.keyed key d e);
    held_own = λ d m e. ground (arith, k d, v.held_own d m e);
    bounded = v.bounded;
  }

  set_post-key :
      (c : ℕ) (p : Post) (s : Server)
      → p.key ≡ (s.posts c).key
      → (d : ℕ) → (if nat_eq c d then p else s.posts d).key ≡ (s.posts d).key
  set_post-key c p s k d = elim (Bool-cases (nat_eq c d)) [
    | inl b ↦ ground (arith, b, k, ap (λ x. (s.posts x).key) ((nat_eq_iff c d).0 b))
    | inr b ↦ ground (arith, b)
  ]

  pub set_post-Inv :
      (c : ℕ) (p : Post) (s : Server)
      → Inv s
      → p.key ≡ (s.posts c).key
      → IsOwn p
      → Inv (set_post c p s)
  set_post-Inv c p s v k o =
      posts-Inv (λ d. if nat_eq c d then p else s.posts d) s v (set_post-key c p s k)
        (λ d. if_has IsOwn (nat_eq c d) p (s.posts d) o (v.own d))

  -- A change of phase, where the new phase has an answer only of the request's own.
  pub set_phase-Inv :
      (c : ℕ) (q : Phase) (s : Server)
      → Inv s
      → ((m : Str) → answer_of q ≡ some m → Belongs m (s.posts c))
      → Inv (set_phase c q s)
  set_phase-Inv c q s v a =
      set_post-Inv c (record (s.posts c) { phase = q }) s v refl ((v.own c).0, a)

  -- What the invariant does not read may change; the map may shrink.
  pub rest-Inv :
      (s t : Server)
      → Inv s
      → t.posts ≡ s.posts
      → t.next ≡ s.next
      → ((key : Str) (c : ℕ) → t.pending key ≡ some c → s.pending key ≡ some c)
      → ((c : ℕ) (m : Str) → t.held ≡ some (c, m) → Belongs m (s.posts c) × (c < s.next))
      → length t.notifs ≤ notif_queue
      → Inv t
  rest-Inv s t v same n p h b = record {
    own = rw same v.own;
    keyed = λ key c e. rw (same, n) (v.keyed key c (p key c e));
    held_own = λ c m e. rw (same, n) (h c m e);
    bounded = b;
  }

  length-snoc : (ms : List Str) (m : Str) → length (ms ++ (m ∷ [])) ≡ length ms + 1
  length-snoc [] m = refl
  length-snoc (x ∷ ms) m = ground (arith, length-snoc ms m)

  pub register-Inv : (key body : Str) (s : Server) → Inv s → Inv (register key body s)
  unfolding register
  register-Inv key body s v = record {
    own = λ d.
        if_has IsOwn (nat_eq s.next d)
          (record { key = key; body = body; buffer = none; closed = false; phase = unsent })
          (s.posts d) (λ m e. ground (arith, e), λ m e. ground (arith, e)) (v.own d);
    keyed = λ k d e. elim (Bool-cases (key == k)) [
      | inl b ↦ ground (arith, b, e, (eq_iff key k).0 b)
      | inr b ↦
          let (same, old) = v.keyed k d (ground (arith, b, e)) in
          (ground (arith, same, old), ground (arith, old))
    ];
    held_own = λ d m e.
        let (same, old) = v.held_own d m e in (ground (arith, same, old), ground (arith, old));
    bounded = v.bounded;
  }

  pub enqueue-Inv : (m : Str) (s : Server) → Inv s → Inv (enqueue m s)
  unfolding enqueue
  enqueue-Inv m s v = elim (Bool-cases (ltb (length s.notifs) notif_queue)) [
    | inl b ↦ rw b (
        rest-Inv s (record s { notifs = s.notifs ++ (m ∷ []) }) v refl refl (λ key c e. e)
          v.held_own (ground (arith, b, length-snoc s.notifs m)))
    | inr b ↦ rw b v
  ]
