-- ===== src/Stdiofront/Recovery.antt =====
-- Sessions that expire, in internal/stdiofront/stdiofront.go.
use mcptunnels.Prelude.{Str, false, Option-cases, Bool-cases, [], ◌≡◌, inl, inr, arith}
use mcptunnels.Stdiofront.Requests.{Endpoint, Front, is_success, posting, do_post, reinit, post}

module _ {U : Type 0} (send : Endpoint U) where
  -- Without a session, a message is sent once.
  post_bare : (s : Front U) (msg : Str) → s.session ≡ [] → post send msg s ≡ do_post send msg s
  unfolding post do_post
  post_bare s msg e = elim (Option-cases (send (posting send s s.session msg) s.upstream).0) [
    | inl n ↦ ground (arith, e, n)
    | inr (r, n) ↦ ground (arith, e, n)
  ]

  reinit_failed : (s : Front U) → (reinit send s).0 ≡ false → (reinit send s).1.session ≡ []
  unfolding reinit do_post
  reinit_failed s h = elim (Option-cases s.init_msg) [
    | inl i ↦ ground (arith, i)
    | inr (m, i) ↦ elim (Option-cases (send (posting send s [] m) s.upstream).0) [
      | inl n ↦ ground (arith, i, n)
      | inr (r, n) ↦ elim (Bool-cases (is_success r.status)) [
        | inl b ↦ absurd (ground (arith, i, n, b))
        | inr b ↦ ground (arith, i, n, b)
      ]
    ]
  ]

  -- Where the replayed initialize request fails, or is not answered with success, or was never made,
  -- the session id is gone: the next message is sent just once, without a session id of the front's own,
  -- whatever it is answered with, so the initialize request is not replayed again; and that leaves no session either.
  pub post_lost :
      (s : Front U) (later : Str)
      → (reinit send s).0 ≡ false
      → let after = (reinit send s).1 in
        (after.session ≡ [])
        × (post send later after ≡ do_post send later after)
        × ((post send later after).1.session ≡ [])
  post_lost s later h =
      let gone = reinit_failed s h in
      let once = post_bare (reinit send s).1 later gone in
      (gone, once, rw once (unfold do_post in gone))
