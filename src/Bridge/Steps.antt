-- ===== src/Bridge/Steps.antt =====
-- The interleavings of internal/bridge/bridge.go: any number of POST and GET handlers, readLoop, and the
-- goroutine that waits for the child. A step is what one of them does between two points at which
-- another may run; after a panic there is none.
use mcptunnels.Prelude.{ℕ, Str, true, false, Option, none, some, List, ◌∷◌, ◌≡◌}
use mcptunnels.Rpc.{Decode}
use mcptunnels.Bridge.{
  Server, Outcome, bad_gateway, gone, forward, request, to_post, unsent, waiting, leaving, started,
  plan, route, register, write, set_phase, clean_up, read_line, deliver, receive, fail_pending,
  stream,
}

pub data Step (decode : Decode) (s : Server) (t : Server) : Type 0 where
  -- ServeHTTP looked at done before the body was read; the exit may have been announced since.
  begin :
      (method : Str) (body : Option Str) (key msg : Str)
      → route (record s { done = false }) method ≡ to_post
      → plan decode body ≡ request key msg
      → t ≡ register key msg s
      → Step decode s t
  forwarded :
      (method : Str) (body : Option Str) (msg : Str)
      → route s method ≡ to_post
      → plan decode body ≡ forward msg
      → t ≡ write msg s
      → Step decode s t
  sent :
      (c : ℕ)
      → (s.posts c).phase ≡ unsent
      → s.done ≡ false
      → t ≡ set_phase c waiting (write (s.posts c).body s)
      → Step decode s t
  not_sent :
      (c : ℕ)
      → (s.posts c).phase ≡ unsent
      → t ≡ set_phase c (leaving bad_gateway) s
      → Step decode s t
  line : (text : Str) → s.held ≡ none → t ≡ read_line decode text s → Step decode s t
  delivered :
      (c : ℕ) (msg : Str)
      → s.held ≡ some (c, msg)
      → (s.posts c).buffer ≡ none
      → t ≡ deliver c msg s
      → Step decode s t
  delivered_late :
      (c : ℕ) (msg : Str)
      → s.held ≡ some (c, msg)
      → (s.posts c).closed ≡ true
      → t ≡ deliver c msg s
      → Step decode s t
  received :
      (c : ℕ) (msg : Str)
      → (s.posts c).phase ≡ waiting
      → (s.posts c).buffer ≡ some msg
      → t ≡ receive c msg s
      → Step decode s t
  saw_closed :
      (c : ℕ)
      → (s.posts c).phase ≡ waiting
      → (s.posts c).buffer ≡ none
      → (s.posts c).closed ≡ true
      → t ≡ set_phase c (leaving bad_gateway) s
      → Step decode s t
  saw_done :
      (c : ℕ)
      → (s.posts c).phase ≡ waiting
      → s.done ≡ true
      → t ≡ set_phase c (leaving bad_gateway) s
      → Step decode s t
  cancelled :
      (c : ℕ) → (s.posts c).phase ≡ waiting → t ≡ set_phase c (leaving gone) s → Step decode s t
  cleaned :
      (c : ℕ) (o : Outcome) → (s.posts c).phase ≡ leaving o → t ≡ clean_up c o s → Step decode s t
  streamed :
      (msg : Str) (rest : List Str)
      → s.notifs ≡ msg ∷ rest
      → t ≡ stream msg rest s
      → Step decode s t
  exited : s.failed ≡ false → t ≡ fail_pending s → Step decode s t
  announced : s.failed ≡ true → t ≡ record s { done = true } → Step decode s t

pub data Reach (decode : Decode) : Server → Type 0 where
  start : Reach decode started
  later : {s t : Server} → Reach decode s → s.panicked ≡ false → Step decode s t → Reach decode t

-- The states that any number of steps from a given one lead to.
pub data After (decode : Decode) (s : Server) : Server → Type 0 where
  here : After decode s s
  next_step :
      {t u : Server} → After decode s t → t.panicked ≡ false → Step decode t u → After decode s u
