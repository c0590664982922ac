-- ===== src/Stdiofront/Serve.antt =====
-- Serve, scanLines and closeSession of internal/stdiofront/stdiofront.go, on the lines of stdin up to its
-- end; each line's request is finished before the next line is taken.
use mcptunnels.Prelude.{Str, Option, none, some, List, [], ◌∷◌, is_empty, if◌then◌else◌, trim_space}
use mcptunnels.Rpc.{Decode}
use mcptunnels.Stdiofront.Requests.{Endpoint, Failure, Front, handle_line}

-- The lines that are passed on, trimmed.
unfoldable pub scan_lines : List Str → List Str
unfolding trim_space
scan_lines [] = []
scan_lines (l ∷ ls) =
    let line = trim_space l in
    let rest = scan_lines ls in if is_empty line then rest else line ∷ rest

-- The session that the closing DELETE names; without one none is sent.
unfoldable pub close_session : {U : Type 0} → Front U → Option Str
close_session s = if is_empty s.session then none else some s.session

module _ {U : Type 0} (send : Endpoint U) (decode : Decode) (quoted : Failure → Str) where
  unfoldable pub handle_lines : List Str → Front U → Front U
  unfolding handle_line
  handle_lines [] s = s
  handle_lines (l ∷ ls) s = handle_lines ls (handle_line send decode quoted l s)

  -- What is left of the front, and the session that is terminated.
  unfoldable pub serve : List Str → Front U → Front U × Option Str
  unfolding handle_lines scan_lines close_session
  serve stdin s = let s' = handle_lines (scan_lines stdin) s in (s', close_session s')
