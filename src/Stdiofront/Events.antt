-- ===== src/Stdiofront/Events.antt =====
-- readEvents and dispatch of internal/stdiofront/stdiofront.go: server-sent events to lines on stdout.
-- A line is what ReadString('\n') returns without that byte, which the code trims off; the line before
-- the end of the stream may be unfinished.
use mcptunnels.Prelude.{
  ℕ, Str, lit, Bool, true, not, ◌&&◌, none, some, List, [], ◌∷◌, ◌++◌, is_empty, if◌then◌else◌,
  nat_eq, cut_prefix, trim_prefix, trim_space, trim_line_end,
}
use mcptunnels.Rpc.{Decode, id_of, has_id}

abbrev push_byte : ℕ → List Str × Str → List Str × Str
push_byte c ([], last) = ([], c ∷ last)
push_byte c (l ∷ ls, last) = ((c ∷ l) ∷ ls, last)

-- The finished lines, and what follows the last of them.
unfoldable pub lines_of : Str → List Str × Str
lines_of [] = ([], [])
lines_of (c ∷ s) =
    let (ls, last) = lines_of s in
    let longer = push_byte c (ls, last) in if nat_eq c 10 then ([] ∷ ls, last) else longer

-- The data of the event that is being read, the lines written to stdout, and whether to read on.
pub record Reading : Type 0 where
  pub data_read : Str
  pub out : List Str
  pub going : Bool

module _ (decode : Decode) (want : Str) where
  -- The wanted response; with no id wanted, none is.
  abbrev pub completes : Str → Bool
  completes line = not (is_empty want) && has_id want (id_of (decode line))

  unfoldable pub dispatch : Reading → Reading
  unfolding trim_space
  dispatch r =
      let line = trim_space r.data_read in
      if is_empty line
      then record r { data_read = [] }
      else record { data_read = []; out = r.out ++ (line ∷ []); going = not (completes line) }

  unfoldable pub take_line : Str → Reading → Reading
  unfolding dispatch cut_prefix trim_prefix trim_line_end
  take_line raw r =
      let line = trim_line_end raw in
      if is_empty line
      then (if is_empty r.data_read then r else dispatch r)
      else elim (cut_prefix (lit "data:") line) [
        | none ↦ r
        | some rest ↦ record r {
          data_read = r.data_read ++ (trim_prefix (lit " ") rest ++ (10 ∷ []));
        }
      ]

  unfoldable pub read_lines : List Str → Reading → Reading
  unfolding take_line
  read_lines [] r = r
  read_lines (l ∷ ls) r = let rest = read_lines ls (take_line l r) in if r.going then rest else r

  -- The end of the stream, behind an unfinished line if there is one.
  unfoldable pub finish : Str → Reading → Reading
  unfolding take_line
  finish last r =
      let r' = if is_empty last then r else take_line last r in
      if r.going then (if r'.going && not (is_empty r'.data_read) then dispatch r' else r') else r

  unfoldable pub read_events : Str → List Str → List Str
  unfolding read_lines finish lines_of
  read_events input out =
      let (ls, last) = lines_of input in
      (finish last (read_lines ls (record { data_read = []; out = out; going = true }))).out
