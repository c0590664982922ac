-- ===== src/Cmd/Flags.antt =====
-- ParseIntermixed of internal/cli/cli.go, and the header flag, httpToWS and the split at "--" of
-- cmd/mcptunnel/expose.go.
use mcptunnels.Prelude.{
  ℕ, zero, suc, ◌≤◌, Str, lit, Bool, false, Option, none, some, List, [], ◌∷◌, ◌++◌, if◌then◌else◌,
  ◌==◌, length, is_empty, ◌||◌, split_at_byte, trim_space, trim_prefix, has_prefix, ◌≡◌, ◌≢◌, inl,
  inr, arith, Option-cases, List-cases,
}
use mcptunnels.Http.{Url}

abbrev pub FlagSet : Type 0 → Type 0
FlagSet S = List Str → S → Option (S × List Str)

pub data Parsed (S : Type 0) : Type 0 where
  parsed : S → List Str → Parsed S
  bad_flags : Parsed S
  out_of_fuel : Parsed S

-- The loop on a number of rounds.
unfoldable pub parse_rounds : {S : Type 0} → FlagSet S → ℕ → List Str → List Str → S → Parsed S
parse_rounds parse fuel [] positional s = parsed s positional
parse_rounds parse zero (a ∷ args) positional s = out_of_fuel
parse_rounds parse (suc fuel) (a ∷ args) positional s = elim (parse (a ∷ args) s) [
  | none ↦ bad_flags
  | some (s', []) ↦ parsed s' positional
  | some (s', b ∷ rest) ↦ parse_rounds parse fuel rest (positional ++ (b ∷ [])) s'
]

unfoldable pub parse_intermixed : {S : Type 0} → FlagSet S → List Str → S → Parsed S
unfolding parse_rounds
parse_intermixed parse args s = parse_rounds parse (length args) args [] s

-- Parse leaves no more arguments than it got.
abbrev pub Shrinks : {S : Type 0} → FlagSet S → Type 0
Shrinks {S} parse =
    (args : List Str) (s s' : S) (rest : List Str)
    → parse args s ≡ some (s', rest)
    → length rest ≤ length args

parse_rounds_ends :
    {S : Type 0} (parse : FlagSet S)
    → Shrinks parse
    → (fuel : ℕ) (args positional : List Str) (s : S) → length args ≤ fuel
    → parse_rounds parse fuel args positional s ≢ out_of_fuel
unfolding parse_rounds
parse_rounds_ends parse law fuel [] positional s h = ground arith
parse_rounds_ends parse law zero (a ∷ args) positional s h = ground arith
parse_rounds_ends parse law (suc fuel) (a ∷ args) positional s h =
    elim (Option-cases (parse (a ∷ args) s)) [
      | inl e ↦ ground (arith, e)
      | inr ((s', rest), e) ↦ elim (List-cases rest) [
        | inl n ↦ ground (arith, e, n)
        | inr (b, later, n) ↦ ground (
          arith,
          e,
          n,
          law (a ∷ args) s s' rest e,
          parse_rounds_ends parse law fuel later (positional ++ (b ∷ [])) s',
        )
      ]
    ]

-- With a Parse that leaves at most the arguments it got, the loop of ParseIntermixed ends on every command
-- line: as many rounds as there are arguments are enough.
pub parse_intermixed_ends :
    {S : Type 0} (parse : FlagSet S)
    → Shrinks parse
    → (args : List Str) (s : S) → parse_intermixed parse args s ≢ out_of_fuel
unfolding parse_intermixed
parse_intermixed_ends parse law args s =
    parse_rounds_ends parse law (length args) args [] s (omega arith)

-- The arguments before the first "--", and those after it.
unfoldable pub split_command : List Str → List Str × List Str
split_command [] = ([], [])
split_command (a ∷ args) =
    let (flags, cmd) = split_command args in if a == lit "--" then ([], args) else (a ∷ flags, cmd)

-- headerFlag.Set: the name and the value to add; none is an error.
unfoldable pub header_flag : Str → Option (Str × Str)
unfolding split_at_byte trim_space
header_flag s = elim (split_at_byte 58 s) [
  | none ↦ none
  | some (name, []) ↦ none
  | some (name, colon ∷ value) ↦
      if is_empty (trim_space name) then none else some (trim_space name, trim_space value)
]

unfoldable pub http_to_ws : Str → Str
unfolding has_prefix trim_prefix
http_to_ws base =
    if has_prefix (lit "https://") base
    then lit "wss://" ++ trim_prefix (lit "https://") base
    else if has_prefix (lit "http://") base
    then lit "ws://" ++ trim_prefix (lit "http://") base
    else base

-- The test that the commands put to an --url.
abbrev pub is_http_url : (Str → Option Url) → Str → Bool
is_http_url parse raw = elim (parse raw) [
  | none ↦ false
  | some u ↦
      if is_empty u.scheme || is_empty u.host
      then false
      else (u.scheme == lit "http") || (u.scheme == lit "https")
]
