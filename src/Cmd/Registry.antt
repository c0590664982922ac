-- ===== src/Cmd/Registry.antt =====
-- runToken and runTokenList of cmd/mcptunnel/token.go, and the exit codes of cmd/mcptunnel/main.go.
use mcptunnels.Prelude.{
  drop, ℕ, ◌-◌, Str, lit, Bool, false, none, some, List, [], ◌∷◌, ◌++◌, ◌==◌, ◌≡◌, ◌||◌, suc,
  if◌then◌else◌, is_empty, leb, length, refl, arith, ap,
}
use mcptunnels.Tokencache.{Entry, source_type}
use mcptunnels.Tokencache.Files.{File, Codec, SaveCalls, list_entries}
use mcptunnels.Cmd.Flags.{FlagSet, parsed, bad_flags, out_of_fuel, parse_intermixed}
use mcptunnels.Cmd.Token.{
  TokenAddOpts, parse_token_add_args, run_token_add, run_token_remove, entry_of, mask, expiry,
}

-- How a command ends: without an error, with one of its usage, or with another.
pub data Ending : Type 0 where
  fine : Ending
  misused : Ending
  failed : Ending

-- main
abbrev pub exit_code : Ending → ℕ
exit_code fine = 0
exit_code misused = 2
exit_code failed = 1

-- The lines of one entry.
unfoldable pub entry_text : (ℕ → Str) → ℕ → Entry → Str
unfolding mask source_type expiry
entry_text shown now e =
    e.url
    ++ (lit "\n  token: "
        ++ (mask e.access_token
            ++ (lit "  source: "
                ++ (source_type e ++ (lit "  " ++ (expiry shown now e ++ lit "\n"))))))

unfoldable pub entries_text : (ℕ → Str) → ℕ → List Entry → Str
unfolding entry_text
entries_text shown now [] = []
entries_text shown now (e ∷ entries) = entry_text shown now e ++ entries_text shown now entries

-- What the system gives to a token command: the clock and its times as text, the calls of a Save, whether a
-- file can be read and whether the directory can, and the sorting by name of os.ReadDir.
pub record Surroundings : Type 0 where
  pub now : ℕ
  pub shown : ℕ → Str
  pub calls : SaveCalls
  pub read_ok : Bool
  pub list_ok : Bool
  pub sorted : List File → List File

-- How it ended, what it printed, and the files.
pub record Done : Type 0 where
  pub ending : Ending
  pub printed : Str
  pub files : List File

-- The flag sets of the three commands; `token list` has no flags, and `token remove` has an URL.
pub record TokenFlags : Type 0 where
  pub add_flags : FlagSet TokenAddOpts
  pub list_flags : FlagSet Str
  pub remove_flags : FlagSet Str

abbrev pub done : Ending → Str → List File → Done
done ending printed files = record { ending = ending; printed = printed; files = files }

module _ (codec : Codec) (env : Str → Str) (flags : TokenFlags) (w : Surroundings) where
  abbrev pub listed : List File → Done
  listed files =
      let entries = list_entries codec (w.sorted files) in
      if w.list_ok
      then elim entries [
        | [] ↦ done fine (lit "no tokens stored\n") files
        | e ∷ es ↦ done fine (entries_text w.shown w.now (e ∷ es)) files
      ]
      else done failed [] files

  unfoldable pub run_token_list : List Str → List File → Done
  unfolding parse_intermixed list_entries entries_text
  run_token_list args files = elim (parse_intermixed flags.list_flags args []) [
    | parsed o [] ↦ listed files
    | parsed o (a ∷ pos) ↦ done misused [] files
    | bad_flags ↦ done misused [] files
    | out_of_fuel ↦ done misused [] files
  ]

  -- runTokenRemove on an URL that is given.
  unfoldable pub removed : Str → List File → Done
  unfolding run_token_remove
  removed raw files =
      let (ok, files') = run_token_remove codec env w.read_ok raw files in
      if is_empty raw
      then done misused [] files
      else if ok
      then done fine (lit "token removed for " ++ (raw ++ lit "\n")) files'
      else done failed [] files

  unfoldable pub run_remove : List Str → List File → Done
  unfolding parse_intermixed removed
  run_remove args files = elim (parse_intermixed flags.remove_flags args []) [
    | parsed raw [] ↦ removed raw files
    | parsed raw (a ∷ pos) ↦ done misused [] files
    | bad_flags ↦ done misused [] files
    | out_of_fuel ↦ done misused [] files
  ]

  unfoldable pub run_add : List Str → List File → Done
  unfolding parse_token_add_args run_token_add source_type
  run_add args files =
      let (ok, files') = run_token_add codec env flags.add_flags w.now w.calls args files in
      elim (parse_token_add_args codec env flags.add_flags args) [
        | none ↦ done misused [] files
        | some o ↦
            let source = source_type (entry_of w.now o) in
            if ok
            then done fine
                (lit "token stored for " ++ (o.url ++ (lit " (" ++ (source ++ lit ")\n")))) files'
            else done failed [] files'
      ]

  unfoldable pub run_token : List Str → List File → Done
  unfolding run_add run_token_list run_remove
  run_token [] files = done misused [] files
  run_token (name ∷ args) files =
      if name == lit "add"
      then run_add args files
      else if name == lit "list"
      then run_token_list args files
      else if name == lit "remove"
      then run_remove args files
      else done misused [] files

-- The command that run of main.go goes on with, and its arguments.
pub data Command : Type 0 where
  exposing : List Str → Command
  bridging : List Str → Command
  managing : List Str → Command
  helping : Command
  mistaken : Command

unfoldable pub command : List Str → Command
command [] = mistaken
command (name ∷ args) =
    if name == lit "expose"
    then exposing args
    else if name == lit "run"
    then bridging args
    else if name == lit "token"
    then managing args
    else if (name == lit "-h") || ((name == lit "--help") || (name == lit "help"))
    then helping
    else mistaken

-- A command of main.go, where what expose and run come to is given.
unfoldable pub main : (List Str → Ending) → (List Str → Ending) → (List Str → Ending) → List Str → ℕ
unfolding command
main run_expose run_run run_token args = elim (command args) [
  | exposing rest ↦ exit_code (run_expose rest)
  | bridging rest ↦ exit_code (run_run rest)
  | managing rest ↦ exit_code (run_token rest)
  | helping ↦ 0
  | mistaken ↦ 2
]

length_pair : (m : Str) (x y : ℕ) → length (m ++ (x ∷ y ∷ [])) ≡ suc (suc (length m))
length_pair [] x y = refl
length_pair (c ∷ m) x y = ap suc (length_pair m x y)

drop-length : (m s : Str) → drop (length m) (m ++ s) ≡ s
drop-length [] s = refl
drop-length (c ∷ m) s = drop-length m s

-- Of a token with more than five bytes, mask shows the first three and the last two alone.
mask_middle :
    (a b c d x y : ℕ) (m : Str)
    → mask (a ∷ b ∷ c ∷ d ∷ (m ++ (x ∷ y ∷ [])))
      ≡ (a ∷ b ∷ c ∷ []) ++ ((226 ∷ 128 ∷ 166 ∷ []) ++ (x ∷ y ∷ []))
unfolding mask
mask_middle a b c d x y m =
    let long : leb (suc (suc (suc (suc (suc (suc (length m))))))) 5 ≡ false = ground arith in
    let cut : suc (suc (suc (suc (suc (suc (length m)))))) - 2 ≡ suc (suc (suc (suc (length m)))) =
      omega arith in
    rw (length_pair m x y, long, cut)
      (ap (λ s. a ∷ b ∷ c ∷ 226 ∷ 128 ∷ 166 ∷ s) (drop-length m (x ∷ y ∷ [])))

-- What is listed of an entry depends on its token by what mask shows of it.
entry_masked :
    (shown : ℕ → Str) (now : ℕ) (e : Entry) (other : Str)
    → mask other ≡ mask e.access_token
    → entry_text shown now (record e { access_token = other }) ≡ entry_text shown now e
unfolding entry_text source_type expiry
entry_masked shown now e other h = rw h refl
