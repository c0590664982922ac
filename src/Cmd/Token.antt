-- ===== src/Cmd/Token.antt =====
-- parseTokenAddArgs, runTokenAdd, runTokenRemove, mask and tokenTransportFor of cmd/mcptunnel/token.go. The
-- environment and the flag set are parameters.
use mcptunnels.Prelude.{
  drop, ℕ, ◌-◌, ◌+◌, Str, lit, Bool, false, not, ◌&&◌, Option, none, some, List, [], ◌∷◌, ◌++◌,
  if◌then◌else◌, is_empty, ltb, leb, nat_eq, length, take,
}
use mcptunnels.Tokencache.{Entry, Source}
use mcptunnels.Tokencache.Files.{
  File, Codec, SaveCalls, absent, unreadable, present, normalize_url, save, lookup, remove,
}
use mcptunnels.Cmd.Flags.{FlagSet, parsed, bad_flags, out_of_fuel, parse_intermixed}

pub record TokenAddOpts : Type 0 where
  pub url : Str
  pub bearer : Str
  pub bearer_env : Str
  pub expires_in : ℕ
  pub refresh_token : Str
  pub token_url : Str
  pub client_id : Str
  pub token_cmd : Str

abbrev no_opts : TokenAddOpts
no_opts = record {
  url = [];
  bearer = [];
  bearer_env = [];
  expires_in = 0;
  refresh_token = [];
  token_url = [];
  client_id = [];
  token_cmd = [];
}

abbrev given : Str → Bool
given s = not (is_empty s)

-- The switch at the end of parseTokenAddArgs.
unfoldable pub check_sources : TokenAddOpts → Option TokenAddOpts
check_sources o =
    if given o.token_cmd && given o.bearer
    then none
    else if is_empty o.token_cmd && is_empty o.bearer
    then none
    else if given o.refresh_token && is_empty o.token_url
    then none
    else if given o.refresh_token && given o.token_cmd
    then none
    else if given o.token_url && is_empty o.refresh_token
    then none
    else if given o.client_id && is_empty o.token_url
    then none
    else some o

-- The entry that runTokenAdd stores.
abbrev pub entry_of : ℕ → TokenAddOpts → Entry
entry_of now o = record {
  url = o.url;
  access_token = o.bearer;
  expires_at = if ltb 0 o.expires_in then now + o.expires_in else 0;
  refresh_token = o.refresh_token;
  token_url = o.token_url;
  client_id = o.client_id;
  token_cmd = o.token_cmd;
}

module _ (codec : Codec) (env : Str → Str) where
  -- The checks on what the flags gave; a bearer token may be in the environment.
  unfoldable pub check_token_add : TokenAddOpts → Option TokenAddOpts
  unfolding check_sources normalize_url
  check_token_add o =
      let from_env = record o { bearer = env o.bearer_env } in
      if is_empty o.url then none else elim (normalize_url codec o.url) [
        | none ↦ none
        | some n ↦
            if given o.bearer && given o.bearer_env
            then none
            else if given o.bearer_env
            then (if is_empty from_env.bearer then none else check_sources from_env)
            else check_sources o
      ]

  unfoldable pub parse_token_add_args : FlagSet TokenAddOpts → List Str → Option TokenAddOpts
  unfolding parse_intermixed check_token_add
  parse_token_add_args flags args = elim (parse_intermixed flags args no_opts) [
    | parsed o [] ↦ check_token_add o
    | parsed o (a ∷ pos) ↦ none
    | bad_flags ↦ none
    | out_of_fuel ↦ none
  ]

  -- runTokenAdd; false is an error.
  unfoldable pub run_token_add :
      FlagSet TokenAddOpts → ℕ → SaveCalls → List Str → List File → Bool × List File
  unfolding parse_token_add_args save
  run_token_add flags now calls args files = elim (parse_token_add_args flags args) [
    | none ↦ (false, files)
    | some o ↦ save codec calls (entry_of now o) files
  ]

  -- runTokenRemove, of the URL that its flags gave.
  unfoldable pub run_token_remove : Bool → Str → List File → Bool × List File
  unfolding lookup remove
  run_token_remove read_ok raw files =
      if is_empty raw then (false, files) else elim (lookup codec read_ok raw files) [
        | none ↦ (false, files)
        | some absent ↦ (false, files)
        | some unreadable ↦ (false, files)
        | some (present e) ↦ remove codec raw files
      ]

  -- tokenTransportFor, with NewSource: the source of a transport's tokens; `explicit` is the Authorization
  -- header that the user gave.
  unfoldable pub token_transport_for : ℕ → Bool → Str → Str → List File → Option Source
  unfolding lookup
  token_transport_for now read_ok raw explicit files =
      if is_empty raw
      then none
      else if given explicit
      then none
      else elim (lookup codec read_ok raw files) [
        | none ↦ none
        | some absent ↦ none
        | some unreadable ↦ none
        | some (present e) ↦ some (record { entry = e; loaded_at = now; saved = [] })
      ]

-- mask: "…" is three bytes.
unfoldable pub mask : Str → Str
mask tok =
    let ellipsis = 226 ∷ 128 ∷ 166 ∷ [] in
    if leb (length tok) 5 then ellipsis else take 3 tok ++ (ellipsis ++ drop (length tok - 2) tok)

-- How runTokenList shows when an entry expires; the printed time is a parameter.
unfoldable pub expiry : (ℕ → Str) → ℕ → Entry → Str
expiry shown now e =
    if nat_eq e.expires_at 0
    then lit "never expires"
    else if leb e.expires_at now
    then lit "expired " ++ shown e.expires_at
    else lit "expires " ++ shown e.expires_at
