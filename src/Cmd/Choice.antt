-- ===== src/Cmd/Choice.antt =====
-- Which command lines of cmd/mcptunnel are accepted.
use mcptunnels.Prelude.{
  Str, Bool, true, false, not, ◌&&◌, Option, none, some, List, if◌then◌else◌, is_empty, ◌≡◌, refl,
  ◌⊎◌, inl, inr, arith, Option-cases,
}
use mcptunnels.Http.{Url}
use mcptunnels.Cmd.Flags.{
  FlagSet, Parsed, parsed, bad_flags, out_of_fuel, parse_intermixed, split_command, is_http_url,
}
use mcptunnels.Cmd.Expose.{ExposeOpts, no_opts, no_args, parse_expose_args}
use mcptunnels.Cmd.Token.{TokenAddOpts, check_sources, check_token_add}
use mcptunnels.Tokencache.Files.{Codec, normalize_url}

Parsed-cases :
    {S : Type 0} (r : Parsed S)
    → ((s : S) × (pos : List Str) × (r ≡ parsed s pos)) ⊎ ((r ≡ bad_flags) ⊎ (r ≡ out_of_fuel))
Parsed-cases (parsed s pos) = inl (s, pos, refl)
Parsed-cases bad_flags = inr (inl refl)
Parsed-cases out_of_fuel = inr (inr refl)

-- Options that name an upstream in one of the two ways: a URL of http or https and no command, or a command
-- and no URL.
abbrev pub one_upstream : (Str → Option Url) → ExposeOpts → Bool
one_upstream parse_url o =
    if is_empty o.upstream_url
    then not (no_args o.cmd_args)
    else is_http_url parse_url o.upstream_url && no_args o.cmd_args

-- The options that an expose is started with name one upstream, and the command is what follows the first
-- "--" of the command line.
pub parse_expose_args-one_upstream :
    (parse_url : Str → Option Url) (flags : FlagSet ExposeOpts) (args : List Str) (o : ExposeOpts)
    → parse_expose_args parse_url flags args ≡ some o
    → (one_upstream parse_url o ≡ true) × (o.cmd_args ≡ (split_command args).1)
unfolding parse_expose_args
parse_expose_args-one_upstream parse_url flags args o h =
    elim (Parsed-cases (parse_intermixed flags (split_command args).0 no_opts)) [
      | inl (opts, pos, e) ↦ ground (arith, e)
      | inr (inl e) ↦ ground (arith, e)
      | inr (inr e) ↦ ground (arith, e)
    ]

abbrev is_some : Option Str → Bool
is_some none = false
is_some (some s) = true

-- One source of tokens: a command, or a bearer token, which may come with a refresh token and its endpoint.
abbrev pub one_source : TokenAddOpts → Bool
one_source o =
    if is_empty o.token_cmd
    then not (is_empty o.bearer)
      && (if is_empty o.refresh_token
          then is_empty o.token_url && is_empty o.client_id
          else not (is_empty o.token_url))
    else is_empty o.bearer
      && (is_empty o.refresh_token && (is_empty o.token_url && is_empty o.client_id))

-- The options with which a token is added have a URL that is valid and one source of tokens; its tokens
-- are refreshable only with the endpoint for it.
pub check_token_add-one_source :
    (codec : Codec) (env : Str → Str) (o p : TokenAddOpts)
    → check_token_add codec env o ≡ some p
    → (one_source p ≡ true) × (is_some (normalize_url codec p.url) ≡ true)
unfolding check_token_add check_sources
check_token_add-one_source codec env o p h = elim (Option-cases (normalize_url codec o.url)) [
  | inl e ↦ ground (arith, e)
  | inr (n, e) ↦ ground (arith, e)
]
