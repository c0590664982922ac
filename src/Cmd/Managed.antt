-- ===== src/Cmd/Managed.antt =====
-- From `token add` to the token of an upstream: cmd/mcptunnel/token.go over internal/tokencache.
use mcptunnels.Prelude.{ℕ, Str, true, false, some, List, [], is_empty, ◌≡◌, arith}
use mcptunnels.Tokencache.Files.{File, Codec, SaveCalls}
use mcptunnels.Tokencache.Keeping.{save_atomic, is_temp, same_file}
use mcptunnels.Cmd.Flags.{FlagSet}
use mcptunnels.Cmd.Token.{
  TokenAddOpts, parse_token_add_args, entry_of, run_token_add, token_transport_for,
}

-- After a `token add` that went well, with a temporary file of CreateTemp's name and an entry whose encoding
-- can be decoded, expose and run of any URL that is not empty and has the same file, without an
-- Authorization header of the user's and with a file that can be read, take their tokens from a source that
-- starts with the very entry that was added, at the time of their start.
pub token_transport_for-run_token_add :
    (codec : Codec) (env : Str → Str) (flags : FlagSet TokenAddOpts) (now later : ℕ)
    (calls : SaveCalls) (args : List Str) (files : List File) (o : TokenAddOpts) (t raw : Str)
    → parse_token_add_args codec env flags args ≡ some o
    → calls.temp ≡ some t
    → is_temp t ≡ true
    → codec.decode (codec.encode (entry_of now o)) ≡ some (entry_of now o)
    → (run_token_add codec env flags now calls args files).0 ≡ true
    → same_file codec raw o.url ≡ true
    → is_empty raw ≡ false
    → token_transport_for codec env later true raw []
        (run_token_add codec env flags now calls args files).1
      ≡ some (record { entry = entry_of now o; loaded_at = later; saved = [] })
unfolding run_token_add token_transport_for
token_transport_for-run_token_add codec env flags now later calls args files o t raw p et temp law
      ok same given =
    ground (
      arith,
      p,
      ok,
      same,
      given,
      save_atomic codec calls (entry_of now o) files t raw true et temp law,
    )
