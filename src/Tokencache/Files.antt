-- ===== src/Tokencache/Files.antt =====
-- internal/tokencache/tokencache.go: NormalizeURL, the file name of an entry, and Save, Lookup, Remove and
-- List on the directory of the entries. Parsing and printing URLs, SHA-256 and the JSON codec are
-- parameters; the directory is a list of named files, and each call's system calls succeed or fail as its
-- readings say.
use mcptunnels.Prelude.{
  Str, lit, Bool, true, false, not, ◌&&◌, ◌||◌, Option, none, some, List, [], ◌∷◌, ◌++◌,
  if◌then◌else◌, ◌==◌, is_empty, keep, find, to_lower, trim_right, hex_encode, nat_eq,
}
use mcptunnels.Http.{Url}
use mcptunnels.Tokencache.{Entry}

-- strings.HasSuffix
unfoldable pub has_suffix : Str → Str → Bool
has_suffix suffix [] = is_empty suffix
has_suffix suffix (c ∷ s) = (suffix == (c ∷ s)) || has_suffix suffix s

has_colon : Str → Bool
has_colon [] = false
has_colon (c ∷ s) = nat_eq c 58 || has_colon s

-- The part before the last colon, which the callers know to be there.
unfoldable pub before_last_colon : Str → Str
unfolding has_colon
before_last_colon [] = []
before_last_colon (c ∷ s) =
    let rest = before_last_colon s in if nat_eq c 58 && not (has_colon s) then [] else c ∷ rest

abbrev drops_port : Url → Bool
drops_port u =
    ((u.scheme == lit "http") && has_suffix (lit ":80") u.host)
    || ((u.scheme == lit "https") && has_suffix (lit ":443") u.host)

-- The changes of NormalizeURL to a parsed URL.
unfoldable pub canonical : Url → Url
unfolding to_lower trim_right has_suffix before_last_colon
canonical u =
    let v = record u { scheme = to_lower u.scheme; host = to_lower u.host } in
    record v {
      host = if drops_port v then before_last_colon v.host else v.host;
      path = trim_right 47 v.path;
      query = [];
      fragment = [];
    }

-- A file of the directory.
pub record File : Type 0 where
  pub name : Str
  pub content : Str

abbrev pub named : Str → File → Bool
named n f = f.name == n

-- os.Remove and the writing of a file under a name.
abbrev pub unlink : Str → List File → List File
unlink n files = keep (λ f. not (named n f)) files

abbrev pub put : Str → Str → List File → List File
put n bytes files = record { name = n; content = bytes } ∷ unlink n files

-- What the system calls of a Save come to: the directory and the temporary file, with its name, are made;
-- its mode is changed, its data written, it is closed and renamed.
pub record SaveCalls : Type 0 where
  pub mkdir_ok : Bool
  pub temp : Option Str
  pub chmod_ok : Bool
  pub write_ok : Bool
  pub close_ok : Bool
  pub rename_ok : Bool

-- A file that is read: its content, none where it is absent, or a failure.
pub data Found : Type 0 where
  absent : Found
  unreadable : Found
  present : Entry → Found

pub record Codec : Type 0 where
  pub parse : Str → Option Url
  pub print : Url → Str
  pub sha256 : Str → Str
  pub encode : Entry → Str
  pub decode : Str → Option Entry

module _ (codec : Codec) where
  unfoldable pub normalize_url : Str → Option Str
  unfolding canonical
  normalize_url raw = elim (codec.parse raw) [
    | none ↦ none
    | some u ↦
        if is_empty u.scheme || is_empty u.host then none else some (codec.print (canonical u))
  ]

  unfoldable pub key : Str → Option Str
  unfolding normalize_url hex_encode
  key raw = elim (normalize_url raw) [
    | none ↦ none
    | some n ↦ some (hex_encode (codec.sha256 n) ++ lit ".json")
  ]

  -- The temporary file under its name at the end of the call, with the data where they were written; the
  -- deferred removal follows.
  abbrev pub written : SaveCalls → Str → Str → List File → List File
  written calls temp bytes files =
      put temp (if calls.chmod_ok && calls.write_ok then bytes else []) files

  unfoldable pub save : SaveCalls → Entry → List File → Bool × List File
  unfolding key keep
  save calls e files = elim (key e.url) [
    | none ↦ (false, files)
    | some k ↦ elim (calls.temp) [
      | none ↦ (false, files)
      | some temp ↦
          let files' = written calls temp (codec.encode e) files in
          let renamed = put k (codec.encode e) (unlink temp files') in
          if not calls.mkdir_ok
          then (false, files)
          else if calls.chmod_ok && (calls.write_ok && (calls.close_ok && calls.rename_ok))
          then (true, unlink temp renamed)
          else (false, unlink temp files')
    ]
  ]

  -- None is an URL that is not valid; `read_ok` tells whether a file that is there can be read.
  unfoldable pub lookup : Bool → Str → List File → Option Found
  unfolding key find
  lookup read_ok raw files = elim (key raw) [
    | none ↦ none
    | some k ↦ elim (find (named k) files) [
      | none ↦ some absent
      | some f ↦ elim (codec.decode f.content) [
        | none ↦ some unreadable
        | some e ↦ if read_ok then some (present e) else some unreadable
      ]
    ]
  ]

  -- Remove, of a file that the system lets go.
  unfoldable pub remove : Str → List File → Bool × List File
  unfolding key keep
  remove raw files = elim (key raw) [ none ↦ (false, files) | some k ↦ (true, unlink k files) ]

  -- List: files of another suffix are skipped, and so are those that do not decode.
  unfoldable pub list_entries : List File → List Entry
  unfolding has_suffix
  list_entries [] = []
  list_entries (f ∷ files) =
      let rest = list_entries files in
      elim (codec.decode f.content) [
        | none ↦ rest
        | some e ↦ if has_suffix (lit ".json") f.name then e ∷ rest else rest
      ]
