-- ===== src/Tokencache/Keeping.antt =====
-- What Save of internal/tokencache/tokencache.go does to the entries that Lookup finds.
use mcptunnels.Prelude.{
  Str, lit, Bool, true, false, not, ◌&&◌, none, some, List, [], ◌∷◌, ◌++◌, if◌then◌else◌, ◌==◌,
  find, has_prefix, ◌≡◌, ◌∙◌, ap, inl, inr, arith, Option-cases, Bool-cases, eq_excludes, eq_comm,
  find-keep, hex_encode, cut_prefix,
}
use mcptunnels.Tokencache.{Entry}
use mcptunnels.Tokencache.Files.{
  File, named, unlink, put, SaveCalls, unreadable, present, Codec, key, save, lookup, written,
  normalize_url,
}

find-unlink :
    (n m : Str) (files : List File)
    → (m == n) ≡ false
    → find (named n) (unlink m files) ≡ find (named n) files
find-unlink n m files d =
    find-keep (named n) (λ f. not (named m f))
      (λ f e. ap not (eq_excludes f.name n m (eq_comm n m ∙ d) e)) files

find-put :
    (n m bytes : Str) (files : List File)
    → find (named n) (put m bytes files)
      ≡ (if m == n then some (record { name = m; content = bytes }) else find (named n) files)
unfolding find
find-put n m bytes files = elim (Bool-cases (m == n)) [
  | inl e ↦ ground (arith, e)
  | inr e ↦ ground (arith, e, find-unlink n m files e)
]

-- A temporary name, which CreateTemp makes of its pattern.
abbrev pub is_temp : Str → Bool
is_temp t = has_prefix (lit ".tmp-") t

hex_name : (bs t : Str) → is_temp t ≡ true → (t == (hex_encode bs ++ lit ".json")) ≡ false
unfolding has_prefix cut_prefix hex_encode ◌==◌
hex_name bs [] h = ground arith
hex_name [] (c ∷ []) h = ground arith
hex_name [] (c ∷ d ∷ t) h = ground arith
hex_name (b ∷ bs) (c ∷ t) h = ground arith

module _ (codec : Codec) where
  temp-key : (t raw k : Str) → is_temp t ≡ true → key codec raw ≡ some k → (t == k) ≡ false
  unfolding key
  temp-key t raw k h e = elim (Option-cases (normalize_url codec raw)) [
    | inl n ↦ ground (arith, n)
    | inr (n, m) ↦ ground (arith, m, hex_name (codec.sha256 n) t h)
  ]

  -- Two URLs that are valid and have the same file.
  abbrev pub same_file : Str → Str → Bool
  same_file a b = elim (key codec a) [
    | none ↦ false
    | some m ↦ elim (key codec b) [ none ↦ false | some n ↦ n == m ]
  ]

  -- A Save whose temporary file has a name of CreateTemp's, of an entry whose encoding can be decoded: if
  -- it succeeds, a Lookup of any URL with the same file gives the entry, or fails where the file cannot be
  -- read; every other Lookup, and after a Save that fails every Lookup, gives what it gave before.
  pub save_atomic :
      (calls : SaveCalls) (e : Entry) (files : List File) (t raw : Str) (read_ok : Bool)
      → calls.temp ≡ some t
      → is_temp t ≡ true
      → codec.decode (codec.encode e) ≡ some e
      → lookup codec read_ok raw (save codec calls e files).1 ≡ (
          if (save codec calls e files).0 && same_file raw e.url
          then some (if read_ok then present e else unreadable)
          else lookup codec read_ok raw files)
  unfolding save lookup
  save_atomic calls e files t raw read_ok et temp law = elim (Option-cases (key codec e.url)) [
    | inl ek ↦ ground (arith, ek)
    | inr (k, ek) ↦ elim (Option-cases (key codec raw)) [
      | inl er ↦ ground (arith, ek, er)
      | inr (n, er) ↦
          let bytes = codec.encode e in
          let files' = written codec calls t bytes files in
          let apart = temp-key t raw n temp er in
          let kept = find-unlink n t files' apart in
          let kept' = find-put n t (if calls.chmod_ok && calls.write_ok then bytes else []) files in
          let moved = find-put n k bytes (unlink t files') in
          let cleaned = find-unlink n t (put k bytes (unlink t files')) apart in
          ground (arith, et, ek, er, law, kept ∙ kept', moved, cleaned, apart)
    ]
  ]
