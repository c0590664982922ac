-- ===== src/D1/Wire.antt =====
-- The wire protocol of internal/stored1/stored1.go: one statement a request, and the decoding of its
-- answer. The endpoint is a parameter: a function from a statement to what the HTTP client returns.
-- Of an error's text only `isUniqueViolation` reads anything, so the model keeps the parts that vary
-- and leaves out the constant words and numbers around them.
use mcptunnels.Prelude.{
  ℕ, Str, String, lit, Bool, not, ◌||◌, Option, none, some, List, [], ◌∷◌, ◌++◌, contains, length,
  ltb, nat_eq, if◌then◌else◌, take,
}
use text.Mathlib.Text.{◌==◌ as str_eq}
use mcptunnels.Sql.{Statement}
use mcptunnels.Act.{Result, ok, err, bad_column}

-- A decoded JSON value of a result column; `number` is a whole number.
pub data Json : Type 0 where
  null : Json
  number : ℕ → Json
  string : Str → Json
  other : Json

abbrev pub JsonRow : Type 0
JsonRow = List (String × Json)

pub record StmtResult : Type 0 where
  pub success : Bool
  pub results : List JsonRow
  pub rows_written : ℕ
  pub errors : List Str

-- What one request comes back with: an error of the request or of reading its body, a body that is
-- not the JSON expected, or the envelope with its HTTP status.
pub data Reply : Type 0 where
  no_reply : Str → Reply
  unparsed : Str → Reply
  envelope : ℕ → Bool → List Str → List StmtResult → Reply

abbrev pub Endpoint : Type 0 → Type 0
Endpoint S = Statement → S → Reply × S

abbrev separated : List Str → Str
separated [] = []
separated (m ∷ []) = m
separated (m ∷ n ∷ ms) = m ++ (lit "; " ++ separated (n ∷ ms))

unfoldable pub join_errors : List Str → Str
join_errors [] = lit "unknown error"
join_errors (m ∷ ms) = separated (m ∷ ms)

unfoldable pub truncate : Str → Str
truncate s = if ltb 200 (length s) then take 200 s ++ (0xe2 ∷ 0x80 ∷ 0xa6 ∷ []) else s

pub data Answer {ℓ} (A : Type ℓ) : Type ℓ where
  refused : Str → Answer A
  answered : A → Answer A

abbrev first_result : List StmtResult → Answer StmtResult
first_result [] = refused (lit "d1: empty result")
first_result (r ∷ rs) = if r.success then answered r else refused (join_errors r.errors)

unfoldable pub read_reply : Reply → Answer StmtResult
unfolding join_errors truncate
read_reply (no_reply e) = refused e
read_reply (unparsed raw) = refused (truncate raw)
read_reply (envelope status success errors result) =
    if not (nat_eq status 200) || not success
    then refused (join_errors errors)
    else first_result result

abbrev pub gathered : Answer (List StmtResult) → StmtResult → Answer (List StmtResult)
gathered (refused e) r = refused e
gathered (answered rs) r = answered (r ∷ rs)

-- row[key]; a missing column reads as null.
unfoldable pub lookup : String → JsonRow → Json
lookup key [] = null
lookup key ((k, v) ∷ row) = let rest = lookup key row in if str_eq k key then v else rest

unfoldable pub str_col : JsonRow → String → Result Str
unfolding lookup
str_col row key = elim (lookup key row) [ string s ↦ ok s | _ ↦ err bad_column ]

-- strings.Contains(err.Error(), "UNIQUE constraint")
abbrev pub is_unique_violation : Str → Bool
is_unique_violation e = contains (lit "UNIQUE constraint") e

module _ {S : Type 0} (send : Endpoint S) where
  unfoldable pub exec : Statement → S → Answer StmtResult × S
  unfolding read_reply
  exec st s = let (reply, s') = send st s in (read_reply reply, s')

  -- Statements in order, until one fails; nothing is rolled back.
  unfoldable pub query : List Statement → S → Answer (List StmtResult) × S
  unfolding exec
  query [] s = (answered [], s)
  query (st ∷ sts) s =
      let (a, s') = exec st s in
      let rest = query sts s' in
      elim a [ refused e ↦ (refused e, s') | answered r ↦ (gathered rest.0 r, rest.1) ]

-- time.Parse with RFC 3339, and strconv.ParseInt, on the texts that a column may hold.
pub record TextNumbers : Type 0 where
  pub parse_rfc3339 : Str → Option ℕ
  pub parse_int : Str → Option ℕ

module _ (numbers : TextNumbers) where
  abbrev int_of_text : Str → Result ℕ
  int_of_text s = elim (numbers.parse_int s) [ none ↦ err bad_column | some n ↦ ok n ]

  abbrev time_of_text : Str → Result ℕ
  time_of_text s = elim (numbers.parse_rfc3339 s) [ none ↦ int_of_text s | some t ↦ ok t ]

  unfoldable pub time_col : Json → Result ℕ
  time_col (string s) = time_of_text s
  time_col (number n) = ok n
  time_col v = err bad_column

  abbrev optional {ℓ} : {A : Type ℓ} → Result A → Result (Option A)
  optional (ok a) = ok (some a)
  optional (err e) = err e

  unfoldable pub opt_time : Json → Result (Option ℕ)
  unfolding time_col
  opt_time null = ok none
  opt_time v = optional (time_col v)

  unfoldable pub int_col : JsonRow → String → Result ℕ
  unfolding lookup
  int_col row key = elim (lookup key row) [
    | number n ↦ ok n
    | string s ↦ int_of_text s
    | _ ↦ err bad_column
  ]
