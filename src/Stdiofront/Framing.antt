-- ===== src/Stdiofront/Framing.antt =====
-- The event stream that internal/bridge/bridge.go writes, read by internal/stdiofront/stdiofront.go.
use mathlib.Core.List.{append_assoc, append-nil}
use mcptunnels.Prelude.{
  ℕ, Str, lit, true, false, not, List, [], ◌∷◌, ◌++◌, ◌≡◌, inl, inr, refl, sym, arith, is_empty,
  if◌then◌else◌, cut_prefix, trim_prefix, trim_space, trim_line_end, trim_end, is_line_end, Lacks,
  All, Bool-cases,
}
use mcptunnels.Rpc.{Decode, event, events}
use mcptunnels.Rpc.Trim.{trim_space-collected, trim_end-keeps}
use mcptunnels.Stdiofront.Events.{
  Reading, lines_of, completes, dispatch, take_line, read_lines, finish, read_events,
}

lines_of-append :
    (a s : Str) → Lacks 10 a → lines_of (a ++ (10 ∷ s)) ≡ (a ∷ (lines_of s).0, (lines_of s).1)
unfolding lines_of
lines_of-append [] s h = ground arith
lines_of-append (c ∷ a) s h = ground (arith, lines_of-append a s h.1)

-- A message fits into an event: it holds no line feed, and is not only white space.
abbrev pub Fits : Str → Type 0
Fits m = Lacks 10 m × (is_empty (trim_space m) ≡ false)

lines_of-event :
    (m rest : Str)
    → Lacks 10 m
    → lines_of (event m ++ rest)
      ≡ (lit "event: message" ∷ (lit "data: " ++ m) ∷ [] ∷ (lines_of rest).0, (lines_of rest).1)
unfolding event lines_of
lines_of-event m rest h =
    let body : lines_of (m ++ (10 ∷ 10 ∷ rest)) ≡ (m ∷ [] ∷ (lines_of rest).0, (lines_of rest).1) =
      ground (arith, lines_of-append m (10 ∷ rest) h) in
    let joined : (m ++ (10 ∷ 10 ∷ [])) ++ rest ≡ m ++ (10 ∷ 10 ∷ rest) =
      append_assoc m (10 ∷ 10 ∷ []) rest in
    ground (arith, body, joined)

snoc_full : (s : Str) (c : ℕ) → is_empty (s ++ (c ∷ [])) ≡ false
snoc_full [] c = refl
snoc_full (d ∷ s) c = refl

module _ (decode : Decode) (want : Str) where
  take_line-data :
      (m : Str) (out : List Str)
      → take_line decode want
          (lit "data: " ++ m)
          (record { data_read = []; out = out; going = true })
        ≡ record { data_read = trim_line_end m ++ (10 ∷ []); out = out; going = true }
  unfolding take_line cut_prefix trim_prefix trim_line_end
  take_line-data m out = ground (arith, trim_end-keeps is_line_end (lit "data:") 32 m refl)

  take_line-event : (r : Reading) → take_line decode want (lit "event: message") r ≡ r
  unfolding take_line cut_prefix trim_line_end trim_end
  take_line-event r = refl

  take_line-blank :
      (m : Str) (out : List Str)
      → is_empty (trim_space m) ≡ false
      → take_line decode want []
          (record { data_read = trim_line_end m ++ (10 ∷ []); out = out; going = true })
        ≡ record {
          data_read = [];
          out = out ++ (trim_space m ∷ []);
          going = not (completes decode want (trim_space m));
        }
  unfolding take_line dispatch trim_line_end trim_end
  take_line-blank m out h =
      ground (arith, h, snoc_full (trim_line_end m) 10, trim_space-collected m)

  abbrev fresh : List Str → Reading
  fresh out = record { data_read = []; out = out; going = true }

  read_lines-event :
      (m : Str) (out : List Str) (ls : List Str)
      → Fits m
      → read_lines decode want (lit "event: message" ∷ (lit "data: " ++ m) ∷ [] ∷ ls) (fresh out)
        ≡ read_lines decode want ls (record {
          data_read = [];
          out = out ++ (trim_space m ∷ []);
          going = not (completes decode want (trim_space m));
        })
  unfolding read_lines
  read_lines-event m out ls h =
      ground (arith, take_line-event (fresh out), take_line-data m out, take_line-blank m out h.1)

  read_lines_stopped :
      (ls : List Str) (r : Reading) → r.going ≡ false → read_lines decode want ls r ≡ r
  unfolding read_lines
  read_lines_stopped [] r h = refl
  read_lines_stopped (l ∷ ls) r h = ground arith

  -- The messages, trimmed, up to the wanted response and with it.
  abbrev pub through : List Str → List Str
  through [] = []
  through (m ∷ ms) =
      trim_space m ∷ (if completes decode want (trim_space m) then [] else through ms)

  read_lines-events :
      (ms : List Str) (out : List Str)
      → All Fits ms
      → ((lines_of (events ms)).1 ≡ [])
        × ((read_lines decode want (lines_of (events ms)).0 (fresh out)).out ≡ out ++ through ms)
        × ((read_lines decode want (lines_of (events ms)).0 (fresh out)).data_read ≡ [])
  unfolding events
  read_lines-events [] out h = (
    unfold lines_of in refl,
    unfold lines_of read_lines in sym (append-nil out),
    unfold lines_of read_lines in refl,
  )
  read_lines-events (m ∷ ms) out (fits, rest) =
      let one = lines_of-event m (events ms) fits.0 in
      let t = trim_space m in
      let read = read_lines-event m out (lines_of (events ms)).0 fits in
      let (last, outs, done) = read_lines-events ms (out ++ (t ∷ [])) rest in
      elim (Bool-cases (completes decode want t)) [
        | inl b ↦
            let stopped =
              read_lines_stopped (lines_of (events ms)).0
                (record { data_read = []; out = out ++ (t ∷ []); going = false }) refl in
            (
              ground (arith, one, last),
              ground (arith, one, read, b, stopped),
              ground (arith, one, read, b, stopped),
            )
        | inr b ↦ (
          ground (arith, one, last),
          ground (arith, one, read, b, outs, append_assoc out (t ∷ []) (through ms)),
          ground (arith, one, read, b, done),
        )
      ]

  -- Where each message that the bridge streams holds no line feed and is not only white space, the
  -- front writes to stdout, behind what is there, just these messages in their order, each trimmed:
  -- all of them where no response is wanted, else those up to the wanted response and with it.
  pub read_events-events :
      (ms : List Str) (out : List Str)
      → All Fits ms
      → read_events decode want (events ms) out ≡ out ++ through ms
  unfolding read_events finish
  read_events-events ms out h =
      let (last, outs, done) = read_lines-events ms out h in ground (arith, last, outs, done)
