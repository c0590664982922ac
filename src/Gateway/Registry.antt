-- ===== src/Gateway/Registry.antt =====
-- The registry of internal/gateway/gateway.go as a map from a service's key to the live session.
use mcptunnels.Prelude.{
  ℕ, Str, true, false, not, ◌&&◌, Option, none, some, Option-cases, Bool-cases, List, [], ◌∷◌, ◌≡◌,
  refl, ap, ◌∙◌, arith, find, find-keep, find-keep-none, ◌==◌, eq_iff, eq_refl, nat_eq,
  if◌then◌else◌, inl, inr,
}
use mcptunnels.Gateway.{Gateway, Entry, has_key, session_at, register, unregister}

-- What happens to the registry: an agent's session starts or ends, under the key of its service.
pub data Event : Type 0 where
  started : Str → ℕ → Event
  ended : Str → ℕ → Event

unfoldable pub perform : Event → Gateway → Gateway
unfolding register unregister
perform (started key sess) g = register key sess g
perform (ended key sess) g = unregister key sess g

unfoldable pub perform_all : List Event → Gateway → Gateway
unfolding perform
perform_all [] g = g
perform_all (e ∷ es) g = perform_all es (perform e g)

pub session_at-register_self :
    (key : Str) (sess : ℕ) (g : Gateway) → session_at key (register key sess g) ≡ some sess
unfolding session_at register find
session_at-register_self key sess g = ground (arith, eq_refl key)

other_key :
    (key key' : Str)
    → (key' == key) ≡ false
    → (e : Entry) → has_key key e ≡ true
    → not (has_key key' e) ≡ true
other_key key key' ne e h =
    ground (arith, eq_iff e.key key, eq_iff e.key key', eq_refl key, eq_iff key' key)

pub session_at-register_ne :
    (key key' : Str) (sess : ℕ) (g : Gateway)
    → (key' == key) ≡ false
    → session_at key (register key' sess g) ≡ session_at key g
unfolding session_at register find
session_at-register_ne key key' sess g ne = ground (
  arith,
  ne,
  find-keep (has_key key) (λ e. not (has_key key' e)) (other_key key key' ne) g.sessions,
)

gone_key : (key : Str) (e : Entry) → has_key key e ≡ true → not (has_key key e) ≡ false
gone_key key e h = ground arith

session_at-unregister_self :
    (key : Str) (sess : ℕ) (g : Gateway)
    → session_at key (unregister key sess g)
      ≡ elim (session_at key g) [ none ↦ none | some s ↦ if nat_eq s sess then none else some s ]
unfolding session_at unregister
session_at-unregister_self key sess g =
    let gone = find-keep-none (has_key key) (λ e. not (has_key key e)) (gone_key key) g.sessions in
    elim (Option-cases (find (has_key key) g.sessions)) [
      | inl n ↦ ground (arith, n)
      | inr (e, f) ↦ ground (arith, f, gone)
    ]

session_at-unregister_ne :
    (key key' : Str) (sess : ℕ) (g : Gateway)
    → (key' == key) ≡ false
    → session_at key (unregister key' sess g) ≡ session_at key g
unfolding session_at unregister
session_at-unregister_ne key key' sess g ne =
    let kept =
      find-keep (has_key key) (λ e. not (has_key key' e)) (other_key key key' ne) g.sessions in
    elim (Option-cases (find (has_key key') g.sessions)) [
      | inl n ↦ ground (arith, n)
      | inr (e, f) ↦ elim (Bool-cases (nat_eq e.session sess)) [
        | inl b ↦ ground (arith, f, b, kept)
        | inr b ↦ ground (arith, f, b)
      ]
    ]

-- The abstract view: the session that serves a key after one event. The latest start wins, and only the
-- end of the session that serves the key leaves it without one.
abbrev pub serving : Str → Event → Option ℕ → Option ℕ
serving key (started key' sess) now = if key' == key then some sess else now
serving key (ended key' sess) none = none
serving key (ended key' sess) (some s) = if key' == key && nat_eq s sess then none else some s

abbrev pub serving_all : Str → List Event → Option ℕ → Option ℕ
serving_all key [] now = now
serving_all key (e ∷ es) now = serving_all key es (serving key e now)

session_at-perform :
    (key : Str) (e : Event) (g : Gateway)
    → session_at key (perform e g) ≡ serving key e (session_at key g)
unfolding perform
session_at-perform key (started key' sess) g = elim (Bool-cases (key' == key)) [
  | inl b ↦ ground (arith, b, session_at-register_self key sess g, (eq_iff key' key).0 b)
  | inr b ↦ ground (arith, b, session_at-register_ne key key' sess g b)
]
session_at-perform key (ended key' sess) g = elim (Bool-cases (key' == key)) [
  | inl b ↦ elim (Option-cases (session_at key g)) [
    | inl n ↦ ground (arith, b, n, session_at-unregister_self key sess g, (eq_iff key' key).0 b)
    | inr (s, n) ↦
        ground (arith, b, n, session_at-unregister_self key sess g, (eq_iff key' key).0 b)
  ]
  | inr b ↦ elim (Option-cases (session_at key g)) [
    | inl n ↦ ground (arith, b, n, session_at-unregister_ne key key' sess g b)
    | inr (s, n) ↦ ground (arith, b, n, session_at-unregister_ne key key' sess g b)
  ]
]

-- After any sequence of starts and ends of sessions, in any order and under any keys, the registry holds
-- for each key the session that the abstract view gives: the latest one started for the key, unless that
-- very session has ended since.
pub session_at-perform_all :
    (key : Str) (es : List Event) (g : Gateway)
    → session_at key (perform_all es g) ≡ serving_all key es (session_at key g)
unfolding perform_all
session_at-perform_all key [] g = refl
session_at-perform_all key (e ∷ es) g =
    session_at-perform_all key es (perform e g)
    ∙ ap (serving_all key es) (session_at-perform key e g)
