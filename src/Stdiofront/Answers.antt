-- ===== src/Stdiofront/Answers.antt =====
-- What a request of the client comes back with, in internal/stdiofront/stdiofront.go.
use mcptunnels.Prelude.{
  ◌≢◌, Str, true, false, Option, none, some, List, [], ◌∷◌, ◌++◌, ◌≡◌, ◌⊎◌, trim_space,
}
use mcptunnels.Rpc.{Decode}
use mcptunnels.Stdiofront.Events.{read_events}
use mcptunnels.Stdiofront.Requests.{
  Response, Endpoint, Failure, no_answer, bad_status, no_body, is_success, error_line,
}

module _ {U : Type 0} (send : Endpoint U) (decode : Decode) (quoted : Failure → Str) where
  -- What is on stdout after an answer.
  abbrev pub Answered : Str → Option Response → List Str → List Str → Type 0
  Answered id none before after =
      after ≡ before ++ (error_line send decode quoted id no_answer ∷ [])
  Answered id (some r) before after =
      ((is_success r.status ≡ false)
        × (after ≡ before ++ (error_line send decode quoted id (bad_status r.status) ∷ [])))
      ⊎ ((is_success r.status ≡ true)
          × (r.is_stream ≡ true)
          × (after ≡ read_events decode id r.content before))
      ⊎ ((is_success r.status ≡ true)
          × (r.is_stream ≡ false)
          × (((r.cut_short ≡ true) ⊎ (trim_space r.content ≡ []))
                × (after ≡ before ++ (error_line send decode quoted id no_body ∷ []))
              ⊎ (r.cut_short ≡ false)
                × (trim_space r.content ≢ [])
                × (after ≡ before ++ (trim_space r.content ∷ []))))
