-- ===== src/Http.antt =====
-- The parts of net/url's URL and net/http's Header that the program reads. Parsing and printing a URL, and
-- the canonical spelling of a header's name, are parameters where they are used.
use mcptunnels.Prelude.{Str, List, [], ◌∷◌, if◌then◌else◌, ◌==◌}

pub record Url : Type 0 where
  pub scheme : Str
  pub host : Str
  pub path : Str
  pub query : Str
  pub fragment : Str

-- A header gives the values of each name, none of them where the name is not set.
abbrev pub Header : Type 0
Header = Str → List Str

abbrev pub set_values : Str → List Str → Header → Header
set_values key vals h name = if key == name then vals else h name

-- Header.Del
abbrev pub del : Str → Header → Header
del key h = set_values key [] h

module _ (canonical : Str → Str) where
  -- copyHeaders of internal/stdiofront, and the loop of handleStream of internal/agent: the source's
  -- pairs in the order of the iteration.
  unfoldable pub copy_headers : List (Str × List Str) → Header → Header
  copy_headers [] dst = dst
  copy_headers ((k, vals) ∷ src) dst = copy_headers src (set_values (canonical k) vals dst)
