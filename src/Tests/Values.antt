-- ===== src/Tests/Values.antt =====
-- Concrete instances of what the models take as parameters.
use flowxrag.Prelude.{
  Bool, List, ℕ, ◌+◌, ◌-◌, ◌*◌, ◌/◌, [], ◌∷◌, true, ◌&&◌, leb, none, map, if◌then◌else◌, length,
}
use flowxrag.Text.{Text, codes}
use flowxrag.Float.{Floats}
use flowxrag.Effects.{Result, ok, raise}
use flowxrag.Models.{User, UserRole, UserMemory}
use flowxrag.Memory.Extract.{LlmItem}
use flowxrag.Graph.{SearchResult, plain, Services}

-- Scores as natural numbers, in units of a thousandth.
abbrev pub thousandths : Floats
thousandths = record {
  F = ℕ;
  zero_f = 0;
  of_ℕ = λ n. n * 1000;
  add = λ a b. a + b;
  sub = λ a b. a - b;
  mul = λ a b. a * b / 1000;
  div = λ a b. a * 1000 / b;
  log = λ a. a;
  round4 = λ a. a;
  is_finite = λ a. true;
  leq = leb;
}

-- `str.lower` on ASCII texts
abbrev pub ascii_lower : Text → Text
ascii_lower = map (λ c. if leb b'A' c && leb c b'Z' then c + 32 else c)

abbrev pub hit : SearchResult ℕ
hit = record {
  content = codes "Install the gateway";
  source = codes "guide.pdf";
  page = 3;
  score = 700;
  retrieval_score = none;
}

-- A model that answers yes, but for its first call, which times out.
abbrev pub services : Services
services = record {
  floats = thousandths;
  lower = ascii_lower;
  tavily_api_key = codes " 'tvly-key'";
  auto_local_score_threshold = 550;
  search = λ question k. ok (hit ∷ []);
  llm = λ log prompt. if leb 1 (length log) then ok (codes "Yes.") else raise (codes "Timeout");
  tavily = λ log query. ok (plain (codes "sunny"));
}

abbrev pub person : ℕ → Text → User
person id name = record {
  id = id;
  email = name;
  username = name;
  hashed_password = codes "hash";
  role = UserRole.user;
  is_active = true;
}

abbrev pub anna : User
anna = person 1 (codes "anna")

abbrev pub bert : User
bert = person 2 (codes "bert")

-- A database that has one status only, and gives a row the next instant.
abbrev pub collates : Text → Text → Bool
collates a b = true

abbrev pub stamp : UserMemory ℕ → UserMemory ℕ → ℕ
stamp old new = old.updated_at + 1

abbrev pub two_digits : ℕ → Text
two_digits n = codes "1.00"

abbrev pub no_items : Text → Result (List (LlmItem ℕ))
no_items body = ok []
