-- ===== src/Graph.antt =====
-- backend/graph.py: the state that its nodes pass on, and the services that they call.
pub mod Routing
pub mod Evidence
pub mod Llm
pub mod Web
pub mod Nodes
pub mod Workflow
pub mod Grounded
use flowxrag.Prelude.{ℕ, Bool, Option, List}
use flowxrag.Text.{Text}
use flowxrag.Effects.{Result, Log}
use flowxrag.Float.{Floats}

pub data Route : Type 0 where
  auto local web model : Route

-- An item of `results` as Tavily returns it: a dictionary, or anything else as its `str`.
pub record WebItem (F : Type 0) : Type 0 where
  pub title : Option Text
  pub url : Option Text
  pub content : Option Text
  pub raw_content : Option Text
  pub score : Option F

pub data ResultItem (F : Type 0) : Type 0 where
  dict : WebItem F → ResultItem F
  other : Text → ResultItem F

-- What the search tool returns: a text, a dictionary (read as an item of its own where it has no
-- `results`), or a list.
pub data ToolResult (F : Type 0) : Type 0 where
  plain : Text → ToolResult F
  answered : Option Text → Option (List (ResultItem F)) → WebItem F → ToolResult F
  items : List (ResultItem F) → ToolResult F

pub record SearchResult (F : Type 0) : Type 0 where
  pub content : Text
  pub source : Text
  pub page : ℕ
  pub score : F
  pub retrieval_score : Option F

-- The dictionaries that the nodes put into `sources`, one constructor for each set of keys.
pub data Source (F : Type 0) : Type 0 where
  from_local : Text → ℕ → F → Option F → Source F
  from_web : Text → Text → Option F → Source F
  from_tool : Text → Route → Source F

pub record Document (F : Type 0) : Type 0 where
  pub content : Text
  pub source : Text
  pub source_meta : Source F

pub record GraphState (F : Type 0) : Type 0 where
  pub question : Text
  pub history_context : Text
  pub memory_context : Text
  pub generation : Text
  pub route : Route
  pub web_fallback : Bool
  pub documents : List (Document F)
  pub steps : List Text
  pub sources : List (Source F)
  pub reasoning_summary : List Text

-- What graph.py takes from elsewhere: the arithmetic of scores, `str.lower`, the environment, the
-- knowledge base (backend/retriever.py), the language model and the Tavily tool. The last two may
-- answer by all that was sent before, and may raise.
pub record Services : Type 1 where
  pub floats : Floats
  pub lower : Text → Text
  pub tavily_api_key : Text
  pub auto_local_score_threshold : floats.F
  pub search : Text → ℕ → Result (List (SearchResult floats.F))
  pub llm : Log → Text → Result Text
  pub tavily : Log → Text → Result (ToolResult floats.F)
