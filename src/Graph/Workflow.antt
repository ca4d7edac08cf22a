-- ===== src/Graph/Workflow.antt =====
-- The graph that `workflow` declares: its nodes, its edges, and a run of the compiled graph.
-- LangGraph runs a node, merges its update into the state, and follows the edge. It stops after
-- 25 nodes with an error, which is its default `recursion_limit`.
pub mod Paths
pub mod Calls
pub mod Outcome
pub mod WebRoute
use flowxrag.Prelude.{
  ℕ, zero, suc, List, [], ◌∷◌, ◌++◌, Bool, true, false, Option, none, some, if◌then◌else◌,
}
use flowxrag.Text.{Text, codes}
use flowxrag.Effects.{Result, ok, raise, M, Log, pure, fail, ◌>>=◌}
use flowxrag.Graph.{Route, auto, local, web, model, GraphState, Services}
use flowxrag.Graph.Nodes

pub data Node : Type 0 where
  route_question retrieve grade_documents web_search direct_answer generate : Node

unfoldable pub initial_state : {F : Type 0} → Text → Text → Text → GraphState F
initial_state question history_context memory_context = record {
  question = question;
  history_context = history_context;
  memory_context = memory_context;
  generation = [];
  route = auto;
  web_fallback = false;
  documents = [];
  steps = [];
  sources = [];
  reasoning_summary = [];
}

abbrev pub decide_after_route : Route → Node
decide_after_route web = Node.web_search
decide_after_route model = Node.direct_answer
decide_after_route _ = Node.retrieve

abbrev pub decide_to_generate : Route → Bool → Node
decide_to_generate model web_fallback = Node.direct_answer
decide_to_generate _ web_fallback = if web_fallback then Node.web_search else Node.generate

-- The edge out of a node, by the state behind it; none is `END`.
abbrev pub edge : {F : Type 0} → Node → GraphState F → Option Node
edge Node.route_question s = some (decide_after_route s.route)
edge Node.retrieve s = some Node.grade_documents
edge Node.grade_documents s = some (decide_to_generate s.route s.web_fallback)
edge Node.web_search s = some Node.generate
edge Node.direct_answer s = none
edge Node.generate s = none

module _ (sv : Services) where
  open sv use {floats}

  abbrev pub run_node : Node → GraphState floats.F → M (GraphState floats.F)
  run_node Node.route_question = Nodes.route_question sv
  run_node Node.retrieve = Nodes.retrieve sv
  run_node Node.grade_documents = Nodes.grade_documents sv
  run_node Node.web_search = Nodes.web_search sv
  run_node Node.direct_answer = Nodes.direct_answer sv
  run_node Node.generate = Nodes.generate sv

  -- A run from a node on, with the nodes visited so far; at most `limit` nodes more.
  unfoldable pub run_from :
      ℕ → Node → List Node → GraphState floats.F → M (GraphState floats.F × List Node)
  run_from zero node visited s =
      fail (codes "Recursion limit reached without hitting a stop condition.")
  run_from (suc limit) node visited s = do
    s' ← run_node node s
    elim (edge node s') [
      | none ↦ pure (s', visited ++ node ∷ [])
      | some next ↦ run_from limit next (visited ++ node ∷ []) s'
    ]

  -- `crag_app.invoke`, with the nodes that it ran
  unfoldable pub crag_app : GraphState floats.F → M (GraphState floats.F × List Node)
  unfolding run_from
  crag_app s = run_from 25 Node.route_question [] s
