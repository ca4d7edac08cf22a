-- ===== src/Graph/Workflow/Paths.antt =====
-- A run of the graph is one of a few straight lines, chosen by the route.
use flowxrag.Prelude.{ℕ, suc, List, [], ◌∷◌, ◌++◌, Bool, true, false, ◌≡◌, ◌⊎◌, refl, arith}
use flowxrag.Effects.{M, Log, pure, ◌>>=◌, bind_cong, Yields-all}
use flowxrag.Graph.{Route, auto, local, web, model, GraphState, Services}
use flowxrag.Graph.Nodes
use flowxrag.Graph.Nodes.Facts.{IsDecided, grade_documents-IsDecided}
use flowxrag.Graph.Workflow.{Node, run_from, crag_app, decide_to_generate, decide_after_route}

module _ (sv : Services) where
  open sv use {floats, lower}

  abbrev Ends : Type 0
  Ends = GraphState floats.F × List Node

  -- The last node of a line, by the route that is decided.
  unfoldable pub answer_by : Route → List Node → GraphState floats.F → M Ends
  answer_by model visited s = do
    s' ← Nodes.direct_answer sv s
    pure (s', visited ++ Node.direct_answer ∷ [])
  answer_by _ visited s = do s' ← Nodes.generate sv s; pure (s', visited ++ Node.generate ∷ [])

  -- What the graph comes to, with no graph: search, grading and an answer for a question about
  -- documents, the web search and an answer for one about the web, else an answer of the model.
  unfoldable pub pipeline_by : Route → List Node → GraphState floats.F → M Ends
  unfolding answer_by
  pipeline_by web visited s = do
    s' ← Nodes.web_search sv s
    answer_by web (visited ++ Node.web_search ∷ []) s'
  pipeline_by model visited s = answer_by model visited s
  pipeline_by _ visited s = do
    s' ← Nodes.retrieve sv s
    s'' ← Nodes.grade_documents sv s'
    answer_by s''.route (visited ++ Node.retrieve ∷ [] ++ Node.grade_documents ∷ []) s''

  unfoldable pub pipeline : GraphState floats.F → M Ends
  unfolding pipeline_by
  pipeline s = do s' ← Nodes.route_question sv s; pipeline_by s'.route (Node.route_question ∷ []) s'

  -- Behind the grading one more node runs.
  answered_at :
      (r : Route) (f : Bool) (n : ℕ) (visited : List Node) (s : GraphState floats.F) (log : Log)
      → (r ≡ local) ⊎ (r ≡ model)
      → f ≡ false
      → run_from sv (suc n) (decide_to_generate r f) visited s log ≡ answer_by r visited s log
  unfolding run_from answer_by
  answered_at local false n visited s log h e = refl
  answered_at local true n visited s log h e = absurd (ground arith)
  answered_at model f n visited s log h e = refl
  answered_at auto f n visited s log h e = absurd (ground arith)
  answered_at web f n visited s log h e = absurd (ground arith)

  -- A searched route runs the search, the grading and the node that answers.
  searched :
      (n : ℕ) (visited : List Node) (s : GraphState floats.F) (log : Log)
      → run_from sv (suc (suc (suc n))) Node.retrieve visited s log
        ≡ (do
          s' ← Nodes.retrieve sv s
          s'' ← Nodes.grade_documents sv s'
          answer_by s''.route (visited ++ Node.retrieve ∷ [] ++ Node.grade_documents ∷ []) s'')
            log
  unfolding run_from
  searched n visited s log =
      bind_cong (λ _. Unit) (Nodes.retrieve sv s) _ _ log (Yields-all (Nodes.retrieve sv s log).0)
        λ s' log' _.
          bind_cong (IsDecided floats.F) (Nodes.grade_documents sv s') _ _ log'
            (grade_documents-IsDecided sv s' log')
            λ s'' log'' d.
              answered_at s''.route s''.web_fallback n
                (visited ++ Node.retrieve ∷ [] ++ Node.grade_documents ∷ []) s'' log'' d.answerer
                d.no_fallback

  routed :
      (n : ℕ) (r : Route) (visited : List Node) (s : GraphState floats.F) (log : Log)
      → run_from sv (suc (suc (suc n))) (decide_after_route r) visited s log
        ≡ pipeline_by r visited s log
  unfolding pipeline_by run_from
  routed n web visited s log = refl
  routed n model visited s log = refl
  routed n local visited s log = searched n visited s log
  routed n auto visited s log = searched n visited s log

  -- Running the graph is running the pipeline: for every state and log the outcome, the nodes
  -- visited, the log and any exception are the same. The pipeline has no loop, and no web
  -- search after the grading.
  pub crag_app-pipeline : (s : GraphState floats.F) (log : Log) → crag_app sv s log ≡ pipeline s log
  unfolding crag_app pipeline run_from
  crag_app-pipeline s log =
      bind_cong (λ _. Unit) (Nodes.route_question sv s) _ _ log
        (Yields-all (Nodes.route_question sv s log).0)
        λ s' log' _. routed 21 s'.route (Node.route_question ∷ []) s' log'
