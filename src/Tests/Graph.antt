-- ===== src/Tests/Graph.antt =====
-- Runs of the graph with concrete services.
use flowxrag.Prelude.{ℕ, ◌+◌, ◌≤◌, List, [], ◌∷◌, ◌≡◌, refl, if◌then◌else◌}
use flowxrag.Text.{Text, codes}
use flowxrag.Effects.{Result, ok, raise, calls, Yields}
use flowxrag.Graph.{GraphState}
use flowxrag.Graph.Llm.{invoke_llm, is_transient}
use flowxrag.Graph.Llm.Laws.{FromModel, IsRetry, invoke_llm_bounds}
use flowxrag.Graph.Nodes
use flowxrag.Graph.Nodes.Facts.{IsDecided, grade_documents-IsDecided}
use flowxrag.Graph.Routing.{choose_route}
use flowxrag.Graph.Workflow.{Node, initial_state, crag_app}
use flowxrag.Graph.Workflow.Paths.{pipeline, crag_app-pipeline}
use flowxrag.Graph.Workflow.Calls.{is_web, crag_app-calls}
use flowxrag.Graph.Workflow.Outcome.{Outcome}
use flowxrag.Tests.Values.{services}

abbrev start : Text → GraphState ℕ
start question = initial_state question [] []

abbrev visited : Result (GraphState ℕ × List Node) → List Node
visited (ok (s, path)) = path
visited (raise e) = []

local_run :
    visited (crag_app services (start (codes "总结这份报告")) []).0
    ≡ Node.route_question ∷ Node.retrieve ∷ Node.grade_documents ∷ Node.generate ∷ []
unfolding crag_app initial_state is_transient Nodes.route_question Nodes.retrieve
    Nodes.grade_documents Nodes.generate
local_run = refl

web_run :
    visited (crag_app services (start (codes "latest news")) []).0
    ≡ Node.route_question ∷ Node.web_search ∷ Node.generate ∷ []
unfolding crag_app initial_state is_transient Nodes.route_question Nodes.web_search Nodes.generate
web_run = refl

-- The first call of the model times out and is repeated.
model_run : calls (crag_app services (start (codes "Hello")) []).1 ≡ 2
unfolding crag_app initial_state is_transient Nodes.route_question Nodes.direct_answer
model_run = refl

invoke_llm_bounds_example :
    FromModel services.llm (codes "Hi") (invoke_llm services.lower services.llm (codes "Hi") []).0
    × IsRetry 2 [] (invoke_llm services.lower services.llm (codes "Hi") []).1
invoke_llm_bounds_example = invoke_llm_bounds services.lower services.llm (codes "Hi") []

crag_app-pipeline_example :
    crag_app services (start (codes "总结这份报告")) [] ≡ pipeline services (start (codes "总结这份报告")) []
crag_app-pipeline_example = crag_app-pipeline services (start (codes "总结这份报告")) []

crag_app-calls_example :
    calls (crag_app services (start (codes "Hello")) []).1
    ≤ calls []
      + (if is_web (choose_route services.lower (start (codes "Hello")).question) then 6 else 3)
crag_app-calls_example = crag_app-calls services (start (codes "Hello")) []

grade_documents-IsDecided_example :
    Yields (IsDecided ℕ) (Nodes.grade_documents services (start (codes "Hello")) []).0
grade_documents-IsDecided_example = grade_documents-IsDecided services (start (codes "Hello")) []
