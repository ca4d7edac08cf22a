-- ===== src/Graph/Workflow/Calls.antt =====
-- How many calls of the language model a run of the graph makes.
use flowxrag.Prelude.{
  ℕ, ◌+◌, ◌≤◌, List, [], ◌∷◌, Bool, true, false, ◌≡◌, refl, arith, if◌then◌else◌, Bool-cases, inl,
  inr, subst, sym,
}
use flowxrag.Text.{Text}
use flowxrag.Effects.{
  Result, ok, raise, M, Log, web_called, pure, ◌>>=◌, continue, recover, attempt, calls,
  calls-append,
}
use flowxrag.Graph.{Route, auto, local, web, model, SearchResult, GraphState, Services}
use flowxrag.Graph.Llm.{invoke_llm}
use flowxrag.Graph.Llm.Laws.{invoke_llm_bounds}
use flowxrag.Graph.Routing.{choose_route}
use flowxrag.Graph.Web.{search_web, is_valid_tavily_key}
use flowxrag.Graph.Nodes
use flowxrag.Graph.Nodes.Facts.{IsSearched, grade_documents-settled}
use flowxrag.Graph.Workflow.{Node, crag_app}
use flowxrag.Graph.Workflow.Paths.{answer_by, pipeline_by, pipeline, crag_app-pipeline}

-- The block makes at most `k` calls of the model, whatever happened before.
record MakesAtMost {A : Type 0} (k : ℕ) (m : M A) : Type 0 where
  at : (log : Log) → calls (m log).1 ≤ calls log + k

continue-MakesAtMost :
    {A B : Type 0} (k : ℕ) (r : Result A) (f : A → M B) (log : Log)
    → ((a : A) → MakesAtMost k (f a))
    → calls (continue r f log).1 ≤ calls log + k
continue-MakesAtMost k (ok a) f log h = (h a).at log
continue-MakesAtMost k (raise e) f log h = omega arith

bind-MakesAtMost :
    {A B : Type 0} (j k : ℕ) (m : M A) (f : A → M B)
    → MakesAtMost j m
    → ((a : A) → MakesAtMost k (f a))
    → MakesAtMost (j + k) (m >>= f)
bind-MakesAtMost j k m f h g = record {
  at = λ log. omega (arith, h.at log, continue-MakesAtMost k (m log).0 f (m log).1 g);
}

recover-MakesAtMost :
    {A : Type 0} (k : ℕ) (r : Result A) (f : Text → M A) (log : Log)
    → ((e : Text) → MakesAtMost k (f e))
    → calls (recover r f log).1 ≤ calls log + k
recover-MakesAtMost k (ok a) f log h = omega arith
recover-MakesAtMost k (raise e) f log h = (h e).at log

attempt-MakesAtMost :
    {A : Type 0} (j k : ℕ) (m : M A) (f : Text → M A)
    → MakesAtMost j m
    → ((e : Text) → MakesAtMost k (f e))
    → MakesAtMost (j + k) (attempt m f)
attempt-MakesAtMost j k m f h g = record {
  at = λ log. omega (arith, h.at log, recover-MakesAtMost k (m log).0 f (m log).1 g);
}

pure-MakesAtMost : {A : Type 0} (a : A) → MakesAtMost 0 (pure a)
pure-MakesAtMost a = record { at = λ log. omega arith }

abbrev pub is_web : Route → Bool
is_web web = true
is_web _ = false

module _ (sv : Services) where
  open sv use {floats, lower, llm, tavily, tavily_api_key}

  ask-MakesAtMost : (prompt : Text) → MakesAtMost 3 (invoke_llm lower llm prompt)
  ask-MakesAtMost prompt = record {
    at = λ log. let (_, r) = invoke_llm_bounds lower llm prompt log in omega (arith, r.few_calls);
  }

  search_web-MakesAtMost : (query : Text) → MakesAtMost 0 (search_web sv query)
  unfolding search_web
  search_web-MakesAtMost query = record {
    at = λ log. elim (Bool-cases (is_valid_tavily_key tavily_api_key)) [
      | inl e ↦ rw e (omega (arith, calls-append log (web_called query ∷ [])))
      | inr e ↦ rw e (omega arith)
    ];
  }

  direct_answer-MakesAtMost : (s : GraphState floats.F) → MakesAtMost 3 (Nodes.direct_answer sv s)
  unfolding Nodes.direct_answer
  direct_answer-MakesAtMost s =
      bind-MakesAtMost 3 0 (Nodes.ask sv _) _ (ask-MakesAtMost _) (λ content. pure-MakesAtMost _)

  generate-MakesAtMost : (s : GraphState floats.F) → MakesAtMost 3 (Nodes.generate sv s)
  unfolding Nodes.generate
  generate-MakesAtMost s =
      bind-MakesAtMost 3 0 (Nodes.ask sv _) _ (ask-MakesAtMost _) (λ content. pure-MakesAtMost _)

  web_search-MakesAtMost : (s : GraphState floats.F) → MakesAtMost 3 (Nodes.web_search sv s)
  unfolding Nodes.web_search
  web_search-MakesAtMost s =
      attempt-MakesAtMost 0 3 _ _
        (bind-MakesAtMost 0 0 (search_web sv _) _ (search_web-MakesAtMost _)
          (λ found. pure-MakesAtMost _))
        (λ exc.
          bind-MakesAtMost 3 0 (Nodes.ask sv _) _ (ask-MakesAtMost _)
            (λ content. pure-MakesAtMost _))

  answer_by-MakesAtMost :
      (r : Route) (visited : List Node) (s : GraphState floats.F)
      → MakesAtMost 3 (answer_by sv r visited s)
  unfolding answer_by
  answer_by-MakesAtMost model visited s =
      bind-MakesAtMost 3 0 (Nodes.direct_answer sv s) _ (direct_answer-MakesAtMost s)
        (λ s'. pure-MakesAtMost _)
  answer_by-MakesAtMost _ visited s =
      bind-MakesAtMost 3 0 (Nodes.generate sv s) _ (generate-MakesAtMost s)
        (λ s'. pure-MakesAtMost _)

  -- Behind the search the grading calls nothing, since the route is still a searched one.
  retrieved-MakesAtMost :
      (r : Result (List (SearchResult floats.F))) (s : GraphState floats.F) (visited : List Node)
      → IsSearched s.route
      → MakesAtMost 3 (
          Nodes.with_results sv s r >>= λ s'. do
            s'' ← Nodes.grade_documents sv s'
            answer_by sv s''.route visited s'')
  retrieved-MakesAtMost (raise e) s visited h = record { at = λ log. omega arith }
  retrieved-MakesAtMost (ok results) s visited h = record {
    at = λ log.
        let s' = Nodes.retrieved sv s results in
        let (s'', e, d) = grade_documents-settled sv s' log h in
        subst
          (λ out.
            calls
              (continue out.0 (λ (t : GraphState floats.F). answer_by sv t.route visited t) out.1).1
            ≤ calls log + 3)
          (sym e) ((answer_by-MakesAtMost s''.route visited s'').at log);
  }

  pipeline_by-MakesAtMost :
      (r : Route) (visited : List Node) (s : GraphState floats.F)
      → r ≡ s.route
      → MakesAtMost (if is_web r then 6 else 3) (pipeline_by sv r visited s)
  unfolding pipeline_by Nodes.retrieve
  pipeline_by-MakesAtMost web visited s e =
      bind-MakesAtMost 3 3 (Nodes.web_search sv s) _ (web_search-MakesAtMost s)
        (λ s'. answer_by-MakesAtMost web _ s')
  pipeline_by-MakesAtMost model visited s e = answer_by-MakesAtMost model visited s
  pipeline_by-MakesAtMost local visited s e = retrieved-MakesAtMost _ s _ (subst IsSearched e tt)
  pipeline_by-MakesAtMost auto visited s e = retrieved-MakesAtMost _ s _ (subst IsSearched e tt)

  -- A run calls the model at most three times, and six where the question is sent to the web.
  pub crag_app-calls :
      (s : GraphState floats.F) (log : Log)
      → calls (crag_app sv s log).1
        ≤ calls log + (if is_web (choose_route lower s.question) then 6 else 3)
  crag_app-calls s log = rw (crag_app-pipeline sv s log) (
      unfold pipeline Nodes.route_question in
      ((pipeline_by-MakesAtMost (choose_route lower s.question) _ _ refl).at log))
