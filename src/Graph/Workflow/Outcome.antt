-- ===== src/Graph/Workflow/Outcome.antt =====
-- What a finished run returns, route by route.
use flowxrag.Prelude.{
  List, [], ◌∷◌, ◌++◌, false, ◌≡◌, ◌⊎◌, refl, sym, map, arith, inl, inr, subst, ◌∙◌,
}
use flowxrag.Text.{Text}
use flowxrag.Effects.{Result, ok, raise, Log, ◌>>=◌, continue, Yields, Yields-all, continue-Yields}
use flowxrag.Graph.{
  Route, auto, local, web, model, SearchResult, Source, Document, GraphState, Services,
}
use flowxrag.Graph.Routing.{choose_route}
use flowxrag.Graph.Evidence.{search_result_to_document, search_result_to_source}
use flowxrag.Graph.Nodes
use flowxrag.Graph.Nodes.Facts.{
  IsSearched, IsDecided, grade_documents-settled, grade_documents-Keeps,
}
use flowxrag.Graph.Workflow.WebRoute.{IsWebAnswer, SameEvidence, generate-SameEvidence, web-outcome}
use flowxrag.Graph.Workflow.{Node, crag_app}
use flowxrag.Graph.Workflow.Paths.{answer_by, pipeline_by, pipeline, crag_app-pipeline}

module _ (sv : Services) where
  open sv use {floats, lower, search}

  abbrev line : List Node → Node → List Node
  line before last = before ++ last ∷ []

  -- An answer of the model alone: nothing is cited.
  pub record IsModelAnswer (path : List Node) (out : GraphState floats.F × List Node) : Type 0 where
    pub nodes : out.1 ≡ line path Node.direct_answer
    pub route : out.0.route ≡ model
    pub no_documents : out.0.documents ≡ []
    pub no_sources : out.0.sources ≡ []
    pub no_fallback : out.0.web_fallback ≡ false

  -- An answer from the documents: what is cited is what the search gave for the question.
  pub record IsLocalAnswer (question : Text) (path : List Node)
      (out : GraphState floats.F × List Node) : Type 0 where
    pub nodes : out.1 ≡ line path Node.generate
    pub route : out.0.route ≡ local
    pub results : List (SearchResult floats.F)
    pub searched : search question 5 ≡ ok results
    pub documents : out.0.documents ≡ map search_result_to_document results
    pub sources : out.0.sources ≡ map search_result_to_source results
    pub no_fallback : out.0.web_fallback ≡ false

  abbrev searched_path : List Node
  searched_path = Node.route_question ∷ Node.retrieve ∷ Node.grade_documents ∷ []

  -- What a run that is given some documents and sources returns on a route.
  abbrev pub Outcome :
      Route
      → Text
      → List (Document floats.F)
      → List (Source floats.F)
      → Log
      → GraphState floats.F × List Node
      → Type 0
  Outcome web question documents sources log out = IsWebAnswer sv question documents sources log out
  Outcome model question documents sources log out = IsModelAnswer (Node.route_question ∷ []) out
  Outcome _ question documents sources log out =
      IsLocalAnswer question searched_path out ⊎ IsModelAnswer searched_path out

  direct_answer-outcome :
      (visited : List Node) (s : GraphState floats.F) (log : Log)
      → Yields (IsModelAnswer visited) (answer_by sv model visited s log).0
  unfolding answer_by Nodes.direct_answer
  direct_answer-outcome visited s log =
      continue-Yields
        (λ s'.
          (s'.route ≡ model) × (s'.documents ≡ []) × (s'.sources ≡ []) × (s'.web_fallback ≡ false))
        (IsModelAnswer visited) _ _ _
        (continue-Yields (λ _. Unit {0}) _ (Nodes.ask sv _ log).0 _ _ (Yields-all _)
          (λ content log' _. (refl, refl, refl, refl)))
        (λ s' log' h. record {
          nodes = refl;
          route = h.0;
          no_documents = h.1;
          no_sources = h.2;
          no_fallback = h.3;
        })

  local-outcome :
      (question : Text) (results : List (SearchResult floats.F)) (s : GraphState floats.F)
      (log : Log)
      → search question 5 ≡ ok results
      → s.route ≡ local
      → s.documents ≡ map search_result_to_document results
      → s.sources ≡ map search_result_to_source results
      → s.web_fallback ≡ false
      → Yields (IsLocalAnswer question searched_path) (answer_by sv local searched_path s log).0
  unfolding answer_by
  local-outcome question results s log e r d c f =
      continue-Yields (SameEvidence sv s) (IsLocalAnswer question searched_path)
        (Nodes.generate sv s log).0 _ _ (generate-SameEvidence sv s log)
        (λ s' log' k. record {
          nodes = refl;
          route = k.0 ∙ r;
          results = results;
          searched = e;
          documents = k.1 ∙ d;
          sources = k.2 ∙ c;
          no_fallback = k.3 ∙ f;
        })

  -- Either kind of answer behind the grading.
  abbrev Searched : Text → GraphState floats.F × List Node → Type 0
  Searched question out = IsLocalAnswer question searched_path out ⊎ IsModelAnswer searched_path out

  weaken :
      (P Q : GraphState floats.F × List Node → Type 0)
      (r : Result (GraphState floats.F × List Node))
      → ((a : GraphState floats.F × List Node) → P a → Q a)
      → Yields P r
      → Yields Q r
  weaken P Q (ok a) f y = f a y
  weaken P Q (raise e) f y = tt

  -- The end of a searched run, by the route that the grading decided.
  decided-outcome :
      (r : Route) (question : Text) (results : List (SearchResult floats.F))
      (s : GraphState floats.F) (log : Log)
      → s.route ≡ r
      → search question 5 ≡ ok results
      → IsDecided floats.F s
      → (s.route ≡ local
          → (s.documents ≡ map search_result_to_document results)
            × (s.sources ≡ map search_result_to_source results))
      → Yields (Searched question) (answer_by sv r searched_path s log).0
  decided-outcome local question results s log q e d k =
      weaken _ (Searched question) (answer_by sv local searched_path s log).0 (λ a y. inl y)
        (local-outcome question results s log e q (k q).0 (k q).1 d.no_fallback)
  decided-outcome model question results s log q e d k =
      weaken _ (Searched question) (answer_by sv model searched_path s log).0 (λ a y. inr y)
        (direct_answer-outcome searched_path s log)
  decided-outcome auto question results s log q e d k = absurd (ground (arith, d.answerer))
  decided-outcome web question results s log q e d k = absurd (ground (arith, d.answerer))

  Searched-Outcome :
      (found : Result (List (SearchResult floats.F))) (s : GraphState floats.F) (log : Log)
      → search s.question 5 ≡ found
      → IsSearched s.route
      → Yields
          (Searched s.question)
          (continue
            (Nodes.with_results sv s found log).0
            (λ s'. do s'' ← Nodes.grade_documents sv s'; answer_by sv s''.route searched_path s'')
            (Nodes.with_results sv s found log).1).0
  Searched-Outcome (raise x) s log e h = tt
  Searched-Outcome (ok results) s log e h =
      let s' = Nodes.retrieved sv s results in
      let (s'', q, d) = grade_documents-settled sv s' log h in
      let keeps : Yields
          (λ (t : GraphState floats.F).
            t.route ≡ local → (t.documents ≡ s'.documents) × (t.sources ≡ s'.sources))
          (ok s'') =
        subst
          (λ (out : Result (GraphState floats.F) × Log).
            Yields
              (λ (t : GraphState floats.F).
                t.route ≡ local → (t.documents ≡ s'.documents) × (t.sources ≡ s'.sources))
              out.0)
          q (grade_documents-Keeps sv s' log h) in
      subst
        (λ (out : Result (GraphState floats.F) × Log).
          Yields (Searched s.question)
            (continue out.0 (λ (t : GraphState floats.F). answer_by sv t.route searched_path t)
              out.1).0)
        (sym q) (decided-outcome s''.route s.question results s'' log refl e d keeps)

  pipeline_by-Outcome :
      (r : Route) (s : GraphState floats.F) (log : Log)
      → r ≡ s.route
      → Yields
          (Outcome r s.question s.documents s.sources log)
          (pipeline_by sv r (Node.route_question ∷ []) s log).0
  unfolding pipeline_by Nodes.retrieve
  pipeline_by-Outcome web s log e = unfold pipeline_by in web-outcome sv s log
  pipeline_by-Outcome model s log e = direct_answer-outcome (Node.route_question ∷ []) s log
  pipeline_by-Outcome local s log e =
      Searched-Outcome (search s.question 5) s log refl (subst IsSearched e tt)
  pipeline_by-Outcome auto s log e =
      Searched-Outcome (search s.question 5) s log refl (subst IsSearched e tt)

  pub crag_app-Outcome :
      (s : GraphState floats.F) (log : Log)
      → Yields
          (Outcome (choose_route lower s.question) s.question s.documents s.sources log)
          (crag_app sv s log).0
  crag_app-Outcome s log = rw (crag_app-pipeline sv s log) (
      unfold pipeline Nodes.route_question in
      pipeline_by-Outcome (choose_route lower s.question) _ log refl)
