-- ===== src/Graph/Grounded.antt =====
-- The graph over the knowledge base of backend/retriever.py: what an answer from documents cites.
use flowxrag.Prelude.{ℕ, List, ◌≡◌, ◌⊎◌, inl, inr, sym, ◌∙◌, subst, map}
use flowxrag.Text.{Text}
use flowxrag.Effects.{Result, ok, raise, Log, Yields}
use flowxrag.Graph.{
  Route, auto, local, web, model, SearchResult, Source, Document, GraphState, Services,
}
use flowxrag.Graph.Evidence.{search_result_to_document, search_result_to_source}
use flowxrag.Graph.Routing.{choose_route}
use flowxrag.Graph.Nodes.Facts.{IsSearched}
use flowxrag.Graph.Workflow.{Node, crag_app}
use flowxrag.Graph.Workflow.Outcome.{Outcome, IsLocalAnswer, IsModelAnswer, crag_app-Outcome}
use flowxrag.Retriever.Store.{Store}
use flowxrag.Retriever.Rerank.{Label, Response}
use flowxrag.Retriever.Rerank.Laws.{Top}
use flowxrag.Retriever.Search.{Settings, search}
use flowxrag.Retriever.Search.Sound.{IsFrom, search-Top}

Yields-map :
    {A : Type 0} (P Q : A → Type 0) (r : Result A) → ((a : A) → P a → Q a) → Yields P r → Yields Q r
Yields-map P Q (ok a) f h = f a h
Yields-map P Q (raise e) f h = tt

module _ (sv : Services) (settings : Settings sv.floats.F) {V : Type 0}
    (embed : List Text → Result (List V))
    (faiss_search : List V → List V → ℕ → Result (List (sv.floats.F × Label)))
    (post : Text → Text → List Text → ℕ → Result (Response sv.floats.F)) (min_score : sv.floats.F)
    (store : Store V sv.floats.F) where
  -- The services with the search of this knowledge base.
  abbrev pub over_store : Services
  over_store = record sv {
    search = λ question k.
        search sv.floats settings sv.lower embed faiss_search post store question k min_score;
  }

  -- If the answer is from documents, they are at most five results, each of a chunk of the store.
  abbrev pub IsGrounded : GraphState sv.floats.F × List Node → Type 0
  IsGrounded out =
      out.0.route ≡ local
      → (results : List (SearchResult sv.floats.F)) × Top (IsFrom store.chunks) 5 results
        × (out.0.documents ≡ map search_result_to_document results)
        × (out.0.sources ≡ map search_result_to_source results)

  local-IsGrounded :
      (question : Text) (path : List Node) (out : GraphState sv.floats.F × List Node)
      → IsLocalAnswer over_store question path out ⊎ IsModelAnswer over_store path out
      → IsGrounded out
  local-IsGrounded question path out (inl a) h = (
    a.results,
    subst (Yields (Top (IsFrom store.chunks) 5)) a.searched
        (search-Top sv.floats settings sv.lower embed faiss_search post store question 5 min_score),
    a.documents,
    a.sources,
  )
  local-IsGrounded question path out (inr a) h = absurd (subst IsSearched (sym h ∙ a.route) tt)

  Outcome-IsGrounded :
      (route : Route) (question : Text) (documents : List (Document sv.floats.F))
      (sources : List (Source sv.floats.F)) (log : Log) (out : GraphState sv.floats.F × List Node)
      → Outcome over_store route question documents sources log out
      → IsGrounded out
  Outcome-IsGrounded web question documents sources log out a h =
      absurd (subst IsSearched (sym h ∙ a.route) tt)
  Outcome-IsGrounded model question documents sources log out a h =
      absurd (subst IsSearched (sym h ∙ a.route) tt)
  Outcome-IsGrounded local question documents sources log out a h =
      local-IsGrounded question _ out a h
  Outcome-IsGrounded auto question documents sources log out a h =
      local-IsGrounded question _ out a h

  -- A run over a knowledge base that raises nothing and ends on the local route has for documents
  -- and sources those of at most five results, each with the text, the source and the page of a
  -- chunk of the store.
  pub crag_app-IsGrounded :
      (s : GraphState sv.floats.F) (log : Log) → Yields IsGrounded (crag_app over_store s log).0
  crag_app-IsGrounded s log =
      let route = choose_route sv.lower s.question in
      Yields-map (Outcome over_store route s.question s.documents s.sources log) IsGrounded _
        (Outcome-IsGrounded route s.question s.documents s.sources log)
        (crag_app-Outcome over_store s log)
