-- ===== src/Graph/Workflow/WebRoute.antt =====
-- The nodes `web_search` and `generate` of backend/graph.py: what an answer over the web rests on.
use flowxrag.Prelude.{List, [], ◌∷◌, ◌++◌, true, ◌≡◌, refl, sym, inl, inr, subst, ◌∙◌}
use flowxrag.Text.{Text, codes}
use flowxrag.Effects.{Result, ok, raise, Log, Yields, Yields-all, continue-Yields, Result-cases}
use flowxrag.Graph.{web, model, Source, from_tool, Document, GraphState, Services}
use flowxrag.Graph.Web.{search_web}
use flowxrag.Graph.Nodes
use flowxrag.Graph.Nodes.Prompts.{fallback_prompt}
use flowxrag.Graph.Workflow.{Node}
use flowxrag.Graph.Workflow.Paths.{pipeline_by}

module _ (sv : Services) where
  open sv use {floats}

  -- The evidence of the web, put behind the documents and sources that there were: where the web
  -- search answered, its text as one more document, and the sources that it found; where it raised,
  -- what the model knows, as one more document with one more source.
  abbrev pub WebEvidence :
      Text
      → List (Document floats.F)
      → List (Source floats.F)
      → Result (Text × List (Source floats.F))
      → Log
      → GraphState floats.F
      → Type 0
  WebEvidence question documents sources (ok (context, cited)) log s =
      (s.documents
        ≡ documents
          ++ record {
            content = context;
            source = codes "Tavily 全网搜索";
            source_meta = from_tool (codes "Tavily 全网搜索") web;
          }
            ∷ [])
      × (s.sources ≡ sources ++ cited)
  WebEvidence question documents sources (raise exc) log s =
      (content : Text) × ((Nodes.ask sv (fallback_prompt question) log).0 ≡ ok content)
      × (s.documents
          ≡ documents
            ++ record {
              content = content;
              source = codes "DeepSeek 模型知识兜底";
              source_meta = from_tool (codes "DeepSeek 模型知识兜底") model;
            }
              ∷ [])
      × (s.sources ≡ sources ++ from_tool (codes "DeepSeek 模型知识兜底") model ∷ [])

  -- An answer over the evidence of the web.
  pub record IsWebAnswer (question : Text) (documents : List (Document floats.F))
      (sources : List (Source floats.F)) (log : Log) (out : GraphState floats.F × List Node)
      : Type 0 where
    pub nodes : out.1 ≡ Node.route_question ∷ Node.web_search ∷ Node.generate ∷ []
    pub route : out.0.route ≡ web
    pub fallback : out.0.web_fallback ≡ true
    pub evidence :
        WebEvidence question documents sources
          (search_web sv question log).0
          (search_web sv question log).1
          out.0

  -- `generate` adds the answer and leaves the rest of what is returned.
  abbrev pub SameEvidence : GraphState floats.F → GraphState floats.F → Type 0
  SameEvidence s s' =
      (s'.route ≡ s.route)
      × (s'.documents ≡ s.documents)
      × (s'.sources ≡ s.sources)
      × (s'.web_fallback ≡ s.web_fallback)

  pub generate-SameEvidence :
      (s : GraphState floats.F) (log : Log) → Yields (SameEvidence s) (Nodes.generate sv s log).0
  unfolding Nodes.generate
  generate-SameEvidence s log =
      continue-Yields (λ _. Unit {0}) (SameEvidence s) (Nodes.ask sv _ log).0 _ _ (Yields-all _)
        (λ content log' _. (refl, refl, refl, refl))

  -- What `web_search` makes of a state.
  abbrev AsksWeb : GraphState floats.F → Log → GraphState floats.F → Type 0
  AsksWeb s log s' =
      (s'.route ≡ web)
      × (s'.web_fallback ≡ true)
      × WebEvidence s.question s.documents s.sources (search_web sv s.question log).0
          (search_web sv s.question log).1 s'

  Yields-self : {A : Type 0} (r : Result A) → Yields (λ a. r ≡ ok a) r
  Yields-self (ok a) = refl
  Yields-self (raise e) = tt

  web_search-AsksWeb :
      (s : GraphState floats.F) (log : Log) → Yields (AsksWeb s log) (Nodes.web_search sv s log).0
  unfolding Nodes.web_search
  web_search-AsksWeb s log = elim (Result-cases (search_web sv s.question log).0) [
    | inl ((context, cited), e) ↦ rw e (refl, refl, evidence_of _ _ _ _ _ _ _ e (refl, refl))
    | inr (exc, e) ↦
        let tried = search_web sv s.question log in
        let known = Nodes.ask sv (fallback_prompt s.question) tried.1 in
        rw e (
          continue-Yields (λ content. known.0 ≡ ok content) (AsksWeb s log) known.0 _ known.1
            (Yields-self known.0)
            (λ content log'' k. (refl, refl, evidence_of _ _ _ _ _ _ _ e (content, k, refl, refl))))
  ]
    where
      evidence_of :
          (question : Text) (documents : List (Document floats.F))
          (sources : List (Source floats.F)) (r r' : Result (Text × List (Source floats.F)))
          (log : Log) (s' : GraphState floats.F)
          → r ≡ r'
          → WebEvidence question documents sources r' log s'
          → WebEvidence question documents sources r log s'
      evidence_of question documents sources r r' log s' e h =
          subst (λ x. WebEvidence question documents sources x log s') (sym e) h

  SameEvidence-WebEvidence :
      (question : Text) (documents : List (Document floats.F)) (sources : List (Source floats.F))
      (r : Result (Text × List (Source floats.F))) (log : Log) (s s' : GraphState floats.F)
      → SameEvidence s s'
      → WebEvidence question documents sources r log s
      → WebEvidence question documents sources r log s'
  SameEvidence-WebEvidence question documents sources (ok found) log s s' h k =
      (h.1 ∙ k.0, h.2 ∙ k.1)
  SameEvidence-WebEvidence question documents sources (raise exc) log s s' h k =
      (k.0, k.1, h.1 ∙ k.2, h.2 ∙ k.3)

  pub web-outcome :
      (s : GraphState floats.F) (log : Log)
      → Yields
          (IsWebAnswer s.question s.documents s.sources log)
          (pipeline_by sv web (Node.route_question ∷ []) s log).0
  unfolding pipeline_by
  web-outcome s log =
      let answer = IsWebAnswer s.question s.documents s.sources log in
      continue-Yields (AsksWeb s log) answer (Nodes.web_search sv s log).0 _ _
        (web_search-AsksWeb s log)
        (λ s' log' h.
          continue-Yields (SameEvidence s') answer (Nodes.generate sv s' log').0 _ _
            (generate-SameEvidence s' log')
            (λ s'' log'' k. record {
              nodes = refl;
              route = k.0 ∙ h.0;
              fallback = k.3 ∙ h.1;
              evidence =
                  SameEvidence-WebEvidence s.question s.documents s.sources
                    (search_web sv s.question log).0 (search_web sv s.question log).1 s' s'' k h.2;
            }))
