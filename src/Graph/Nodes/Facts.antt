-- ===== src/Graph/Nodes/Facts.antt =====
-- What the nodes do to the fields that the edges read, and when they call the model.
use flowxrag.Prelude.{
  List, [], ◌∷◌, true, false, ◌≡◌, ◌⊎◌, sym, refl, arith, is_empty, Bool-cases, inl, inr,
}
use flowxrag.Effects.{Result, ok, raise, Log, pure, continue, Yields}
use flowxrag.Graph.{Route, auto, local, web, model, Document, GraphState, Services}
use flowxrag.Graph.Nodes.{grade_each, graded, nothing_found, found, grade_documents, add_step}
use flowxrag.Graph.Evidence.{local_results_confident}

-- The routes that lead to the local search.
abbrev pub IsSearched : Route → Type 0
IsSearched local = Unit
IsSearched auto = Unit
IsSearched _ = ⊥

-- What the grading leaves: the answer is local or the model's, and the web is not asked for.
pub record IsDecided (F : Type 0) (s : GraphState F) : Type 0 where
  pub no_fallback : s.web_fallback ≡ false
  pub answerer : (s.route ≡ local) ⊎ (s.route ≡ model)

module _ (sv : Services) where
  open sv use {floats}

  nothing_found-IsDecided :
      (r : Route) (s : GraphState floats.F) → IsDecided floats.F (nothing_found sv r s)
  nothing_found-IsDecided local s = record { no_fallback = refl; answerer = inl refl }
  nothing_found-IsDecided auto s = record { no_fallback = refl; answerer = inr refl }
  nothing_found-IsDecided web s = record { no_fallback = refl; answerer = inr refl }
  nothing_found-IsDecided model s = record { no_fallback = refl; answerer = inr refl }

  graded-IsDecided :
      (s : GraphState floats.F) (kept : List (Document floats.F))
      → IsDecided floats.F (graded sv s kept)
  graded-IsDecided s [] = record { no_fallback = refl; answerer = inl refl }
  graded-IsDecided s (d ∷ kept) = record { no_fallback = refl; answerer = inl refl }

  after_grading :
      (s : GraphState floats.F) (r : Result (List (Document floats.F))) (log : Log)
      → Yields (IsDecided floats.F) (continue r (λ kept. pure (graded sv s kept)) log).0
  after_grading s (ok kept) log = graded-IsDecided s kept
  after_grading s (raise e) log = tt

  found-settled :
      (r : Route) (s : GraphState floats.F) (log : Log)
      → IsSearched r
      → (s' : GraphState floats.F) × (found sv r s log ≡ (ok s', log)) × IsDecided floats.F s'
  found-settled local s log h = (_, refl, record { no_fallback = refl; answerer = inl refl })
  found-settled auto s log h =
      elim (Bool-cases (local_results_confident sv s.question s.documents)) [
        | inl e ↦ rw e (_, refl, record { no_fallback = refl; answerer = inl refl })
        | inr e ↦ rw e (_, refl, record { no_fallback = refl; answerer = inr refl })
      ]
  found-settled web s log h = elim h [ ]
  found-settled model s log h = elim h [ ]

  -- Where the question is one for the documents, the grading calls no model and raises nothing.
  pub grade_documents-settled :
      (s : GraphState floats.F) (log : Log)
      → IsSearched s.route
      → (s' : GraphState floats.F) × (grade_documents sv s log ≡ (ok s', log))
        × IsDecided floats.F s'
  unfolding grade_documents
  grade_documents-settled s log h =
      let begun = add_step "2. 相关性评分：DeepSeek 判断本地片段是否能回答问题" s in
      elim (Bool-cases (is_empty s.documents)) [
        | inl e ↦ rw e (_, refl, nothing_found-IsDecided s.route begun)
        | inr e ↦ rw e (found-settled s.route begun log h)
      ]

  -- A state that is answered from the documents still has those that the search gave.
  abbrev Keeps : GraphState floats.F → GraphState floats.F → Type 0
  Keeps s s' = s'.route ≡ local → (s'.documents ≡ s.documents) × (s'.sources ≡ s.sources)

  nothing_found-Keeps :
      (r : Route) (s : GraphState floats.F) → s.documents ≡ [] → Keeps s (nothing_found sv r s)
  nothing_found-Keeps local s e = λ _. (sym e, refl)
  nothing_found-Keeps auto s e = λ q. absurd (ground arith)
  nothing_found-Keeps web s e = λ q. absurd (ground arith)
  nothing_found-Keeps model s e = λ q. absurd (ground arith)

  found-Keeps :
      (r : Route) (s : GraphState floats.F) (log : Log)
      → IsSearched r
      → Yields (Keeps s) (found sv r s log).0
  found-Keeps local s log h = λ _. (refl, refl)
  found-Keeps auto s log h = elim (Bool-cases (local_results_confident sv s.question s.documents)) [
    | inl e ↦ rw e (λ _. (refl, refl))
    | inr e ↦ rw e (λ q. absurd (ground arith))
  ]
  found-Keeps web s log h = elim h [ ]
  found-Keeps model s log h = elim h [ ]

  empty_list : (xs : List (Document floats.F)) → is_empty xs ≡ true → xs ≡ []
  empty_list [] e = refl
  empty_list (x ∷ xs) e = absurd (ground arith)

  pub grade_documents-Keeps :
      (s : GraphState floats.F) (log : Log)
      → IsSearched s.route
      → Yields
          (λ s'. s'.route ≡ local → (s'.documents ≡ s.documents) × (s'.sources ≡ s.sources))
          (grade_documents sv s log).0
  unfolding grade_documents
  grade_documents-Keeps s log h =
      let begun = add_step "2. 相关性评分：DeepSeek 判断本地片段是否能回答问题" s in
      elim (Bool-cases (is_empty s.documents)) [
        | inl e ↦ rw e (nothing_found-Keeps s.route begun (empty_list s.documents e))
        | inr e ↦ rw e (found-Keeps s.route begun log h)
      ]

  found-IsDecided :
      (r : Route) (s : GraphState floats.F) (log : Log)
      → Yields (IsDecided floats.F) (found sv r s log).0
  found-IsDecided web s log = after_grading s (grade_each sv s.question s.documents log).0 _
  found-IsDecided model s log = after_grading s (grade_each sv s.question s.documents log).0 _
  found-IsDecided local s log = record { no_fallback = refl; answerer = inl refl }
  found-IsDecided auto s log =
      elim (Bool-cases (local_results_confident sv s.question s.documents)) [
        | inl e ↦ rw e (record { no_fallback = refl; answerer = inl refl })
        | inr e ↦ rw e (record { no_fallback = refl; answerer = inr refl })
      ]

  -- Whatever the route and the verdicts of the model, the grading never asks for the web search.
  pub grade_documents-IsDecided :
      (s : GraphState floats.F) (log : Log)
      → Yields (IsDecided floats.F) (grade_documents sv s log).0
  unfolding grade_documents
  grade_documents-IsDecided s log =
      let begun = add_step "2. 相关性评分：DeepSeek 判断本地片段是否能回答问题" s in
      elim (Bool-cases (is_empty s.documents)) [
        | inl e ↦ rw e (nothing_found-IsDecided s.route begun)
        | inr e ↦ rw e (found-IsDecided s.route begun log)
      ]
