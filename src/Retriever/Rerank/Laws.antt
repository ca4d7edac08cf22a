-- ===== src/Retriever/Rerank/Laws.antt =====
-- What reranking leaves of the results.
use flowxrag.Prelude.{
  OnSome, OnSome-get_elem?, ℕ, ◌≤◌, List, [], ◌∷◌, Bool, not, ◌||◌, ltb, Option, none, some,
  Bool-cases, inl, inr, arith, All, All-take, length, length-take, take, map, is_empty, subst,
}
use flowxrag.Text.{Text}
use flowxrag.Float.{Floats}
use flowxrag.Effects.{Result, ok, raise, Result-cases, Yields}
use flowxrag.Graph.{SearchResult}
use flowxrag.Retriever.Rerank.{
  Label, at, negative, Item, Response, or_else, rescored, result_at, place, ranked_from, ranked,
  answered, rerank_api, rerank, try_models, candidate_models,
}

-- All satisfy the predicate, and there are at most so many.
abbrev pub Top : {A : Type 0} → (A → Type 0) → ℕ → List A → Type 0
Top P top_k xs = All P xs × (length xs ≤ top_k)

pub Top-take :
    {A : Type 0} (P : A → Type 0) (top_k : ℕ) (xs : List A) → All P xs → Top P top_k (take top_k xs)
Top-take P top_k xs h = (All-take P top_k xs h, omega (arith, length-take top_k xs))

module _ (floats : Floats) (post : Text → Text → List Text → ℕ → Result (Response floats.F))
    (P : SearchResult floats.F → Type 0)
    (stable : (r : SearchResult floats.F) (x : Option floats.F)
      → P r
      → P (rescored floats post r x)) where
  place-All :
      (o : Option (SearchResult floats.F)) (x : Option floats.F)
      (rest : List (SearchResult floats.F))
      → OnSome P o
      → All P rest
      → All P (place floats post o x rest)
  place-All none x rest h k = k
  place-All (some r) x rest h k = (stable r x h, k)

  result_at-OnSome :
      (results : List (SearchResult floats.F)) (label : Option Label)
      → All P results
      → OnSome P (result_at floats post results label)
  result_at-OnSome results none h = tt
  result_at-OnSome results (some negative) h = tt
  result_at-OnSome results (some (at i)) h = OnSome-get_elem? P results i h

  ranked_from-All :
      (results : List (SearchResult floats.F)) (items : List (Item floats.F))
      → All P results
      → All P (ranked_from floats post results items)
  unfolding ranked_from
  ranked_from-All results [] h = tt
  ranked_from-All results (item ∷ items) h =
      place-All (result_at floats post results (or_else item.index item.document_index)) _ _
        (result_at-OnSome results (or_else item.index item.document_index) h)
        (ranked_from-All results items h)

  ranked-Top :
      (results : List (SearchResult floats.F)) (top_k : ℕ) (body : Result (List (Item floats.F)))
      → All P results
      → Yields (Top P top_k) (ranked floats post results top_k body)
  ranked-Top results top_k (raise e) h = tt
  ranked-Top results top_k (ok items) h =
      elim (Bool-cases (is_empty (ranked_from floats post results items))) [
        | inl e ↦ rw e (Top-take P top_k results h)
        | inr e ↦ rw e (Top-take P top_k _ (ranked_from-All results items h))
      ]

  answered-Top :
      (results : List (SearchResult floats.F)) (top_k : ℕ) (r : Result (Response floats.F))
      → All P results
      → Yields (Top P top_k) (answered floats post results top_k r)
  answered-Top results top_k (raise e) h = tt
  answered-Top results top_k (ok response) h = elim (Bool-cases (ltb response.status_code 400)) [
    | inl d ↦ rw d (ranked-Top results top_k response.body h)
    | inr d ↦ rw d tt
  ]

  rerank_api-Top :
      (configured query : Text) (results : List (SearchResult floats.F)) (top_k : ℕ)
      → All P results
      → Yields (Top P top_k) (rerank_api floats post configured query results top_k)
  unfolding rerank_api
  rerank_api-Top configured query results top_k h =
      let texts = map (λ (r : SearchResult floats.F). r.content) results in
      answered-Top results top_k
        (try_models floats post query texts top_k (candidate_models configured) []) h

  -- Whatever the rerank endpoint answers, reranking raises nothing and leaves at most `top_k`
  -- results; each has what every result had, if that does not depend on the scores.
  pub rerank-Top :
      (enabled : Bool) (configured query : Text) (results : List (SearchResult floats.F))
      (top_k : ℕ)
      → All P results
      → Top P top_k (rerank floats post enabled configured query results top_k)
  unfolding rerank
  rerank-Top enabled configured query results top_k h =
      elim (Bool-cases (not enabled || is_empty results)) [
        | inl d ↦ rw d (Top-take P top_k results h)
        | inr d ↦
            rw d (elim (Result-cases (rerank_api floats post configured query results top_k)) [
              | inl (found, e) ↦
                  rw e (
                    subst (Yields (Top P top_k)) e
                      (rerank_api-Top configured query results top_k h))
              | inr (m, e) ↦ rw e (Top-take P top_k results h)
            ])
      ]
