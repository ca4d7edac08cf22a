-- ===== src/Retriever/Rerank.antt =====
-- `RerankerBackend` of backend/retriever.py, over the answers of the rerank endpoint.
pub mod Laws
use flowxrag.Prelude.{
  ℕ, List, [], ◌∷◌, ◌++◌, Bool, not, ◌||◌, ◌==◌, ltb, Option, none, some, if◌then◌else◌, take, keep,
  map, is_empty, get_elem?,
}
use flowxrag.Text.{Text, codes, split, strip, decimal}
use flowxrag.Float.{Floats}
use flowxrag.Effects.{Result, ok, raise}
use flowxrag.Graph.{SearchResult}

-- A Python `int` that is used as an index.
pub data Label : Type 0 where
  at : ℕ → Label
  negative : Label

-- An item of the answer: its index, that of its `document` if it has one, and its three scores,
-- each `none` where the key is missing and `some none` where it is null.
pub record Item (F : Type 0) : Type 0 where
  pub index : Option Label
  pub document_index : Option Label
  pub relevance_score : Option (Option F)
  pub score : Option (Option F)
  pub rank_score : Option (Option F)

-- An answer, with the items of its body or the exception of reading it.
pub record Response (F : Type 0) : Type 0 where
  pub status_code : ℕ
  pub text : Text
  pub body : Result (List (Item F))

abbrev pub or_else {ℓ} : {A : Type ℓ} → Option A → Option A → Option A
or_else none y = y
or_else (some x) y = some x

-- `item.get("relevance_score", item.get("score", item.get("rank_score")))`
unfoldable pub item_score : {F : Type 0} → Item F → Option F
item_score i = elim (or_else i.relevance_score (or_else i.score i.rank_score)) [
  | none ↦ none
  | some s ↦ s
]

unfoldable pub candidate_models : Text → List Text
unfolding split strip
candidate_models configured =
    let models = keep (λ m. not (is_empty m)) (map strip (split configured (codes ","))) in
    if is_empty models then codes "rerank-v4.0-fast" ∷ [] else models

-- `post` is the request to the endpoint: the model, the query, the texts and `top_n`.
module _ (floats : Floats) (post : Text → Text → List Text → ℕ → Result (Response floats.F)) where
  open floats use {F, round4}

  -- The loop over the models: the response that it stops at.
  unfoldable pub try_models : Text → List Text → ℕ → List Text → Text → Result (Response F)
  unfolding decimal
  try_models query texts top_k [] last_error =
      raise (if is_empty last_error then codes "Rerank API failed." else last_error)
  try_models query texts top_k (model ∷ models) last_error = elim (post model query texts top_k) [
    | raise e ↦ raise e
    | ok response ↦
        let error = decimal response.status_code ++ 32 ∷ take 500 response.text in
        let rest = try_models query texts top_k models error in
        if ltb response.status_code 400
          || (response.status_code == 401 || response.status_code == 403)
        then ok response
        else rest
  ]

  -- The result that an item stands for, with its new score.
  unfoldable pub rescored : SearchResult F → Option F → SearchResult F
  rescored result score = record result {
    score = elim score [ some x ↦ round4 x | none ↦ result.score ];
    retrieval_score = or_else result.retrieval_score (some result.score);
  }

  -- The result at an index, which may be missing, negative or too large.
  abbrev pub result_at : List (SearchResult F) → Option Label → Option (SearchResult F)
  result_at results none = none
  result_at results (some negative) = none
  result_at results (some (at i)) = get_elem? results i

  abbrev pub place :
      Option (SearchResult F) → Option F → List (SearchResult F) → List (SearchResult F)
  place none score rest = rest
  place (some result) score rest = rescored result score ∷ rest

  unfoldable pub ranked_from : List (SearchResult F) → List (Item F) → List (SearchResult F)
  unfolding rescored item_score
  ranked_from results [] = []
  ranked_from results (item ∷ items) =
      place (result_at results (or_else item.index item.document_index)) (item_score item)
        (ranked_from results items)

  -- What is left to do with the body of a response.
  abbrev pub ranked :
      List (SearchResult F) → ℕ → Result (List (Item F)) → Result (List (SearchResult F))
  ranked results top_k (raise e) = raise e
  ranked results top_k (ok items) =
      let found = ranked_from results items in
      ok (if is_empty found then take top_k results else take top_k found)

  -- `raise_for_status`, and what follows it.
  abbrev pub answered :
      List (SearchResult F) → ℕ → Result (Response F) → Result (List (SearchResult F))
  answered results top_k (raise e) = raise e
  answered results top_k (ok response) =
      if ltb response.status_code 400
      then ranked results top_k response.body
      else raise (decimal response.status_code)

  unfoldable pub rerank_api :
      Text → Text → List (SearchResult F) → ℕ → Result (List (SearchResult F))
  unfolding try_models ranked_from candidate_models
  rerank_api configured query results top_k =
      let texts = map (λ (r : SearchResult F). r.content) results in
      answered results top_k (try_models query texts top_k (candidate_models configured) [])

  unfoldable pub rerank : Bool → Text → Text → List (SearchResult F) → ℕ → List (SearchResult F)
  unfolding rerank_api
  rerank enabled configured query results top_k =
      if not enabled || is_empty results
      then take top_k results
      else elim (rerank_api configured query results top_k) [
        | ok found ↦ found
        | raise e ↦ take top_k results
      ]
