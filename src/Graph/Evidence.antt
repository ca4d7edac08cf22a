-- ===== src/Graph/Evidence.antt =====
-- Search results as documents and sources, and whether they are trusted.
use flowxrag.Prelude.{
  List, [], ◌∷◌, ◌++◌, Bool, true, false, not, ◌&&◌, Option, none, some, map, keep, any, take,
  length, min, leb, if◌then◌else◌, is_empty,
}
use flowxrag.Text.{distinct, Text, codes, same, contains, join, decimal}
use flowxrag.Retriever.Tokens.{bm25_tokenize}
use flowxrag.Graph.{SearchResult, Source, from_local, from_web, from_tool, Document, Services}

module _ {F : Type 0} where
  unfoldable pub search_result_to_source : SearchResult F → Source F
  search_result_to_source r = from_local r.source r.page r.score r.retrieval_score

  unfoldable pub search_result_to_document : SearchResult F → Document F
  unfolding search_result_to_source decimal
  search_result_to_document r = record {
    content = r.content;
    source = r.source ++ (codes " p." ++ decimal r.page);
    source_meta = search_result_to_source r;
  }

  -- `source_meta.get("score")`
  abbrev pub score_of : Source F → Option F
  score_of (from_local source page score retrieval_score) = some score
  score_of (from_web title url score) = score
  score_of (from_tool source kind) = none

-- The words that say nothing of the subject.
abbrev pub stop_terms : List Text
stop_terms = map codes ("这个" ∷ "那个" ∷ "什么" ∷ "怎么" ∷ "如何" ∷ "一下" ∷ [])

module _ (sv : Services) where
  open sv use {floats, lower, auto_local_score_threshold}

  -- `float(x or 0)`
  abbrev or_zero : Option floats.F → floats.F
  or_zero none = floats.zero_f
  or_zero (some x) = x

  -- `max` of the scores: the first of the largest
  unfoldable pub best_from : floats.F → List (Document floats.F) → floats.F
  best_from best [] = best
  best_from best (d ∷ documents) =
      let x = or_zero (score_of d.source_meta) in
      best_from (if floats.leq x best then best else x) documents

  unfoldable pub query_terms : Text → List Text
  unfolding bm25_tokenize
  query_terms question =
      distinct (
        keep (λ t. leb 2 (length t) && not (any (same t) stop_terms))
          (bm25_tokenize lower question))

  unfoldable pub local_results_confident : Text → List (Document floats.F) → Bool
  unfolding best_from query_terms contains
  local_results_confident question [] = false
  local_results_confident question (d ∷ documents) =
      let best = best_from (or_zero (score_of d.source_meta)) documents in
      let terms = query_terms question in
      let context =
        join (10 ∷ [])
          (map (λ (x : Document floats.F). lower (take 1200 x.content)) (take 3 (d ∷ documents))) in
      let overlap = length (keep (λ t. contains t context) terms) in
      if floats.leq auto_local_score_threshold best
      then true
      else (if is_empty terms then false else leb (min 2 (length terms)) overlap)
