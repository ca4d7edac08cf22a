-- ===== src/Retriever/Search.antt =====
-- `KnowledgeBase.search` of backend/retriever.py: dense and sparse retrieval, their fusion by rank,
-- one result for each parent chunk, the overview results, and the reranking.
pub mod Fusion
pub mod Sound
use flowxrag.Prelude.{
  ℕ, zero, suc, ◌+◌, ◌*◌, max, min, List, [], ◌∷◌, ◌++◌, Bool, true, false, not, ◌&&◌, ◌||◌, ◌==◌,
  leb, Option, none, some, if◌then◌else◌, length, take, any, map, is_empty, get_elem?, String,
}
use flowxrag.Prelude.Sort.{sort}
use flowxrag.Dict.{put}
use flowxrag.Text.{Text, codes, same, contains, any_in}
use flowxrag.Float.{Floats}
use flowxrag.Effects.{Result, ok, raise}
use flowxrag.Graph.{SearchResult}
use flowxrag.Retriever.Ingest.{Chunk}
use flowxrag.Retriever.Tokens.{is_document_overview_query}
use flowxrag.Retriever.Bm25.{bm25_search}
use flowxrag.Retriever.Store.{Store, parent_key}
use flowxrag.Retriever.Rerank.{Label, at, negative, Response, rerank}

-- `chunk.parent_content or chunk.content`
abbrev pub shown : Chunk → Text
shown c = if is_empty c.parent_content then c.content else c.parent_content

-- The part of a result that tells it from others.
abbrev pub result_key : {F : Type 0} → SearchResult F → Text × ℕ × Text
result_key r = (r.source, r.page, take 160 r.content)

abbrev pub same_key : Text × ℕ × Text → Text × ℕ × Text → Bool
same_key (s, p, c) (s', p', c') = same s s' && (p == p' && same c c')

-- The loop of `_merge_search_results`, with the keys seen and the number of results so far. It
-- ends after the result that makes the number reach `top_k`.
unfoldable pub merge_loop :
    {F : Type 0} → List (Text × ℕ × Text) → ℕ → ℕ → List (SearchResult F) → List (SearchResult F)
merge_loop seen count top_k [] = []
merge_loop seen count top_k (r ∷ results) =
    let skipped = merge_loop seen count top_k results in
    let rest = merge_loop (result_key r ∷ seen) (count + 1) top_k results in
    if any (same_key (result_key r)) seen
    then skipped
    else r ∷ (if leb top_k (count + 1) then [] else rest)

unfoldable pub merge_search_results :
    {F : Type 0} → List (SearchResult F) → List (SearchResult F) → ℕ → List (SearchResult F)
unfolding merge_loop
merge_search_results primary secondary top_k = merge_loop [] 0 top_k (primary ++ secondary)

-- The settings of the environment; `none` where the variable is not set.
pub record Settings (F : Type 0) : Type 0 where
  pub rrf_k : ℕ
  pub vector_weight : F
  pub bm25_weight : F
  pub k1 : F
  pub b : F
  pub bm25_enabled : Bool
  pub overview_boost : Bool
  pub retriever_candidate_k : Option ℕ
  pub bm25_candidate_k : Option ℕ
  pub rerank_enabled : Bool
  pub rerank_model : Text

abbrev or_default : Option ℕ → ℕ → ℕ
or_default none n = n
or_default (some m) n = m

module _ (floats : Floats) (settings : Settings floats.F) where
  open floats use {F, zero_f, of_ℕ, add, div, round4, is_finite, leq}

  -- `fused_scores[index] += weight`
  unfoldable pub add_score : ℕ → F → List (ℕ × F) → List (ℕ × F)
  add_score index weight [] = (index, add zero_f weight) ∷ []
  add_score index weight ((i, x) ∷ scores) =
      let rest = add_score index weight scores in
      if i == index then (i, add x weight) ∷ scores else (i, x) ∷ rest

  unfoldable pub add_ranks : F → ℕ → List (ℕ × F) → List (ℕ × F) → List (ℕ × F)
  unfolding add_score
  add_ranks weight rank [] scores = scores
  add_ranks weight rank ((index, x) ∷ hits) scores =
      add_ranks weight (rank + 1) hits
        (add_score index (div weight (of_ℕ (settings.rrf_k + rank))) scores)

  unfoldable pub rrf_fuse : List (ℕ × F) → List (ℕ × F) → List (ℕ × F)
  unfolding add_ranks
  rrf_fuse vector_hits bm25_hits =
      add_ranks settings.bm25_weight 1 bm25_hits (add_ranks settings.vector_weight 1 vector_hits [])

  -- The hits of the vector index that count.
  unfoldable pub vector_hits_of : F → List (F × Label) → List (ℕ × F)
  vector_hits_of min_score [] = []
  vector_hits_of min_score ((score, negative) ∷ hits) = vector_hits_of min_score hits
  vector_hits_of min_score ((score, at i) ∷ hits) =
      let rest = vector_hits_of min_score hits in
      if not (is_finite score) || not (leq min_score score) then rest else (i, score) ∷ rest

  abbrev pub result_of : Chunk → F → SearchResult F
  result_of c score = record {
    content = shown c;
    source = c.source;
    page = c.page;
    score = round4 score;
    retrieval_score = some (round4 score);
  }

  -- `new.score > old.score`
  abbrev pub better : SearchResult F → SearchResult F → Bool
  better x y = not (leq x.score y.score)

  abbrev pub place_hit :
      Option Chunk → F → List (Text × SearchResult F) → List (Text × SearchResult F)
  place_hit none score hits = hits
  place_hit (some c) score hits = put better (parent_key c) (result_of c score) hits

  -- The loop over the fused scores.
  unfoldable pub parent_hits :
      List Chunk → List (ℕ × F) → List (Text × SearchResult F) → List (Text × SearchResult F)
  unfolding put
  parent_hits chunks [] hits = hits
  parent_hits chunks ((index, score) ∷ fused) hits =
      parent_hits chunks fused (place_hit (get_elem? chunks index) score hits)

  module _ (lower : Text → Text) where
    unfoldable pub overview_score : Chunk → F
    unfolding contains
    overview_score c =
        let text = lower (shown c) in
        let gain = λ (b : Bool) (n : ℕ) (x : F). if b then add x (of_ℕ n) else x in
        let marked = λ (ms : List String). any_in (map codes ms) text in
        let base = gain (c.parent_index == 0) 2 (gain (leb c.page 2) 3 (of_ℕ 1)) in
        gain (marked ("conclusion" ∷ "conclusions" ∷ "结论" ∷ "summary" ∷ [])) 3 (
          gain (marked ("introduction" ∷ "related work" ∷ "引言" ∷ "背景" ∷ [])) 2
            (gain (marked ("abstract" ∷ "a b s t r a c t" ∷ "摘要" ∷ [])) 4 base))

    -- The first chunk of each parent, in order.
    unfoldable pub parent_chunks : List Chunk → List (Text × Chunk) → List (Text × Chunk)
    unfolding put
    parent_chunks [] items = items
    parent_chunks (c ∷ chunks) items =
        parent_chunks chunks (put (λ new old. false) (parent_key c) c items)

    unfoldable pub overview_results : List Chunk → ℕ → List (SearchResult F)
    unfolding parent_chunks overview_score sort
    overview_results chunks top_k =
        let firsts = map (λ (item : Text × Chunk). item.1) (parent_chunks chunks []) in
        let scored = sort (λ c d. leq (overview_score d) (overview_score c)) firsts in
        map (λ c. result_of c (overview_score c)) (take top_k scored)

    -- `faiss_search` is the search of the vector index, and `post` the request for a reranking.
    module _ {V : Type 0} (embed : List Text → Result (List V))
        (faiss_search : List V → List V → ℕ → Result (List (F × Label)))
        (post : Text → Text → List Text → ℕ → Result (Response F)) where
      abbrev pub candidates : Store V F → ℕ → ℕ
      candidates s top_k =
          min (or_default settings.retriever_candidate_k (max (top_k * 8) top_k)) (length s.chunks)

      -- What follows the search of the vector index.
      abbrev pub ranked_search :
          Store V F → Text → ℕ → F → Result (List (F × Label)) → Result (List (SearchResult F))
      ranked_search s query top_k min_score (raise e) = raise e
      ranked_search s query top_k min_score (ok rows) =
          let overview =
            if settings.overview_boost && is_document_overview_query lower query
            then overview_results s.chunks top_k
            else [] in
          let bm25_k =
            min (or_default settings.bm25_candidate_k (candidates s top_k)) (length s.chunks) in
          let bm25_hits =
            bm25_search floats lower settings.k1 settings.b settings.bm25_enabled s.bm25 query
              bm25_k in
          let fused =
            sort (λ x y. leq y.1 x.1) (rrf_fuse (vector_hits_of min_score rows) bm25_hits) in
          let parents = map (λ (h : Text × SearchResult F). h.1) (parent_hits s.chunks fused []) in
          let results = sort (λ (x y : SearchResult F). leq y.score x.score) parents in
          ok (
            rerank floats post settings.rerank_enabled settings.rerank_model query
              (merge_search_results overview results top_k) top_k)

      abbrev pub embedded :
          Store V F → Text → ℕ → F → Result (List V) → Result (List (SearchResult F))
      embedded s query top_k min_score (raise e) = raise e
      embedded s query top_k min_score (ok query_vector) =
          ranked_search s query top_k min_score
            (faiss_search s.index query_vector (candidates s top_k))

      unfoldable pub search : Store V F → Text → ℕ → F → Result (List (SearchResult F))
      unfolding rrf_fuse vector_hits_of parent_hits overview_results merge_search_results rerank
          sort bm25_search is_document_overview_query
      search s query top_k min_score =
          if is_empty s.chunks || is_empty s.index
          then ok []
          else embedded s query top_k min_score (embed (query ∷ []))
