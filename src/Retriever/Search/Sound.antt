-- ===== src/Retriever/Search/Sound.antt =====
-- What a search returns stands in the store.
use flowxrag.Prelude.{
  OnSome, OnSome-get_elem?, ℕ, suc, ◌+◌, List, [], ◌∷◌, Bool, true, false, ◌||◌, ◌&&◌, Option, none,
  some, Bool-cases, inl, inr, ◌≡◌, refl, arith, All, All-append, All-take, All-map, All-image, any,
  leb, is_empty, if◌then◌else◌, get_elem?,
}
use flowxrag.Prelude.Sort.{All-sort}
use flowxrag.Dict.Laws.{put-All}
use flowxrag.Text.{Text}
use flowxrag.Float.{Floats}
use flowxrag.Effects.{Result, ok, raise, Yields}
use flowxrag.Graph.{SearchResult}
use flowxrag.Retriever.Ingest.{Chunk}
use flowxrag.Retriever.Tokens.{is_document_overview_query}
use flowxrag.Retriever.Store.{Store, parent_key}
use flowxrag.Retriever.Rerank.{Label, Response, rescored}
use flowxrag.Retriever.Rerank.Laws.{Top, rerank-Top}
use flowxrag.Retriever.Search.{
  shown, result_key, same_key, merge_loop, merge_search_results, Settings, place_hit, parent_hits,
  parent_chunks, overview_results, ranked_search, embedded, search,
}

abbrev pub IsIn : List Chunk → Chunk → Type 0
IsIn chunks c = (i : ℕ) × (get_elem? chunks i ≡ some c)

All-IsIn : (chunks : List Chunk) → All (IsIn chunks) chunks
All-IsIn [] = tt
All-IsIn (c ∷ chunks) = ((0, refl), All-map chunks (λ d h. (suc h.0, h.1)) (All-IsIn chunks))

-- The result shows a chunk of the list: its text, its source and its page.
abbrev pub IsFrom : {F : Type 0} → List Chunk → SearchResult F → Type 0
IsFrom chunks r =
    (c : Chunk) × IsIn chunks c × (r.content ≡ shown c) × (r.source ≡ c.source) × (r.page ≡ c.page)

merge_loop-All :
    {F : Type 0} (P : SearchResult F → Type 0) (seen : List (Text × ℕ × Text)) (count top_k : ℕ)
    (results : List (SearchResult F))
    → All P results
    → All P (merge_loop seen count top_k results)
unfolding merge_loop
merge_loop-All P seen count top_k [] h = tt
merge_loop-All P seen count top_k (r ∷ results) h =
    elim (Bool-cases (any (same_key (result_key r)) seen)) [
      | inl e ↦ rw e (merge_loop-All P seen count top_k results h.1)
      | inr e ↦ elim (Bool-cases (leb top_k (count + 1))) [
        | inl d ↦ rw (e, d) (h.0, tt)
        | inr d ↦
            rw (e, d) (h.0, merge_loop-All P (result_key r ∷ seen) (count + 1) top_k results h.1)
      ]
    ]

module _ (floats : Floats) (settings : Settings floats.F) where
  abbrev IsHit : List Chunk → Text × SearchResult floats.F → Type 0
  IsHit chunks hit = IsFrom chunks hit.1

  place_hit-All :
      (chunks : List Chunk) (o : Option Chunk) (score : floats.F)
      (hits : List (Text × SearchResult floats.F))
      → OnSome (IsIn chunks) o
      → All (IsHit chunks) hits
      → All (IsHit chunks) (place_hit floats settings o score hits)
  place_hit-All chunks none score hits p h = h
  place_hit-All chunks (some c) score hits p h =
      put-All (IsFrom chunks) _ _ _ hits (c, p, refl, refl, refl) h

  parent_hits-All :
      (chunks : List Chunk) (fused : List (ℕ × floats.F))
      (hits : List (Text × SearchResult floats.F))
      → All (IsHit chunks) hits
      → All (IsHit chunks) (parent_hits floats settings chunks fused hits)
  unfolding parent_hits
  parent_hits-All chunks [] hits h = h
  parent_hits-All chunks ((index, score) ∷ fused) hits h = parent_hits-All chunks fused _ (
      place_hit-All chunks (get_elem? chunks index) score hits
        (OnSome-get_elem? (IsIn chunks) chunks index (All-IsIn chunks)) h)

  module _ (lower : Text → Text) where
    parent_chunks-All :
        (P : Chunk → Type 0) (chunks : List Chunk) (items : List (Text × Chunk))
        → All P chunks
        → All (λ item. P item.1) items
        → All (λ item. P item.1) (parent_chunks floats settings lower chunks items)
    unfolding parent_chunks
    parent_chunks-All P [] items h k = k
    parent_chunks-All P (c ∷ chunks) items h k =
        parent_chunks-All P chunks _ h.1 (put-All P (λ new old. false) (parent_key c) c items h.0 k)

    overview_results-All :
        (chunks : List Chunk) (top_k : ℕ)
        → All (IsFrom chunks) (overview_results floats settings lower chunks top_k)
    unfolding overview_results
    overview_results-All chunks top_k = All-image (IsFrom chunks) _ _ (
        All-map _ (λ c h. (c, h, refl, refl, refl))
          (All-take (IsIn chunks) top_k _ (
            All-sort _ (IsIn chunks) _ (
              All-image (IsIn chunks) _ _
                (parent_chunks-All (IsIn chunks) chunks [] (All-IsIn chunks) tt)))))

    module _ {V : Type 0} (embed : List Text → Result (List V))
        (faiss_search : List V → List V → ℕ → Result (List (floats.F × Label)))
        (post : Text → Text → List Text → ℕ → Result (Response floats.F)) where
      rescored-IsFrom :
          (chunks : List Chunk) (r : SearchResult floats.F) (x : Option floats.F)
          → IsFrom chunks r
          → IsFrom chunks (rescored floats post r x)
      unfolding rescored
      rescored-IsFrom chunks r x h = h

      merged-All :
          (b : Bool) (chunks : List Chunk) (top_k : ℕ) (results : List (SearchResult floats.F))
          → All (IsFrom chunks) results
          → All (IsFrom chunks) (
              merge_search_results
                (if b then overview_results floats settings lower chunks top_k else [])
                results
                top_k)
      unfolding merge_search_results
      merged-All true chunks top_k results h =
          merge_loop-All (IsFrom chunks) [] 0 top_k _
            (All-append (IsFrom chunks) _ results (overview_results-All chunks top_k) h)
      merged-All false chunks top_k results h = merge_loop-All (IsFrom chunks) [] 0 top_k results h

      ranked_search-Top :
          (s : Store V floats.F) (query : Text) (top_k : ℕ) (min_score : floats.F)
          (rows : Result (List (floats.F × Label)))
          → Yields (Top (IsFrom s.chunks) top_k) (
              ranked_search floats settings lower embed faiss_search post s query top_k min_score
                rows)
      ranked_search-Top s query top_k min_score (raise e) = tt
      ranked_search-Top s query top_k min_score (ok rows) =
          rerank-Top floats post (IsFrom s.chunks) (rescored-IsFrom s.chunks)
            settings.rerank_enabled settings.rerank_model query _ top_k
            (merged-All (settings.overview_boost && is_document_overview_query lower query) s.chunks
              top_k _
              (All-sort _ (IsFrom s.chunks) _
                (All-image (IsFrom s.chunks) _ _ (parent_hits-All s.chunks _ [] tt))))

      embedded-Top :
          (s : Store V floats.F) (query : Text) (top_k : ℕ) (min_score : floats.F)
          (vector : Result (List V))
          → Yields (Top (IsFrom s.chunks) top_k) (
              embedded floats settings lower embed faiss_search post s query top_k min_score vector)
      embedded-Top s query top_k min_score (raise e) = tt
      embedded-Top s query top_k min_score (ok v) = ranked_search-Top s query top_k min_score _

      -- Every result of a search that returns is the text, the source and the page of a chunk of
      -- the store, and there are at most `top_k`, whatever the vector index and the rerank endpoint
      -- answer.
      pub search-Top :
          (s : Store V floats.F) (query : Text) (top_k : ℕ) (min_score : floats.F)
          → Yields
              (Top (IsFrom s.chunks) top_k)
              (search floats settings lower embed faiss_search post s query top_k min_score)
      unfolding search
      search-Top s query top_k min_score =
          elim (Bool-cases (is_empty s.chunks || is_empty s.index)) [
            | inl e ↦ rw e (tt, omega arith)
            | inr e ↦ rw e (embedded-Top s query top_k min_score (embed (query ∷ [])))
          ]
