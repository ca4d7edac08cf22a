-- ===== src/Retriever/Bm25.antt =====
-- `BM25Index` of backend/retriever.py: term counts per chunk, and the score of a query. A Python
-- `Counter` or `dict` is the list of its items, in the order of their insertion.
use flowxrag.Prelude.{
  ℕ, ◌+◌, ◌-◌, max, List, [], ◌∷◌, Bool, not, ◌||◌, ◌==◌, if◌then◌else◌, length, take, is_empty,
  map,
}
use flowxrag.Prelude.Sort.{sort}
use flowxrag.Text.{Text, same}
use flowxrag.Float.{Floats}
use flowxrag.Retriever.Ingest.{Chunk}
use flowxrag.Retriever.Tokens.{bm25_tokenize}

abbrev pub Counter : Type 0
Counter = List (Text × ℕ)

-- `counter[term] += 1`
unfoldable pub count_one : Text → Counter → Counter
count_one term [] = (term, 1) ∷ []
count_one term ((t, n) ∷ counter) =
    let rest = count_one term counter in if same t term then (t, n + 1) ∷ counter else (t, n) ∷ rest

unfoldable pub count_all : List Text → Counter → Counter
unfolding count_one
count_all [] counter = counter
count_all (term ∷ terms) counter = count_all terms (count_one term counter)

unfoldable pub get_count : Text → Counter → ℕ
get_count term [] = 0
get_count term ((t, n) ∷ counter) =
    let rest = get_count term counter in if same t term then n else rest

abbrev pub keys : {A : Type 0} → List (Text × A) → List Text
keys = map (λ item. item.0)

pub record Bm25 (F : Type 0) : Type 0 where
  pub doc_count : ℕ
  pub avg_doc_len : F
  pub doc_lens : List ℕ
  pub term_freqs : List Counter
  pub idf : List (Text × F)

abbrev sum : List ℕ → ℕ
sum [] = 0
sum (n ∷ ns) = n + sum ns

-- `lower` is `str.lower`; `k1` and `b` are the constants of the environment.
module _ (floats : Floats) (lower : Text → Text) where
  open floats use {F, zero_f, of_ℕ, add, sub, mul, div, log, leq}

  -- The terms of each chunk, each counted once for the chunk. `doc_count` is at least `freq`.
  unfoldable pub document_frequency : List Counter → Counter → Counter
  unfolding count_all
  document_frequency [] counter = counter
  document_frequency (terms ∷ term_freqs) counter =
      document_frequency term_freqs (count_all (keys terms) counter)

  unfoldable pub idf_of : ℕ → ℕ → F
  idf_of doc_count freq =
      let half = div (of_ℕ 1) (of_ℕ 2) in
      log (add (of_ℕ 1) (div (add (of_ℕ (doc_count - freq)) half) (add (of_ℕ freq) half)))

  unfoldable pub rebuild : List Chunk → Bm25 F
  unfolding count_all document_frequency idf_of
  rebuild chunks =
      let tokens = map (λ (c : Chunk). bm25_tokenize lower c.content) chunks in
      let term_freqs = map (λ (ts : List Text). count_all ts []) tokens in
      let doc_lens = map (λ (ts : List Text). length ts) tokens in
      let doc_count = length chunks in
      record {
        doc_count = doc_count;
        avg_doc_len =
            if is_empty chunks then zero_f else div (of_ℕ (sum doc_lens)) (of_ℕ (max doc_count 1));
        doc_lens = doc_lens;
        term_freqs = term_freqs;
        idf =
            map (λ (item : Text × ℕ). (item.0, idf_of doc_count item.1))
              (document_frequency term_freqs []);
      }

  unfoldable pub get_idf : Text → List (Text × F) → F
  get_idf term [] = zero_f
  get_idf term ((t, x) ∷ idf) = let rest = get_idf term idf in if same t term then x else rest

  module _ (k1 b : F) where
    -- The loop over the terms of the query.
    unfoldable pub score_terms : List (Text × F) → Counter → F → Counter → F → F
    unfolding get_count get_idf
    score_terms idf term_frequency length_norm [] score = score
    score_terms idf term_frequency length_norm ((term, query_weight) ∷ query_counts) score =
        let freq = get_count term term_frequency in
        let weight = mul (of_ℕ query_weight) (get_idf term idf) in
        let gain =
          div (mul weight (mul (of_ℕ freq) (add k1 (of_ℕ 1)))) (add (of_ℕ freq) length_norm) in
        score_terms idf term_frequency length_norm query_counts
          (if freq == 0 then score else add score gain)

    -- The loop over the chunks; `term_freqs` and `doc_lens` are equally long.
    unfoldable pub score_docs : Bm25 F → Counter → ℕ → List Counter → List ℕ → List (ℕ × F)
    unfolding score_terms
    score_docs index query_counts doc_index (term_frequency ∷ term_freqs) (n ∷ doc_lens) =
        let doc_len = if n == 0 then 1 else n in
        let length_norm =
          mul k1 (add (sub (of_ℕ 1) b) (div (mul b (of_ℕ doc_len)) index.avg_doc_len)) in
        let score = score_terms index.idf term_frequency length_norm query_counts zero_f in
        let rest = score_docs index query_counts (doc_index + 1) term_freqs doc_lens in
        if leq score zero_f then rest else (doc_index, score) ∷ rest
    score_docs index query_counts doc_index _ _ = []

    unfoldable pub bm25_search : Bool → Bm25 F → Text → ℕ → List (ℕ × F)
    unfolding score_docs count_all sort
    bm25_search enabled index query top_k =
        let query_terms = bm25_tokenize lower query in
        let scored =
          score_docs index (count_all query_terms []) 0 index.term_freqs index.doc_lens in
        if not enabled || (is_empty index.term_freqs || top_k == 0)
        then []
        else (if is_empty query_terms || leq index.avg_doc_len zero_f
            then []
            else take top_k (sort (λ x y. leq y.1 x.1) scored))
