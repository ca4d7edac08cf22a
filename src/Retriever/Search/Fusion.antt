-- ===== src/Retriever/Search/Fusion.antt =====
-- The fusion of the two rankings against its definition: the sum of the reciprocal ranks.
use flowxrag.Prelude.{
  ℕ, ◌+◌, List, [], ◌∷◌, true, false, Bool-cases, inl, inr, ◌≡◌, refl, ap, ◌∙◌, arith, ◌==◌,
  if◌then◌else◌,
}
use flowxrag.Float.{Floats}
use flowxrag.Retriever.Search.{Settings, add_score, add_ranks, rrf_fuse}

module _ (floats : Floats) (settings : Settings floats.F) where
  open floats use {F, zero_f, of_ℕ, add, div}

  -- The score at an index, 0 where it has none.
  unfoldable pub get_score : ℕ → List (ℕ × F) → F
  get_score index [] = zero_f
  get_score index ((i, x) ∷ scores) =
      let rest = get_score index scores in if i == index then x else rest

  -- A sum, going on from `acc`, of what a ranking gives to an index: at each of its hits, the
  -- weight over the constant plus the rank.
  unfoldable pub rank_sum : F → ℕ → ℕ → List (ℕ × F) → F → F
  rank_sum weight rank index [] acc = acc
  rank_sum weight rank index ((i, x) ∷ hits) acc =
      rank_sum weight (rank + 1) index hits
        (if i == index then add acc (div weight (of_ℕ (settings.rrf_k + rank))) else acc)

  get_score-add_score :
      (index i : ℕ) (w : F) (scores : List (ℕ × F))
      → get_score index (add_score floats settings i w scores)
        ≡ (if i == index then add (get_score index scores) w else get_score index scores)
  unfolding get_score add_score
  get_score-add_score index i w [] = refl
  get_score-add_score index i w ((j, x) ∷ scores) = elim (Bool-cases (j == i)) [
    | inl e ↦ elim (Bool-cases (i == index)) [
      | inl d ↦ rw (e, d, same_number j i index e d) refl
      | inr d ↦ rw (e, d, other_number j i index e d) refl
    ]
    | inr e ↦ elim (Bool-cases (j == index)) [
      | inl d ↦ rw (e, d, differs j i index e d) refl
      | inr d ↦ rw (e, d) (get_score-add_score index i w scores)
    ]
  ]
    where
      same_number : (j i k : ℕ) → j == i ≡ true → i == k ≡ true → j == k ≡ true
      same_number j i k e d = ground arith

      other_number : (j i k : ℕ) → j == i ≡ true → i == k ≡ false → j == k ≡ false
      other_number j i k e d = ground arith

      differs : (j i k : ℕ) → j == i ≡ false → j == k ≡ true → i == k ≡ false
      differs j i k e d = ground arith

  get_score-add_ranks :
      (index rank : ℕ) (w : F) (hits scores : List (ℕ × F))
      → get_score index (add_ranks floats settings w rank hits scores)
        ≡ rank_sum w rank index hits (get_score index scores)
  unfolding add_ranks rank_sum
  get_score-add_ranks index rank w [] scores = refl
  get_score-add_ranks index rank w ((i, x) ∷ hits) scores =
      get_score-add_ranks index (rank + 1) w hits _
      ∙ ap (rank_sum w (rank + 1) index hits)
          (get_score-add_score index i (div w (of_ℕ (settings.rrf_k + rank))) scores)

  -- The fused score of a chunk is the sum of its reciprocal ranks in the two rankings, the vector
  -- ranking first, each with its weight, and 0 if neither has it.
  pub get_score-rrf_fuse :
      (index : ℕ) (vector_hits bm25_hits : List (ℕ × F))
      → get_score index (rrf_fuse floats settings vector_hits bm25_hits)
        ≡ rank_sum settings.bm25_weight 1 index bm25_hits
            (rank_sum settings.vector_weight 1 index vector_hits zero_f)
  unfolding rrf_fuse get_score
  get_score-rrf_fuse index vector_hits bm25_hits =
      get_score-add_ranks index 1 settings.bm25_weight bm25_hits _
      ∙ ap (rank_sum settings.bm25_weight 1 index bm25_hits)
          (get_score-add_ranks index 1 settings.vector_weight vector_hits [])
