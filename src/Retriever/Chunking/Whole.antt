-- ===== src/Retriever/Chunking/Whole.antt =====
-- `split_text` as a whole: the length of its chunks, and what of the text they hold.
use flowxrag.Prelude.{
  ℕ, ◌+◌, ◌<◌, [], ◌∷◌, Bool, true, false, not, ◌&&◌, ◌≡◌, refl, arith, ◌==◌, is_empty, keep, any,
  Bool-cases, inl, inr, All,
}
use flowxrag.Text.{Text, concat}
use flowxrag.Retriever.Clean.{clean_text}
use flowxrag.Retriever.Clean.Laws.{keep-clean_text, is_solid}
use flowxrag.Retriever.Chunking.{split_by_separators, split_text, recursive_separators}
use flowxrag.Retriever.Chunking.Segments.{
  Fits, split_by_separators-Fits, IsSeparator, keep-split_by_separators,
}
use flowxrag.Retriever.Chunking.Merge.{merge_segments-Fits}
use flowxrag.Retriever.Chunking.Complete.{Embeds, none, merge_segments-Embeds}

-- A solid character that is part of no separator.
unfoldable pub is_word : ℕ → Bool
unfolding is_solid
is_word c = is_solid c && not (any (λ s. any (λ d. d == c) s) recursive_separators)

pub word-solid : (c : ℕ) → is_word c ≡ true → is_solid c ≡ true
word-solid c h = unfold is_word in both (is_solid c) _ h
  where
    both : (a b : Bool) → a && b ≡ true → a ≡ true
    both true b h = refl
    both false b h = h

word_separators : All (IsSeparator is_word) recursive_separators
unfolding is_word
word_separators = (
  (refl, refl),
  (
    (refl, refl),
    (
      (refl, refl),
      (
        (refl, refl),
        (
          (refl, refl),
          (
            (refl, refl),
            (
              (refl, refl),
              ((refl, refl), ((refl, refl), ((refl, refl), ((refl, refl), ((refl, refl), tt))))),
            ),
          ),
        ),
      ),
    ),
  ),
)

-- A chunk is at most as long as the chunk size, the overlap and one space together.
pub split_text-Fits :
    (text : Text) (chunk_size overlap : ℕ)
    → All (Fits (chunk_size + (overlap + 1))) (split_text text chunk_size overlap)
unfolding split_text
split_text-Fits text chunk_size overlap = elim (Bool-cases (is_empty (clean_text text))) [
  | inl e ↦ rw e tt
  | inr e ↦ rw e (
      merge_segments-Fits _ chunk_size overlap
        (split_by_separators-Fits (clean_text text) chunk_size recursive_separators))
]

-- Every word character of the text is in the chunks, in the order of the text: splitting loses
-- white space, hyphens and separators at most.
pub split_text-Embeds :
    (text : Text) (chunk_size overlap : ℕ)
    → 0 < chunk_size
    → Embeds (keep is_word text) (keep is_word (concat (split_text text chunk_size overlap)))
unfolding split_text
split_text-Embeds text chunk_size overlap h =
    rw (← keep-clean_text is_word word-solid text) (elim (Bool-cases (is_empty (clean_text text))) [
      | inl e ↦ rw e (at_nothing (clean_text text) e)
      | inr e ↦ rw e (
          rw
            (← keep-split_by_separators is_word chunk_size h (clean_text text) recursive_separators
              word_separators)
            (merge_segments-Embeds is_word word-solid
              (split_by_separators (clean_text text) chunk_size recursive_separators) chunk_size
              overlap))
    ])
  where
    at_nothing : (t : Text) → is_empty t ≡ true → Embeds (keep is_word t) []
    at_nothing [] e = none
    at_nothing (c ∷ t) e = absurd (ground arith)
