-- ===== src/Retriever/Chunking/Segments.antt =====
-- The segments of a text: none is longer than the chunk size, and only separators are lost.
use flowxrag.Prelude.{
  ℕ, zero, suc, ◌+◌, ◌-◌, ◌≤◌, ◌<◌, List, [], ◌∷◌, ◌++◌, Bool, false, ◌≡◌, ◌∙◌, sym, ap, refl,
  arith, ◌==◌, leb, leb→le, ltb, min, if◌then◌else◌, length, length-take, drop, drop-drop,
  drop_of_length-le, take-append-drop, is_empty, keep, keep-append, Bool-cases, inl, inr, All,
  All-append, append-nil,
}
use flowxrag.Text.{Text, split, concat, concat-append}
use flowxrag.Text.Search.Laws.{keep-concat-split}
use flowxrag.Retriever.Chunking.{
  slice, hard_split_from, hard_split_text, segments_of, split_by_separators,
}

-- The text from `start` on is a slice and the text from its end on.
slice-append-drop :
    (start end : ℕ) (text : Text)
    → start ≤ end
    → slice start end text ++ drop end text ≡ drop start text
slice-append-drop start end text h =
    ap (λ n. slice start end text ++ drop n text) (omega arith)
    ∙ (ap (λ u. slice start end text ++ u) (sym (drop-drop (end - start) start text))
        ∙ take-append-drop (end - start) (drop start text))

concat-hard_split_from :
    (fuel : ℕ) (text : Text) (size start : ℕ)
    → 0 < size
    → length text ≤ start + fuel
    → concat (hard_split_from fuel text size start) ≡ drop start text
unfolding hard_split_from
concat-hard_split_from zero text size start h f = sym (drop_of_length-le start text (omega arith))
concat-hard_split_from (suc fuel) text size start h f =
    let end = min (start + size) (length text) in
    elim (Bool-cases (ltb start (length text))) [
      | inl e ↦ rw e (elim (Bool-cases (leb (length text) end)) [
        | inl d ↦ rw d (
            ap (λ u. slice start end text ++ u)
              (sym (drop_of_length-le end text (leb→le (length text) end d)))
            ∙ slice-append-drop start end text (ground arith))
        | inr d ↦ rw d (
            ap (λ u. slice start end text ++ u)
              (concat-hard_split_from fuel text size end h (ground arith))
            ∙ slice-append-drop start end text (ground arith))
      ])
      | inr e ↦ rw e (sym (drop_of_length-le start text (ground arith)))
    ]

-- The hard split loses nothing: the pieces in a row are the text.
pub concat-hard_split_text :
    (text : Text) (size : ℕ) → 0 < size → concat (hard_split_text text size) ≡ text
unfolding hard_split_text
concat-hard_split_text text size h =
    concat-hard_split_from (length text) text size 0 h (omega arith)

abbrev pub Fits : ℕ → Text → Type 0
Fits size s = length s ≤ size

Fits-slice :
    (start size : ℕ) (text : Text) → Fits size (slice start (min (start + size) (length text)) text)
Fits-slice start size text =
    omega (arith, length-take (min (start + size) (length text) - start) (drop start text))

hard_split_from-Fits :
    (fuel : ℕ) (text : Text) (size start : ℕ)
    → All (Fits size) (hard_split_from fuel text size start)
unfolding hard_split_from
hard_split_from-Fits zero text size start = tt
hard_split_from-Fits (suc fuel) text size start =
    let end = min (start + size) (length text) in
    elim (Bool-cases (ltb start (length text))) [
      | inl e ↦ rw e (
        Fits-slice start size text,
        elim (Bool-cases (leb (length text) end)) [
          | inl d ↦ rw d tt
          | inr d ↦ rw d (hard_split_from-Fits fuel text size end)
        ],
      )
      | inr e ↦ rw e tt
    ]

pub hard_split_text-Fits : (text : Text) (size : ℕ) → All (Fits size) (hard_split_text text size)
unfolding hard_split_text
hard_split_text-Fits text size = hard_split_from-Fits (length text) text size 0

module _ (recurse : Text → List Text) (size : ℕ) (separator : Text) where
  segments_of-Fits :
      ((s : Text) → All (Fits size) (recurse s))
      → (pieces : List Text) → All (Fits size) (segments_of recurse size separator pieces)
  unfolding segments_of
  segments_of-Fits h [] = tt
  segments_of-Fits h (piece ∷ pieces) =
      let segment = piece ++ (if is_empty pieces then [] else separator) in
      elim (Bool-cases (is_empty piece)) [
        | inl e ↦ rw e (segments_of-Fits h pieces)
        | inr e ↦ rw e (elim (Bool-cases (ltb size (length segment))) [
          | inl d ↦ rw d (All-append (Fits size) _ _ (h segment) (segments_of-Fits h pieces))
          | inr d ↦ rw d (ground arith, segments_of-Fits h pieces)
        ])
      ]

  module _ (p : ℕ → Bool) (lost : keep p separator ≡ []) where
    keep-segment :
        (piece : Text) (pieces : List Text)
        → keep p (piece ++ (if is_empty pieces then [] else separator)) ≡ keep p piece
    keep-segment piece [] = rw append-nil
    keep-segment piece (q ∷ pieces) = rw (keep-append, lost, append-nil)

    keep-segments_of :
        ((s : Text) → keep p (concat (recurse s)) ≡ keep p s)
        → (pieces : List Text)
        → keep p (concat (segments_of recurse size separator pieces)) ≡ keep p (concat pieces)
    unfolding segments_of
    keep-segments_of h [] = refl
    keep-segments_of h ([] ∷ pieces) = keep-segments_of h pieces
    keep-segments_of h ((c ∷ piece) ∷ pieces) =
        let segment = (c ∷ piece) ++ (if is_empty pieces then [] else separator) in
        let rest = segments_of recurse size separator pieces in
        elim (Bool-cases (ltb size (length segment))) [
          | inl d ↦ rw d (
              cc (
                concat-append (recurse segment) rest,
                keep-append p (concat (recurse segment)) (concat rest),
                h segment,
                keep-segment (c ∷ piece) pieces,
                keep-segments_of h pieces,
                keep-append p (c ∷ piece) (concat pieces),
              ))
          | inr d ↦ rw d (
              cc (
                keep-append p segment (concat rest),
                keep-segment (c ∷ piece) pieces,
                keep-segments_of h pieces,
                keep-append p (c ∷ piece) (concat pieces),
              ))
        ]

-- Every segment fits, whatever the separators.
pub split_by_separators-Fits :
    (text : Text) (size : ℕ) (separators : List Text)
    → All (Fits size) (split_by_separators text size separators)
unfolding split_by_separators
split_by_separators-Fits text size [] = elim (Bool-cases (leb (length text) size)) [
  | inl e ↦ rw e (leb→le _ _ e, tt)
  | inr e ↦ rw e (hard_split_text-Fits text size)
]
split_by_separators-Fits text size (separator ∷ separators) =
    elim (Bool-cases (leb (length text) size)) [
      | inl e ↦ rw e (leb→le _ _ e, tt)
      | inr e ↦ rw e (elim (Bool-cases (length (split text separator) == 1)) [
        | inl d ↦ rw d (split_by_separators-Fits text size separators)
        | inr d ↦ rw d (
            segments_of-Fits (λ segment. split_by_separators segment size separators) size separator
              (λ s. split_by_separators-Fits s size separators) (split text separator))
      ])
    ]

-- A separator is a text, and the test sees none of its characters.
abbrev pub IsSeparator : (ℕ → Bool) → Text → Type 0
IsSeparator p s = (is_empty s ≡ false) × (keep p s ≡ [])

-- Splitting loses nothing but separators.
pub keep-split_by_separators :
    (p : ℕ → Bool) (size : ℕ)
    → 0 < size
    → (text : Text) (separators : List Text) → All (IsSeparator p) separators
    → keep p (concat (split_by_separators text size separators)) ≡ keep p text
unfolding split_by_separators
keep-split_by_separators p size h text [] s = elim (Bool-cases (leb (length text) size)) [
  | inl e ↦ rw e (rw append-nil)
  | inr e ↦ rw e (ap (keep p) (concat-hard_split_text text size h))
]
keep-split_by_separators p size h text ([] ∷ separators) s = absurd (ground (arith, s.0.0))
keep-split_by_separators p size h text ((c ∷ sep) ∷ separators) s =
    elim (Bool-cases (leb (length text) size)) [
      | inl e ↦ rw e (rw append-nil)
      | inr e ↦ rw e (elim (Bool-cases (length (split text (c ∷ sep)) == 1)) [
        | inl d ↦ rw d (keep-split_by_separators p size h text separators s.1)
        | inr d ↦ rw d (
            keep-segments_of (λ segment. split_by_separators segment size separators) size (c ∷ sep)
              p s.0.1 (λ t. keep-split_by_separators p size h t separators s.1)
              (split text (c ∷ sep))
            ∙ keep-concat-split p c sep text s.0.1)
      ])
    ]
