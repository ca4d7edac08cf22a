-- ===== src/Retriever/Chunking.antt =====
-- `split_text` of backend/retriever.py and the helpers below it. Sizes are natural numbers.
pub mod Segments
pub mod Merge
pub mod Complete
pub mod Whole
use flowxrag.Prelude.{
  ℕ, zero, suc, ◌+◌, ◌-◌, List, [], ◌∷◌, ◌++◌, Bool, true, false, not, ◌&&◌, ◌||◌, ◌==◌, leb, ltb,
  min, if◌then◌else◌, length, take, drop, is_empty, String, map,
}
use flowxrag.Text.{Text, codes, split, strip, join}
use flowxrag.Retriever.Clean.{clean_text}

-- `text[start:end]`
abbrev pub slice : ℕ → ℕ → Text → Text
slice start end text = take (end - start) (drop start text)

-- The loop of `_hard_split_text`. Each round passes at least one character if `chunk_size` is not
-- 0, so as many rounds as the text is long are enough; at 0 the source does not end.
pub hard_split_from : ℕ → Text → ℕ → ℕ → List Text
hard_split_from zero text chunk_size start = []
hard_split_from (suc fuel) text chunk_size start =
    let end = min (start + chunk_size) (length text) in
    let rest = hard_split_from fuel text chunk_size end in
    if ltb start (length text)
    then slice start end text ∷ (if leb (length text) end then [] else rest)
    else []

unfoldable pub hard_split_text : Text → ℕ → List Text
unfolding hard_split_from
hard_split_text text chunk_size = hard_split_from (length text) text chunk_size 0

-- The loop of `_split_by_separators` over the pieces, with `recurse` for its call of itself: a
-- piece is followed by its separator, unless it is the last.
pub segments_of : (Text → List Text) → ℕ → Text → List Text → List Text
segments_of recurse chunk_size separator [] = []
segments_of recurse chunk_size separator (piece ∷ pieces) =
    let rest = segments_of recurse chunk_size separator pieces in
    let segment = piece ++ (if is_empty pieces then [] else separator) in
    if is_empty piece
    then rest
    else (if ltb chunk_size (length segment) then recurse segment ++ rest else segment ∷ rest)

unfoldable pub split_by_separators : Text → ℕ → List Text → List Text
unfolding hard_split_text segments_of split
split_by_separators text chunk_size [] =
    if leb (length text) chunk_size then text ∷ [] else hard_split_text text chunk_size
split_by_separators text chunk_size (separator ∷ separators) =
    let pieces = split text separator in
    let again = split_by_separators text chunk_size separators in
    let recurse = λ (segment : Text). split_by_separators segment chunk_size separators in
    if leb (length text) chunk_size
    then text ∷ []
    else (if length pieces == 1 then again else segments_of recurse chunk_size separator pieces)

unfoldable pub tail_overlap : Text → ℕ → Text
tail_overlap text overlap =
    if overlap == 0 || leb (length text) overlap
    then []
    else strip (drop (length text - overlap) text)

-- The variables `current` and `current_len` of `_merge_segments`.
pub record Pending : Type 0 where
  pub current : List Text
  pub current_len : ℕ

-- `" ".join(current).strip()`, if it is not empty
unfoldable pub flush : List Text → List Text
flush current =
    let chunk = strip (join (32 ∷ []) current) in if is_empty chunk then [] else chunk ∷ []

-- `current` and `current_len` after a chunk was closed
unfoldable pub restart : Text → ℕ → Pending
unfolding tail_overlap
restart chunk overlap =
    let overlap_text = tail_overlap chunk overlap in
    record {
      current = if is_empty overlap_text then [] else overlap_text ∷ [];
      current_len = length overlap_text;
    }

unfoldable pub push_segment : Pending → Text → Pending
push_segment p segment = record {
  current = p.current ++ segment ∷ [];
  current_len = p.current_len + ((if p.current_len == 0 then 0 else 1) + length segment);
}

-- The test that closes a chunk before `segment` is added.
unfoldable pub overflows : ℕ → Pending → Text → Bool
overflows chunk_size p segment =
    not (is_empty p.current)
    && ltb chunk_size (p.current_len + ((if is_empty p.current then 0 else 1) + length segment))

unfoldable pub merge_from : ℕ → ℕ → Pending → List Text → List Text
unfolding flush restart push_segment overflows
merge_from chunk_size overlap p [] = if is_empty p.current then [] else flush p.current
merge_from chunk_size overlap p (raw ∷ segments) =
    let segment = clean_text raw in
    let full = overflows chunk_size p segment in
    let chunk = strip (join (32 ∷ []) p.current) in
    let base = if full then restart chunk overlap else p in
    let p' = if is_empty segment then p else push_segment base segment in
    let closed = if is_empty segment then [] else (if full then flush p.current else []) in
    closed ++ merge_from chunk_size overlap p' segments

unfoldable pub merge_segments : List Text → ℕ → ℕ → List Text
unfolding merge_from
merge_segments segments chunk_size overlap =
    merge_from chunk_size overlap (record { current = []; current_len = 0 }) segments

abbrev pub recursive_separators : List Text
recursive_separators =
    map codes ("\n\n" ∷ "\n" ∷ "。 " ∷ "。" ∷ "！" ∷ "？" ∷ ". " ∷ "; " ∷ "；" ∷ "，" ∷ ", " ∷ " " ∷ [])

unfoldable pub split_text : Text → ℕ → ℕ → List Text
unfolding split_by_separators merge_segments clean_text
split_text raw chunk_size overlap =
    let text = clean_text raw in
    let segments = split_by_separators text chunk_size recursive_separators in
    if is_empty text then [] else merge_segments segments chunk_size overlap
