-- ===== src/Retriever/Chunking/Merge.antt =====
-- The chunks of a text: how long one can be, and that the segments are all in them.
use flowxrag.Prelude.{
  ℕ, ◌+◌, ◌-◌, ◌≤◌, List, [], ◌∷◌, true, false, ◌||◌, ◌≡◌, ◌⊎◌, ap, refl, arith, ◌==◌, leb,
  if◌then◌else◌, length, length-append, length-drop, drop, is_empty, Bool-cases, inl, inr, All,
  All-append,
}
use flowxrag.Text.{Text, strip, length-strip-le, join, join-append_one}
use flowxrag.Retriever.Clean.{clean_text}
use flowxrag.Retriever.Clean.Laws.{length-clean_text-le}
use flowxrag.Retriever.Chunking.{
  tail_overlap, Pending, flush, restart, push_segment, overflows, merge_from, merge_segments,
}
use flowxrag.Retriever.Chunking.Segments.{Fits}

length-tail_overlap-le : (text : Text) (overlap : ℕ) → length (tail_overlap text overlap) ≤ overlap
unfolding tail_overlap
length-tail_overlap-le text overlap =
    elim (Bool-cases (overlap == 0 || leb (length text) overlap)) [
      | inl e ↦ rw e (omega arith)
      | inr e ↦ rw e (
          omega (
            arith,
            length-strip-le (drop (length text - overlap) text),
            length-drop (length text - overlap) text,
          ))
    ]

-- `current_len` is the length of the joined parts, and 0 exactly at the start.
record IsExact (p : Pending) : Type 0 where
  measured : p.current_len ≡ length (join (32 ∷ []) p.current)
  started : is_empty p.current ≡ (p.current_len == 0)

restart-IsExact : (chunk : Text) (overlap : ℕ) → IsExact (restart chunk overlap)
unfolding restart
restart-IsExact chunk overlap = exact (tail_overlap chunk overlap)
  where
    exact :
        (t : Text)
        → IsExact (record { current = if is_empty t then [] else t ∷ []; current_len = length t })
    exact [] = record { measured = refl; started = refl }
    exact (c ∷ t) = record { measured = refl; started = ground arith }

pushed :
    (xs : List Text) (n : ℕ) (s : Text)
    → IsExact (record { current = xs; current_len = n })
    → is_empty s ≡ false
    → IsExact (push_segment (record { current = xs; current_len = n }) s)
unfolding push_segment
pushed [] n [] v h = absurd (ground arith)
pushed (x ∷ xs) n [] v h = absurd (ground arith)
pushed [] n (c ∷ s) v h = record { measured = ground arith; started = ground arith }
pushed (x ∷ xs) n (c ∷ s) v h = record {
  measured = ground (
    arith,
    ap length (join-append_one (32 ∷ []) x xs (c ∷ s)),
    length-append (join (32 ∷ []) (x ∷ xs)) (32 ∷ c ∷ s),
  );
  started = ground arith;
}

push_segment-IsExact :
    (p : Pending) (s : Text) → IsExact p → is_empty s ≡ false → IsExact (push_segment p s)
push_segment-IsExact p s v h = pushed p.current p.current_len s v h

-- The length that the loop admits: a chunk that does not overflow, or an overlap and one segment.
abbrev pub limit : ℕ → ℕ → ℕ
limit chunk_size overlap = chunk_size + (overlap + 1)

module _ (size overlap : ℕ) where
  -- What the loop keeps true of its variables.
  record IsBounded (p : Pending) : Type 0 where
    exact : IsExact p
    bounded : p.current_len ≤ limit size overlap

  length-flush : (p : Pending) → IsBounded p → All (Fits (limit size overlap)) (flush p.current)
  unfolding flush
  length-flush p v = elim (Bool-cases (is_empty (strip (join (32 ∷ []) p.current)))) [
    | inl e ↦ rw e tt
    | inr e ↦
        rw e (
          omega (arith, length-strip-le (join (32 ∷ []) p.current), v.exact.measured, v.bounded),
          tt,
        )
  ]

  -- Adding a segment where the loop adds one.
  next : Pending → Text → Pending
  next p segment =
      push_segment
        (if overflows size p segment then restart (strip (join (32 ∷ []) p.current)) overlap else p)
        segment

  next-IsBounded :
      (p : Pending) (segment : Text)
      → IsBounded p
      → is_empty segment ≡ false
      → Fits size segment
      → IsBounded (next p segment)
  unfolding next
  next-IsBounded p segment v h f = elim (Bool-cases (overflows size p segment)) [
    | inl e ↦ rw e (
        let chunk = strip (join (32 ∷ []) p.current) in
        record {
          exact =
              push_segment-IsExact (restart chunk overlap) segment (restart-IsExact chunk overlap)
                h;
          bounded =
              unfold push_segment restart in ground (arith, length-tail_overlap-le chunk overlap);
        })
    | inr e ↦ rw e (record {
      exact = push_segment-IsExact p segment v.exact h;
      bounded = unfold push_segment overflows in ground (arith, v.exact.started);
    })
  ]

  merge_from-Fits :
      (p : Pending) (segments : List Text)
      → IsBounded p
      → All (Fits size) segments
      → All (Fits (limit size overlap)) (merge_from size overlap p segments)
  unfolding merge_from next
  merge_from-Fits p [] v h = elim (Bool-cases (is_empty p.current)) [
    | inl e ↦ rw e tt
    | inr e ↦ rw e (length-flush p v)
  ]
  merge_from-Fits p (raw ∷ segments) v h =
      let segment = clean_text raw in
      elim (Bool-cases (is_empty segment)) [
        | inl e ↦ rw e (merge_from-Fits p segments v h.1)
        | inr e ↦ rw e (
            All-append (Fits (limit size overlap)) _ _
              (closed (Bool-cases (overflows size p segment)))
              (merge_from-Fits (next p segment) segments
                (next-IsBounded p segment v e (omega (arith, length-clean_text-le raw))) h.1))
      ]
    where
      closed :
          (overflows size p (clean_text raw) ≡ true) ⊎ (overflows size p (clean_text raw) ≡ false)
          → All
              (Fits (limit size overlap))
              (if overflows size p (clean_text raw) then flush p.current else [])
      closed (inl e) = rw e (length-flush p v)
      closed (inr e) = rw e tt

-- No chunk is longer than the chunk size, the overlap and the space between them.
pub merge_segments-Fits :
    (segments : List Text) (size overlap : ℕ)
    → All (Fits size) segments
    → All (Fits (limit size overlap)) (merge_segments segments size overlap)
unfolding merge_segments
merge_segments-Fits segments size overlap h =
    merge_from-Fits size overlap (record { current = []; current_len = 0 }) segments
      (record { exact = record { measured = refl; started = refl }; bounded = omega arith }) h
