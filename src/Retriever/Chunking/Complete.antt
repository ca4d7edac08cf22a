-- ===== src/Retriever/Chunking/Complete.antt =====
-- Every solid character of the segments is in the chunks, in order.
use flowxrag.Prelude.{
  ℕ, List, [], ◌∷◌, ◌++◌, Bool, true, ◌≡◌, ◌∙◌, sym, ap, refl, arith, if◌then◌else◌, is_empty, keep,
  keep-append, Bool-cases, inl, inr, append-nil, append_assoc, subst,
}
use flowxrag.Text.{Text, strip, join, concat, concat-append, keep-join}
use flowxrag.Text.Trim.Laws.{keep-strip}
use flowxrag.Retriever.Clean.{clean_text}
use flowxrag.Retriever.Clean.Laws.{keep-clean_text, is_solid, spaces_rejected, rejects}
use flowxrag.Retriever.Chunking.{
  Pending, flush, restart, push_segment, overflows, merge_from, merge_segments,
}

-- `Embeds xs ys`: the characters of `xs` stand in `ys` in this order, perhaps with others between.
pub data Embeds : Text → Text → Type 0 where
  none : Embeds [] []
  same : {xs ys : Text} (c : ℕ) → Embeds xs ys → Embeds (c ∷ xs) (c ∷ ys)
  more : {xs ys : Text} (c : ℕ) → Embeds xs ys → Embeds xs (c ∷ ys)

pub Embeds-refl : (xs : Text) → Embeds xs xs
Embeds-refl [] = none
Embeds-refl (c ∷ xs) = same c (Embeds-refl xs)

pub Embeds-append : {a b c d : Text} → Embeds a b → Embeds c d → Embeds (a ++ c) (b ++ d)
Embeds-append none k = k
Embeds-append (same c h) k = same c (Embeds-append h k)
Embeds-append (more c h) k = more c (Embeds-append h k)

pub Embeds-trans : {a b c : Text} → Embeds a b → Embeds b c → Embeds a c
Embeds-trans h none = h
Embeds-trans h (more d k) = more d (Embeds-trans h k)
Embeds-trans (same _ h) (same d k) = same d (Embeds-trans h k)
Embeds-trans (more _ h) (same d k) = more d (Embeds-trans h k)

Embeds-tail : (c : ℕ) {xs ys : Text} → Embeds (c ∷ xs) ys → Embeds xs ys
Embeds-tail c (same _ h) = more c h
Embeds-tail c (more d h) = more d (Embeds-tail c h)

Embeds-suffix : (a b : Text) {ys : Text} → Embeds (a ++ b) ys → Embeds b ys
Embeds-suffix [] b h = h
Embeds-suffix (c ∷ a) b h = Embeds-suffix a b (Embeds-tail c h)

module _ (p : ℕ → Bool) (solid : (c : ℕ) → p c ≡ true → is_solid c ≡ true) where
  -- What the test keeps of a list of texts.
  abbrev kept : List Text → Text
  kept xs = keep p (concat xs)

  kept-append : (xs ys : List Text) → kept (xs ++ ys) ≡ kept xs ++ kept ys
  kept-append xs ys = ap (keep p) (concat-append xs ys) ∙ keep-append p (concat xs) (concat ys)

  kept_one : (x : Text) → kept (x ∷ []) ≡ keep p x
  kept_one x = rw append-nil

  space_lost : keep p (32 ∷ []) ≡ []
  space_lost = rw (rejects p solid 32 (unfold is_solid in refl))

  -- A chunk counts for the text that it was made of, also where it is empty and dropped.
  kept_chunk : (u : Text) → kept (if is_empty u then [] else u ∷ []) ≡ keep p u
  kept_chunk [] = refl
  kept_chunk (c ∷ u) = rw append-nil

  kept-flush : (current : List Text) → kept (flush current) ≡ kept current
  unfolding flush
  kept-flush current =
      kept_chunk (strip (join (32 ∷ []) current))
      ∙ (keep-strip p (spaces_rejected p solid) (join (32 ∷ []) current)
          ∙ keep-join p (32 ∷ []) current space_lost)

  kept-push_segment :
      (q : Pending) (s : Text) → kept (push_segment q s).current ≡ kept q.current ++ keep p s
  unfolding push_segment
  kept-push_segment q s =
      kept-append q.current (s ∷ []) ∙ ap (λ u. kept q.current ++ u) (kept_one s)

  kept-cons :
      (raw : Text) (segments : List Text)
      → kept (raw ∷ segments) ≡ keep p (clean_text raw) ++ kept segments
  kept-cons raw segments =
      keep-append p raw (concat segments)
      ∙ ap (λ u. u ++ keep p (concat segments)) (sym (keep-clean_text p solid raw))

  kept-closing : (xs : List Text) → kept (if is_empty xs then [] else flush xs) ≡ kept xs
  kept-closing [] = refl
  kept-closing (x ∷ xs) = kept-flush (x ∷ xs)

  kept_empty : (t : Text) → is_empty t ≡ true → keep p t ≡ []
  kept_empty [] h = refl
  kept_empty (c ∷ t) h = ground arith

  reassoc :
      (r : Pending) (raw : Text) (segments : List Text) {ys : Text}
      → Embeds (kept (push_segment r (clean_text raw)).current ++ kept segments) ys
      → Embeds (kept r.current ++ (keep p (clean_text raw) ++ kept segments)) ys
  reassoc r raw segments {ys} =
      subst (λ u. Embeds u ys)
        (ap (λ u. u ++ kept segments) (kept-push_segment r (clean_text raw))
          ∙ append_assoc (kept r.current) (keep p (clean_text raw)) (kept segments))

  after_flush :
      (current chunks : List Text) (a b : Text)
      → Embeds (a ++ b) (kept chunks)
      → Embeds (kept current ++ b) (kept (flush current ++ chunks))
  after_flush current chunks a b h =
      rw (kept-append (flush current) chunks, kept-flush current)
        (Embeds-append (Embeds-refl (kept current)) (Embeds-suffix a b h))

  -- The pending parts and the segments to come are in the chunks that the loop still makes.
  merge_from-Embeds :
      (size overlap : ℕ) (q : Pending) (segments : List Text)
      → Embeds (kept q.current ++ kept segments) (kept (merge_from size overlap q segments))
  unfolding merge_from
  merge_from-Embeds size overlap q [] =
      rw (kept-closing q.current, append-nil (kept q.current)) (Embeds-refl _)
  merge_from-Embeds size overlap q (raw ∷ segments) =
      let segment = clean_text raw in
      let fresh = restart (strip (join (32 ∷ []) q.current)) overlap in
      rw (kept-cons raw segments) (elim (Bool-cases (is_empty segment)) [
        | inl e ↦ rw (e, kept_empty segment e) (merge_from-Embeds size overlap q segments)
        | inr e ↦ rw e (elim (Bool-cases (overflows size q segment)) [
          | inl d ↦ rw d (
              after_flush q.current _ (kept fresh.current) (keep p segment ++ kept segments) (
                reassoc fresh raw segments
                  (merge_from-Embeds size overlap (push_segment fresh segment) segments)))
          | inr d ↦ rw d (
              reassoc q raw segments
                (merge_from-Embeds size overlap (push_segment q segment) segments))
        ])
      ])

  -- Merging loses no solid character of the segments.
  pub merge_segments-Embeds :
      (segments : List Text) (size overlap : ℕ)
      → Embeds (keep p (concat segments)) (keep p (concat (merge_segments segments size overlap)))
  unfolding merge_segments
  merge_segments-Embeds segments size overlap =
      merge_from-Embeds size overlap (record { current = []; current_len = 0 }) segments
