-- ===== src/Retriever/Store/Removal.antt =====
-- `delete_source` of backend/retriever.py: which chunks it removes.
use flowxrag.Prelude.{
  ℕ, ◌+◌, ◌-◌, List, [], ◌∷◌, Option, ◌≡◌, refl, sym, ap, subst, true, false, inl, inr, ◌⊎◌, arith,
  Bool-cases, map, is_empty, length, if◌then◌else◌,
}
use flowxrag.Text.{Text, same, same-eq, strip, distinct}
use flowxrag.Float.{Floats}
use flowxrag.Effects.{Result, ok, raise, Result-cases}
use flowxrag.Retriever.Ingest.{Chunk, Sizes}
use flowxrag.Retriever.Store.{
  Store, DeleteReport, no_source, deletion, parent_key, rebuild_index, set_chunks, delete_source,
  deleting, others,
}
use flowxrag.Retriever.Store.Sources.{of_source, of_source-others}

of_other :
    (source other : Text)
    → same source other ≡ false
    → (cs : List Chunk) → of_source other (others source cs) ≡ of_source other cs
of_other source other h [] = refl
of_other source other h (c ∷ cs) = elim (Bool-cases (same c.source source)) [
  | inl e ↦ rw (e, away e) (of_other source other h cs)
  | inr e ↦
      rw e
        (ap (λ rest. if same c.source other then c ∷ rest else rest) (of_other source other h cs))
]
  where
    away : same c.source source ≡ true → same c.source other ≡ false
    away e = subst (λ t. same t other ≡ false) (sym (same-eq c.source source e)) h

both_lengths :
    (source : Text) (cs : List Chunk)
    → length (others source cs) + length (of_source source cs) ≡ length cs
both_lengths source [] = refl
both_lengths source (c ∷ cs) = ground (arith, both_lengths source cs)

removed_count :
    (source : Text) (cs : List Chunk)
    → length cs - length (others source cs) ≡ length (of_source source cs)
removed_count source cs = omega (arith, both_lengths source cs)

module _ (floats : Floats) (lower : Text → Text) (sizes : Sizes) (V : Type 0) where
  abbrev State : Type 0
  State = Store V floats.F

  -- The chunks `after` are those `before` without the ones of the source: none of it is left, and of
  -- any other source all are, in their order.
  abbrev pub IsWithout : Text → List Chunk → List Chunk → Type 0
  IsWithout source before after =
      (of_source source after ≡ [])
      × ((other : Text)
          → same source other ≡ false
          → of_source other after ≡ of_source other before)

  -- What a deletion of the source leaves.
  abbrev pub Leaves : Text → State → Result DeleteReport × State → Type 0
  Leaves source before (ok (no_source name), s) = (is_empty source ≡ true) × (s ≡ before)
  Leaves source before (ok (deletion d), s) =
      (is_empty source ≡ false)
      × IsWithout source before.chunks s.chunks
      × (d.chunks_removed ≡ length (of_source source before.chunks))
      × (d.chunks ≡ length s.chunks)
  Leaves source before (raise e, s) =
      (is_empty source ≡ false)
      × ((s.chunks ≡ before.chunks) ⊎ IsWithout source before.chunks s.chunks)

  -- The report of a deletion, of the store at its end.
  abbrev deleted : Text → List Text → State → List Chunk → State → DeleteReport
  deleted source names before left s = deletion record {
    source = source;
    chunks_removed = length before.chunks - length left;
    uploads_deleted = length names;
    deleted_uploads = names;
    chunks = length s.chunks;
    parent_chunks = length (distinct (map parent_key s.chunks));
  }

  others-IsWithout : (source : Text) (cs : List Chunk) → IsWithout source cs (others source cs)
  others-IsWithout source cs = (of_source-others source cs, λ other h. of_other source other h cs)

  set_chunks-Leaves :
      (embed : List Text → Result (List V)) (fresh : ℕ → Text) (source : Text) (names : List Text)
      (before s : State)
      → is_empty source ≡ false
      → Leaves source before (
          set_chunks floats lower sizes embed fresh
            (others source before.chunks)
            (deleted source names before (others source before.chunks))
            s)
  unfolding set_chunks rebuild_index
  set_chunks-Leaves embed fresh source names before s solid =
      built (others source before.chunks) (others-IsWithout source before.chunks)
        (removed_count source before.chunks)
    where
      built :
          (cs : List Chunk)
          → IsWithout source before.chunks cs
          → length before.chunks - length cs ≡ length (of_source source before.chunks)
          → Leaves source before
              (set_chunks floats lower sizes embed fresh cs (deleted source names before cs) s)
      built [] h n = (solid, h, n, refl)
      built (c ∷ cs) h n = elim (Result-cases (embed (map (λ (x : Chunk). x.content) (c ∷ cs)))) [
        | inl (vs, e) ↦ rw e (solid, h, n, refl)
        | inr (m, e) ↦ rw e (solid, inr h)
      ]

  deleting-Leaves :
      (embed : List Text → Result (List V)) (fresh : ℕ → Text) (source : Text)
      (files : Result (List Text) × List Text) (s : State)
      → is_empty source ≡ false
      → Leaves source s (deleting floats lower sizes embed fresh source files s)
  deleting-Leaves embed fresh source (ok names, uploads) s solid =
      set_chunks-Leaves embed fresh source names s (record s { uploads = uploads }) solid
  deleting-Leaves embed fresh source (raise e, uploads) s solid = (solid, inl refl)

  -- What `delete_source` leaves, for any name, whatever the files and the embedding backend do. For
  -- a blank name the store is as it was. Where it returns otherwise, no chunk of the source is left,
  -- the chunks of every other source all are and in their order, and the report counts the chunks
  -- that were of the source and those left. Where it raises, the chunks are either all there or
  -- those of the source, and no others, are gone.
  pub delete_source-Leaves :
      (embed : List Text → Result (List V)) (fresh : ℕ → Text) (resolve : Text → Option Text)
      (source : Text) (s : State)
      → Leaves (strip source) s (delete_source floats lower sizes embed fresh resolve source s)
  unfolding delete_source
  delete_source-Leaves embed fresh resolve source s = elim (Bool-cases (is_empty (strip source))) [
    | inl e ↦ rw e (e, refl)
    | inr e ↦ rw e (deleting-Leaves embed fresh (strip source) _ s e)
  ]
