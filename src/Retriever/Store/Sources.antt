-- ===== src/Retriever/Store/Sources.antt =====
-- One source of the store: replacing it.
use flowxrag.Prelude.{
  ℕ, ◌+◌, List, [], ◌∷◌, ◌++◌, ◌≡◌, refl, sym, ap, ◌∙◌, subst, true, inl, inr, Bool-cases, map,
  keep, keep-append, append-nil,
}
use flowxrag.Text.{Text, same, same_refl}
use flowxrag.Float.{Floats}
use flowxrag.Effects.{Result, ok, raise, Result-cases}
use flowxrag.Retriever.Ingest.{Chunk, Sizes, chunks_from_reader}
use flowxrag.Retriever.Ingest.Complete.{Numbered, chunks_from_reader-Numbered}
use flowxrag.Retriever.Bm25.{rebuild}
use flowxrag.Retriever.Saved.{asdict}
use flowxrag.Retriever.Store.{Store, Pages, rebuild_index, set_chunks, upsert_pdf, others}

-- The chunks of one source.
abbrev pub of_source : Text → List Chunk → List Chunk
of_source source_name = keep (λ c. same c.source source_name)

own : (source : Text) (c : Chunk) → c.source ≡ source → same c.source source ≡ true
own source c e = subst (λ t. same t source ≡ true) (sym e) (same_refl source)

others-Numbered :
    (source : Text) (cs : List Chunk) (n : ℕ) → Numbered source n cs → others source cs ≡ []
others-Numbered source [] n h = refl
others-Numbered source (c ∷ cs) n (e, _, h) =
    rw (own source c e) (others-Numbered source cs (n + 1) h)

of_source-Numbered :
    (source : Text) (cs : List Chunk) (n : ℕ) → Numbered source n cs → of_source source cs ≡ cs
of_source-Numbered source [] n h = refl
of_source-Numbered source (c ∷ cs) n (e, _, h) =
    rw (own source c e) (ap (◌∷◌ c) (of_source-Numbered source cs (n + 1) h))

others-others :
    (source : Text) (cs : List Chunk) → others source (others source cs) ≡ others source cs
others-others source [] = refl
others-others source (c ∷ cs) = elim (Bool-cases (same c.source source)) [
  | inl e ↦ rw e (others-others source cs)
  | inr e ↦ rw (e, e) (ap (◌∷◌ c) (others-others source cs))
]

pub of_source-others : (source : Text) (cs : List Chunk) → of_source source (others source cs) ≡ []
of_source-others source [] = refl
of_source-others source (c ∷ cs) = elim (Bool-cases (same c.source source)) [
  | inl e ↦ rw e (of_source-others source cs)
  | inr e ↦ rw (e, e) (of_source-others source cs)
]

module _ (floats : Floats) (lower : Text → Text) (sizes : Sizes) (V : Type 0) where
  abbrev State : Type 0
  State = Store V floats.F

  module _ (embed : List Text → Result (List V)) (fresh : ℕ → Text) where
    set_chunks-chunks :
        {A : Type 0} (chunks : List Chunk) (report : State → A) (s : State)
        → (set_chunks floats lower sizes embed fresh chunks report s).1.chunks ≡ chunks
    unfolding set_chunks rebuild_index
    set_chunks-chunks [] report s = refl
    set_chunks-chunks (c ∷ chunks) report s =
        elim (Result-cases (embed (map (λ (x : Chunk). x.content) (c ∷ chunks)))) [
          | inl (vs, e) ↦ rw e refl
          | inr (m, e) ↦ rw e refl
        ]

    upsert_pdf-chunks :
        (pages : Pages) (source : Text) (s : State)
        → (upsert_pdf floats lower sizes embed fresh (ok pages) source s).1.chunks
          ≡ others source s.chunks ++ chunks_from_reader sizes fresh source pages
    unfolding upsert_pdf
    upsert_pdf-chunks pages source s = set_chunks-chunks _ _ s

    -- Whether or not the embedding raises, replacing a source leaves the chunks of every other
    -- source as they were and in their order, and of this source exactly the new chunks.
    pub upsert_pdf-replaces :
        (pages : Pages) (source : Text) (s : State)
        → (others source (upsert_pdf floats lower sizes embed fresh (ok pages) source s).1.chunks
            ≡ others source s.chunks)
          × (of_source source
                (upsert_pdf floats lower sizes embed fresh (ok pages) source s).1.chunks
              ≡ chunks_from_reader sizes fresh source pages)
    upsert_pdf-replaces pages source s =
        let new_chunks = chunks_from_reader sizes fresh source pages in
        let h = chunks_from_reader-Numbered sizes fresh source pages in
        rw (upsert_pdf-chunks pages source s) (
          keep-append _ (others source s.chunks) new_chunks
              ∙ (rw
                  (others-others source s.chunks, others-Numbered source new_chunks 0 h, append-nil)
                  refl),
          keep-append _ (others source s.chunks) new_chunks
              ∙ (rw (of_source-others source s.chunks, of_source-Numbered source new_chunks 0 h)
                  refl),
        )

  module _ (embed : List Text → Result (List V)) (fresh : ℕ → Text) where
    set_chunks-uploads :
        {A : Type 0} (chunks : List Chunk) (report : State → A) (s : State)
        → (set_chunks floats lower sizes embed fresh chunks report s).1.uploads ≡ s.uploads
    unfolding set_chunks rebuild_index
    set_chunks-uploads [] report s = refl
    set_chunks-uploads (c ∷ chunks) report s =
        elim (Result-cases (embed (map (λ (x : Chunk). x.content) (c ∷ chunks)))) [
          | inl (vs, e) ↦ rw e refl
          | inr (m, e) ↦ rw e refl
        ]

    -- Two runs are the same if the second returns.
    abbrev pub SameIfReturns : {A : Type 0} → Result A × State → Result A × State → Type 0
    SameIfReturns r (ok a, s) = r ≡ (ok a, s)
    SameIfReturns r (raise e, s) = (s' : State) × (r ≡ (raise e, s'))

    -- The store with these chunks and vectors.
    abbrev indexed : List Chunk → List V → List Text → State
    indexed chunks vs uploads = record {
      chunks = chunks;
      saved = map asdict chunks;
      index = vs;
      index_file = vs;
      bm25 = rebuild floats lower chunks;
      uploads = uploads;
    }

    set_chunks_embedded :
        {A : Type 0} (c : Chunk) (chunks : List Chunk) (report : State → A) (s : State)
        (vs : List V)
        → embed (map (λ (x : Chunk). x.content) (c ∷ chunks)) ≡ ok vs
        → set_chunks floats lower sizes embed fresh (c ∷ chunks) report s
          ≡ (ok (report (indexed (c ∷ chunks) vs s.uploads)), indexed (c ∷ chunks) vs s.uploads)
    unfolding set_chunks rebuild_index
    set_chunks_embedded c chunks report s vs e = rw e refl

    set_chunks_again :
        {A : Type 0} (chunks : List Chunk) (report : State → A) (s t : State)
        → t.uploads ≡ s.uploads
        → SameIfReturns
            (set_chunks floats lower sizes embed fresh chunks report t)
            (set_chunks floats lower sizes embed fresh chunks report s)
    unfolding set_chunks rebuild_index
    set_chunks_again [] report s t h = rw h refl
    set_chunks_again (c ∷ chunks) report s t h =
        elim (Result-cases (embed (map (λ (x : Chunk). x.content) (c ∷ chunks)))) [
          | inl (vs, e) ↦ rw e (
              set_chunks_embedded c chunks report t vs e
              ∙ ap (λ u. (ok (report (indexed (c ∷ chunks) vs u)), indexed (c ∷ chunks) vs u)) h)
          | inr (m, e) ↦
              rw e (record t { chunks = c ∷ chunks; saved = map asdict (c ∷ chunks) }, rw e refl)
        ]

    upsert_pdf_again :
        (pages : Pages) (source : Text) (s t : State)
        → others source t.chunks ≡ others source s.chunks
        → t.uploads ≡ s.uploads
        → SameIfReturns
            (upsert_pdf floats lower sizes embed fresh (ok pages) source t)
            (upsert_pdf floats lower sizes embed fresh (ok pages) source s)
    unfolding upsert_pdf
    upsert_pdf_again pages source s t e h = rw e (set_chunks_again _ _ s t h)

  -- Replacing a source may be repeated: after any earlier replacement of it, one that failed on the
  -- way included, it does what it does to the store before that. Where it returns, the report and
  -- the whole store are the same; where it raises, the exception is.
  pub upsert_pdf_retry :
      (embed embed' : List Text → Result (List V)) (fresh fresh' : ℕ → Text) (pages pages' : Pages)
      (source : Text) (s : State)
      → SameIfReturns embed fresh
          (upsert_pdf floats lower sizes embed fresh
            (ok pages)
            source
            (upsert_pdf floats lower sizes embed' fresh' (ok pages') source s).1)
          (upsert_pdf floats lower sizes embed fresh (ok pages) source s)
  upsert_pdf_retry embed embed' fresh fresh' pages pages' source s =
      upsert_pdf_again embed fresh pages source s _
        ((upsert_pdf-replaces embed' fresh' pages' source s).0)
        (unfold upsert_pdf in set_chunks-uploads embed' fresh' _ _ s)
