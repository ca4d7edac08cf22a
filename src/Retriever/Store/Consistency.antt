-- ===== src/Retriever/Store/Consistency.antt =====
-- What the methods of the store keep: memory and disk agree, and the indexes are those of the
-- chunks.
use flowxrag.Prelude.{
  true, ℕ, List, [], ◌∷◌, Option, ◌≡◌, refl, ◌⊎◌, inl, inr, Bool-cases, map, is_empty,
}
use flowxrag.Text.{Text, strip}
use flowxrag.Float.{Floats}
use flowxrag.Effects.{Result, ok, raise, Result-cases}
use flowxrag.Retriever.Ingest.{Chunk, Sizes}
use flowxrag.Retriever.Bm25.{rebuild}
use flowxrag.Retriever.Saved.{asdict}
use flowxrag.Retriever.Store.{
  Store, Pages, rebuild_index, set_chunks, add_pdf, upsert_pdf, deleting, delete_source, rebuilding,
  rebuild_from_uploads, clear,
}

-- The calls that change the store, with what they get from outside: the identifiers, the pages that
-- the PDF reader finds and where the names of files lead.
pub data Call : Type 0 where
  add : (ℕ → Text) → Result Pages → Text → Call
  upsert : (ℕ → Text) → Result Pages → Text → Call
  delete : (Text → Option Text) → Text → Call
  reindex : (Text → Result Pages) → (ℕ → ℕ → Text) → Call
  empty : Call

module _ (floats : Floats) (lower : Text → Text) (sizes : Sizes) (V : Type 0) where
  abbrev State : Type 0
  State = Store V floats.F

  abbrev pub after : {A : Type 0} → Result A × State → Result (Unit {0}) × State
  after (ok a, s) = (ok tt, s)
  after (raise e, s) = (raise e, s)

  -- A call, with the answers of the embedding backend to it.
  abbrev pub perform : (List Text → Result (List V)) → Call → State → Result (Unit {0}) × State
  perform embed (add fresh read source) s =
      after (add_pdf floats lower sizes embed fresh read source s)
  perform embed (upsert fresh read source) s =
      after (upsert_pdf floats lower sizes embed fresh read source s)
  perform embed (delete resolve source) s =
      after (delete_source floats lower sizes embed (λ n. []) resolve source s)
  perform embed (reindex read fresh_of) s =
      after (rebuild_from_uploads floats lower sizes embed (λ n. []) read fresh_of s)
  perform embed empty s = after (clear floats lower sizes embed (λ n. []) s)

  -- The vectors are what the embedding backend answers for the contents of the chunks, in their
  -- order; without chunks there are none.
  abbrev pub IsVectors : (List Text → Result (List V)) → List Chunk → List V → Type 0
  IsVectors embed [] vectors = vectors ≡ []
  IsVectors embed (c ∷ cs) vectors = embed (map (λ (x : Chunk). x.content) (c ∷ cs)) ≡ ok vectors

  -- chunks.json holds the chunks in memory.
  abbrev pub IsSaved : State → Type 0
  IsSaved s = s.saved ≡ map asdict s.chunks

  -- The disk agrees with the memory, and both indexes are built of the chunks in memory.
  pub record IsBuilt (embed : List Text → Result (List V)) (s : State) : Type 0 where
    pub disk : IsSaved s
    pub file : s.index_file ≡ s.index
    pub vectors : IsVectors embed s.chunks s.index
    pub terms : s.bm25 ≡ rebuild floats lower s.chunks

  -- The chunks on disk are those in memory, and the indexes are the ones from before.
  pub record IsHalfway (before s : State) : Type 0 where
    pub disk : IsSaved s
    pub file : s.index_file ≡ before.index_file
    pub vectors : s.index ≡ before.index
    pub terms : s.bm25 ≡ before.bm25

  -- What a call leaves, where it may be idle or not.
  abbrev pub Outcome :
      {A : Type 0} → (List Text → Result (List V)) → Type 0 → State → Result A × State → Type 0
  Outcome embed idle s (ok a, s') = (idle × (s' ≡ s)) ⊎ IsBuilt embed s'
  Outcome embed idle s (raise e, s') = IsHalfway s s'

  -- When a call may leave the store as it was: a deletion, of a blank name.
  abbrev pub IsIdle : Call → Type 0
  IsIdle (delete resolve source) = is_empty (strip source) ≡ true
  IsIdle _ = ⊥

  -- A store with the indexes of another.
  record SameIndexes (s t : State) : Type 0 where
    file : s.index_file ≡ t.index_file
    vectors : s.index ≡ t.index
    terms : s.bm25 ≡ t.bm25

  module _ (embed : List Text → Result (List V)) (fresh : ℕ → Text) where
    set_chunks-Outcome :
        {A : Type 0} (idle : Type 0) (chunks : List Chunk) (report : State → A) (t s : State)
        → SameIndexes s t
        → Outcome embed idle t (set_chunks floats lower sizes embed fresh chunks report s)
    unfolding set_chunks rebuild_index
    set_chunks-Outcome idle [] report t s h =
        inr (record { disk = refl; file = refl; vectors = refl; terms = refl })
    set_chunks-Outcome idle (c ∷ chunks) report t s h =
        elim (Result-cases (embed (map (λ (x : Chunk). x.content) (c ∷ chunks)))) [
          | inl (vs, e) ↦
              rw e (inr (record { disk = refl; file = refl; vectors = e; terms = refl }))
          | inr (m, e) ↦
              rw e (record { disk = refl; file = h.file; vectors = h.vectors; terms = h.terms })
        ]

    same : (s : State) → SameIndexes s s
    same s = record { file = refl; vectors = refl; terms = refl }

    deleting-Outcome :
        (idle : Type 0) (source : Text) (files : Result (List Text) × List Text) (s : State)
        → IsSaved s
        → Outcome embed idle s (deleting floats lower sizes embed fresh source files s)
    deleting-Outcome idle source (ok names, uploads) s h =
        set_chunks-Outcome _ _ _ s _ (moved s uploads)
      where
        moved : (s : State) (uploads : List Text) → SameIndexes (record s { uploads = uploads }) s
        moved s uploads = record { file = refl; vectors = refl; terms = refl }
    deleting-Outcome idle source (raise e, uploads) s h = record {
      disk = h;
      file = refl;
      vectors = refl;
      terms = refl;
    }

    halfway : (s : State) → IsSaved s → IsHalfway s s
    halfway s h = record { disk = h; file = refl; vectors = refl; terms = refl }

    rebuilding-Outcome :
        (all : Result (List Text × ℕ × List Chunk)) (s : State)
        → IsSaved s
        → Outcome embed ⊥ s (rebuilding floats lower sizes embed fresh all s)
    rebuilding-Outcome (ok (sources, n, chunks)) s h = set_chunks-Outcome _ chunks _ s s (same s)
    rebuilding-Outcome (raise e) s h = halfway s h

    delete_source-Outcome :
        (resolve : Text → Option Text) (source : Text) (s : State)
        → IsSaved s
        → Outcome embed
            (is_empty (strip source) ≡ true)
            s
            (delete_source floats lower sizes embed fresh resolve source s)
    unfolding delete_source
    delete_source-Outcome resolve source s h = elim (Bool-cases (is_empty (strip source))) [
      | inl e ↦ rw e (inl (refl, refl))
      | inr e ↦ rw e (deleting-Outcome _ (strip source) _ s h)
    ]

    add_pdf-Outcome :
        (read : Result Pages) (source : Text) (s : State)
        → IsSaved s
        → Outcome embed ⊥ s (add_pdf floats lower sizes embed fresh read source s)
    unfolding add_pdf
    add_pdf-Outcome (ok pages) source s h = set_chunks-Outcome _ _ _ s s (same s)
    add_pdf-Outcome (raise e) source s h = halfway s h

    upsert_pdf-Outcome :
        (read : Result Pages) (source : Text) (s : State)
        → IsSaved s
        → Outcome embed ⊥ s (upsert_pdf floats lower sizes embed fresh read source s)
    unfolding upsert_pdf
    upsert_pdf-Outcome (ok pages) source s h = set_chunks-Outcome _ _ _ s s (same s)
    upsert_pdf-Outcome (raise e) source s h = halfway s h

    rebuild_from_uploads-Outcome :
        (read : Text → Result Pages) (fresh_of : ℕ → ℕ → Text) (s : State)
        → IsSaved s
        → Outcome embed ⊥ s (rebuild_from_uploads floats lower sizes embed fresh read fresh_of s)
    unfolding rebuild_from_uploads
    rebuild_from_uploads-Outcome read fresh_of s h = rebuilding-Outcome _ s h

    clear-Outcome : (s : State) → Outcome embed ⊥ s (clear floats lower sizes embed fresh s)
    unfolding clear
    clear-Outcome s = set_chunks-Outcome {A = Unit {0}} _ [] (λ _. tt) s s (same s)

  after-Outcome :
      {A : Type 0} (embed : List Text → Result (List V)) (idle : Type 0) (s : State)
      (r : Result A × State)
      → Outcome embed idle s r
      → Outcome embed idle s (after r)
  after-Outcome embed idle s (ok a, s') h = h
  after-Outcome embed idle s (raise e, s') h = h

  -- Every call that changes the store, from one whose chunks.json holds its chunks. Where it
  -- returns, the vectors are the answer of the embedding backend to the contents of the chunks that
  -- are there then, the BM25 index is built of the same chunks, and chunks.json and the index file
  -- hold what is in memory; only the deletion of a blank name may leave the store as it was instead.
  -- Where it raises, chunks.json still holds the chunks in memory, and vectors, index file and BM25
  -- index are those from before.
  pub perform-Outcome :
      (embed : List Text → Result (List V)) (call : Call) (s : State)
      → IsSaved s
      → Outcome embed (IsIdle call) s (perform embed call s)
  perform-Outcome embed (add fresh read source) s h =
      after-Outcome embed _ s _ (add_pdf-Outcome embed fresh read source s h)
  perform-Outcome embed (upsert fresh read source) s h =
      after-Outcome embed _ s _ (upsert_pdf-Outcome embed fresh read source s h)
  perform-Outcome embed (delete resolve source) s h =
      after-Outcome embed _ s _ (delete_source-Outcome embed (λ n. []) resolve source s h)
  perform-Outcome embed (reindex read fresh_of) s h =
      after-Outcome embed _ s _ (rebuild_from_uploads-Outcome embed (λ n. []) read fresh_of s h)
  perform-Outcome embed empty s h = after-Outcome embed _ s _ (clear-Outcome embed (λ n. []) s)
