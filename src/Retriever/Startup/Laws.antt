-- ===== src/Retriever/Startup/Laws.antt =====
-- What is saved comes back, and what a store is like after start-up.
use flowxrag.Prelude.{
  ℕ, ◌+◌, List, [], ◌∷◌, Bool, true, false, not, ◌&&◌, ◌==◌, ◌≡◌, refl, arith, map, length,
  is_empty, Bool-cases, inl, inr, All, ◌⊎◌, subst,
}
use flowxrag.Text.{Text}
use flowxrag.Float.{Floats}
use flowxrag.Effects.{Result, ok, raise, Result-cases}
use flowxrag.Retriever.Ingest.{Chunk, Sizes}
use flowxrag.Retriever.Bm25.{rebuild}
use flowxrag.Retriever.Store.{Store, rebuild_index}
use flowxrag.Retriever.Store.Consistency.{IsVectors}
use flowxrag.Retriever.Saved.{ChunkDict, asdict}
use flowxrag.Retriever.Startup.{chunk_from_dict, load_chunks, load_or_rebuild_index, start_up}

-- The texts that loading replaces where they are empty are not empty.
pub record IsStored (c : Chunk) : Type 0 where
  pub has_id : is_empty c.id ≡ false
  pub has_parent : is_empty c.parent_id ≡ false
  pub has_parent_content : is_empty c.parent_content ≡ false
  pub has_strategy : is_empty c.chunking_strategy ≡ false

chunk_from_dict-asdict :
    (uuid uuid' : Text) (c : Chunk) → IsStored c → chunk_from_dict uuid uuid' (asdict c) ≡ c
unfolding chunk_from_dict
chunk_from_dict-asdict uuid uuid' c h =
    rw (h.has_id, h.has_parent, h.has_parent_content, h.has_strategy) refl

-- Chunks that are saved and loaded again are the same, if their identifiers, the text of their
-- parents and their strategies are not empty.
pub load_chunks-asdict :
    (fresh : ℕ → Text) (n : ℕ) (chunks : List Chunk)
    → All IsStored chunks
    → load_chunks fresh n (map asdict chunks) ≡ chunks
unfolding load_chunks
load_chunks-asdict fresh n [] h = refl
load_chunks-asdict fresh n (c ∷ chunks) h =
    rw
      (
        chunk_from_dict-asdict (fresh (n + n)) (fresh (n + n + 1)) c h.0,
        load_chunks-asdict fresh (n + 1) chunks h.1,
      )
      refl

accepted : (a b : Bool) (m n : ℕ) → not a && (b && m == n) ≡ true → (b ≡ true) × (m ≡ n)
accepted a b m n h = ground arith

module _ (floats : Floats) (lower : Text → Text) (sizes : Sizes) (V : Type 0)
    (embed : List Text → Result (List V)) (fresh : ℕ → Text) where
  abbrev State : Type 0
  State = Store V floats.F

  -- The index file was taken as it was: it could be read, with vectors of the right dimension, one
  -- for each chunk. What texts they are of is not known.
  abbrev pub IsTaken : Bool → List V → State → Type 0
  IsTaken fits index_file s =
      (fits ≡ true) × (s.index ≡ index_file) × (length index_file ≡ length s.chunks)

  -- The test of the index file, which is not passed.
  abbrev pub IsRefused : Bool → List V → List Chunk → Type 0
  IsRefused fits index_file chunks =
      not (is_empty chunks) && (fits && length index_file == length chunks) ≡ false

  -- What a start-up leaves: the chunks of the file, which is not written, and the BM25 index of
  -- them. Where it returns, the index file holds the index, which is either the old file's or new;
  -- it raises only where the embedding of the contents does, and the index file stays.
  abbrev pub Started : Bool → List ChunkDict → List V → Result (Unit {0}) × State → Type 0
  Started fits items index_file (ok done, s) =
      (s.chunks ≡ load_chunks fresh 0 items)
      × (s.saved ≡ items)
      × (s.bm25 ≡ rebuild floats lower s.chunks)
      × (s.index_file ≡ s.index)
      × (IsTaken fits index_file s
          ⊎ (IsRefused fits index_file s.chunks
              × IsVectors floats lower sizes V embed s.chunks s.index))
  Started fits items index_file (raise e, s) =
      (embed (map (λ (c : Chunk). c.content) (load_chunks fresh 0 items)) ≡ raise e)
      × IsRefused fits index_file s.chunks
      × (s.saved ≡ items)
      × (s.index_file ≡ index_file)

  -- The store before its vectors are there.
  abbrev loaded : List Chunk → List ChunkDict → List V → List Text → State
  loaded chunks items index_file uploads = record {
    chunks = chunks;
    saved = items;
    index = [];
    index_file = index_file;
    bm25 = rebuild floats lower chunks;
    uploads = uploads;
  }

  rebuild_index-Started :
      (fits : Bool) (chunks : List Chunk) (items : List ChunkDict) (index_file : List V)
      (uploads : List Text)
      → chunks ≡ load_chunks fresh 0 items
      → IsRefused fits index_file chunks
      → Started fits items index_file
          (rebuild_index floats lower sizes embed fresh (loaded chunks items index_file uploads))
  unfolding rebuild_index
  rebuild_index-Started fits [] items index_file uploads h k = (h, refl, refl, refl, inr (k, refl))
  rebuild_index-Started fits (c ∷ chunks) items index_file uploads h k =
      elim (Result-cases (embed (map (λ (x : Chunk). x.content) (c ∷ chunks)))) [
        | inl (vs, e) ↦ rw e (h, refl, refl, refl, inr (k, e))
        | inr (m, e) ↦
            rw e
              (subst (λ cs. embed (map (λ (x : Chunk). x.content) cs) ≡ raise m) h e, k, refl, refl)
      ]

  load_or_rebuild_index-Started :
      (fits : Bool) (chunks : List Chunk) (items : List ChunkDict) (index_file : List V)
      (uploads : List Text)
      → chunks ≡ load_chunks fresh 0 items
      → Started fits items index_file (
          load_or_rebuild_index floats lower sizes embed fresh fits
            (loaded chunks items index_file uploads))
  unfolding load_or_rebuild_index
  load_or_rebuild_index-Started fits chunks items index_file uploads h =
      elim (Bool-cases (not (is_empty chunks) && (fits && length index_file == length chunks))) [
        | inl e ↦
            let k = accepted (is_empty chunks) fits (length index_file) (length chunks) e in
            rw e (h, refl, refl, refl, inl (k.0, refl, k.1))
        | inr e ↦ rw e (rebuild_index-Started fits chunks items index_file uploads h e)
      ]

  -- A start-up over any files. Where it returns, the chunks are those loaded from chunks.json, which
  -- stays as it is, the BM25 index is built of them, and the index file holds the index: the
  -- vectors that the file held, if it could be read with the right dimension and held one for each
  -- chunk, and what the embedding backend answers for the contents otherwise. It raises only the
  -- exception of the embedding of the contents, where the index file is not taken, and then both
  -- files stay as they are.
  pub start_up-Started :
      (fits : Bool) (items : List ChunkDict) (index_file : List V) (uploads : List Text)
      → Started fits items index_file
          (start_up floats lower sizes embed fresh fits items index_file uploads)
  unfolding start_up
  start_up-Started fits items index_file uploads =
      load_or_rebuild_index-Started fits (load_chunks fresh 0 items) items index_file uploads refl
