-- ===== src/Retriever/Store.antt =====
-- `KnowledgeBase` of backend/retriever.py: the chunks, their copy on disk, the FAISS index with its
-- file, the BM25 index and the uploaded files. Every method that changes the chunks does so under
-- the lock, so it is one step.
pub mod Consistency
pub mod Removal
pub mod Sources
use flowxrag.Prelude.{
  ℕ, ◌+◌, ◌-◌, List, [], ◌∷◌, ◌++◌, Bool, not, Option, none, some, if◌then◌else◌, length, keep, map,
  is_empty,
}
use flowxrag.Text.{Text, codes, same, strip, distinct, ends_with}
use flowxrag.Float.{Floats}
use flowxrag.Effects.{Result, ok, raise}
use flowxrag.Retriever.Ingest.{Chunk, Sizes, chunks_from_reader}
use flowxrag.Retriever.Bm25.{Bm25, rebuild}
use flowxrag.Retriever.Saved.{ChunkDict, asdict}
use flowxrag.Retriever.Uploads.{display_source_name, upload_files_for_source, upload_name}

-- The index is the list of its vectors, in the order in which they were added; `saved` is
-- chunks.json and `index_file` is faiss.index.
pub record Store (V F : Type 0) : Type 0 where
  pub chunks : List Chunk
  pub saved : List ChunkDict
  pub index : List V
  pub index_file : List V
  pub bm25 : Bm25 F
  pub uploads : List Text

-- The dictionaries that the methods return.
pub record AddReport : Type 0 where
  pub source : Text
  pub pages : ℕ
  pub chunks_added : ℕ
  pub parent_chunks_added : ℕ
  pub total_chunks : ℕ

pub record UpsertReport : Type 0 where
  pub source : Text
  pub pages : ℕ
  pub chunks_added : ℕ
  pub total_chunks : ℕ

pub record Deletion : Type 0 where
  pub source : Text
  pub chunks_removed : ℕ
  pub uploads_deleted : ℕ
  pub deleted_uploads : List Text
  pub chunks : ℕ
  pub parent_chunks : ℕ

-- For an empty name the dictionary has the first three keys only, both counts 0.
pub data DeleteReport : Type 0 where
  no_source : Text → DeleteReport
  deletion : Deletion → DeleteReport

pub record RebuildReport : Type 0 where
  pub sources : List Text
  pub pages : ℕ
  pub chunks : ℕ
  pub parent_chunks : ℕ

-- A page is what the PDF reader extracts from it, and a document the list of its pages.
abbrev pub Pages : Type 0
Pages = List (Option Text)

abbrev pub parent_count : List Chunk → ℕ
parent_count chunks = length (distinct (map (λ (c : Chunk). c.parent_id) chunks))

-- `chunk.parent_id or chunk.id`
abbrev pub parent_key : Chunk → Text
parent_key c = if is_empty c.parent_id then c.id else c.parent_id

abbrev pub others : Text → List Chunk → List Chunk
others source_name = keep (λ c. not (same c.source source_name))

-- `lower` is `str.lower`, `embed` the embedding backend, and `fresh n` the n-th identifier that a
-- call of a method takes from `uuid.uuid4`.
module _ (floats : Floats) (lower : Text → Text) (sizes : Sizes) {V : Type 0}
    (embed : List Text → Result (List V)) (fresh : ℕ → Text) where
  abbrev State : Type 0
  State = Store V floats.F

  -- A method's result or exception, and the store that it leaves.
  abbrev Run : Type 0 → Type 0
  Run A = Result A × State

  -- `self.chunks = chunks` and `self._save_chunks()`
  abbrev pub with_chunks : List Chunk → State → State
  with_chunks chunks s = record s { chunks = chunks; saved = map asdict chunks }

  abbrev pub with_index : List V → State → State
  with_index vectors s = record s {
    index = vectors;
    index_file = vectors;
    bm25 = rebuild floats lower s.chunks;
  }

  -- `self.index = self._rebuild_index()`: where the embedding raises, nothing was changed.
  unfoldable pub rebuild_index : State → Run (Unit {0})
  rebuild_index s =
      let vectors =
        if is_empty s.chunks then ok [] else embed (map (λ (c : Chunk). c.content) s.chunks) in
      elim vectors [ ok vs ↦ (ok tt, with_index vs s) | raise e ↦ (raise e, s) ]

  -- What a method returns after its last step, the rebuild of the index.
  abbrev pub reporting : {A : Type 0} → (State → A) → Run (Unit {0}) → Run A
  reporting report (ok done, s) = (ok (report s), s)
  reporting report (raise e, s) = (raise e, s)

  unfoldable pub set_chunks : {A : Type 0} → List Chunk → (State → A) → State → Run A
  unfolding rebuild_index
  set_chunks chunks report s = reporting report (rebuild_index (with_chunks chunks s))

  -- `read` is the result of `PdfReader` for the file.
  unfoldable pub add_pdf : Result Pages → Text → State → Run AddReport
  unfolding set_chunks chunks_from_reader
  add_pdf (raise e) source_name s = (raise e, s)
  add_pdf (ok pages) source_name s =
      let new_chunks = chunks_from_reader sizes fresh source_name pages in
      set_chunks (s.chunks ++ new_chunks)
        (λ s'. record {
          source = source_name;
          pages = length pages;
          chunks_added = length new_chunks;
          parent_chunks_added = parent_count new_chunks;
          total_chunks = length s'.chunks;
        })
        s

  unfoldable pub upsert_pdf : Result Pages → Text → State → Run UpsertReport
  unfolding set_chunks chunks_from_reader
  upsert_pdf (raise e) source_name s = (raise e, s)
  upsert_pdf (ok pages) source_name s =
      let new_chunks = chunks_from_reader sizes fresh source_name pages in
      set_chunks (others source_name s.chunks ++ new_chunks)
        (λ s'. record {
          source = source_name;
          pages = length pages;
          chunks_added = length new_chunks;
          total_chunks = length s'.chunks;
        })
        s

  -- The loop of `_delete_upload_files`: `resolve` is the name, in the upload directory, of the file
  -- that a name leads to, and `none` where it leads out of it. A file that is gone is no error.
  unfoldable pub delete_files :
      (Text → Option Text) → List Text → List Text → List Text → Result (List Text) × List Text
  delete_files resolve [] deleted uploads = (ok deleted, uploads)
  delete_files resolve (name ∷ names) deleted uploads = elim (resolve name) [
    | none ↦ (raise (codes "Refusing to delete outside upload dir"), uploads)
    | some resolved ↦
        delete_files resolve names (deleted ++ resolved ∷ [])
          (keep (λ u. not (same u resolved)) uploads)
  ]

  -- The part of `delete_source` under the lock.
  abbrev pub deleting : Text → Result (List Text) × List Text → State → Run DeleteReport
  deleting source_name (raise e, uploads) s = (raise e, record s { uploads = uploads })
  deleting source_name (ok names, uploads) s =
      let left = others source_name s.chunks in
      set_chunks left
        (λ s'. deletion record {
          source = source_name;
          chunks_removed = length s.chunks - length left;
          uploads_deleted = length names;
          deleted_uploads = names;
          chunks = length s'.chunks;
          parent_chunks = length (distinct (map parent_key s'.chunks));
        })
        (record s { uploads = uploads })

  unfoldable pub delete_source : (Text → Option Text) → Text → State → Run DeleteReport
  unfolding set_chunks delete_files strip
  delete_source resolve raw s =
      let source_name = strip raw in
      let files = upload_files_for_source s.uploads source_name in
      if is_empty source_name
      then (ok (no_source source_name), s)
      else deleting source_name (delete_files resolve files [] s.uploads) s

  -- The loop of `rebuild_from_uploads` over the PDF files: the sources, the number of pages and the
  -- chunks, or the exception of a file that cannot be read.
  unfoldable pub read_all :
      (Text → Result Pages) → (ℕ → ℕ → Text) → ℕ → List Text → Result (List Text × ℕ × List Chunk)
  unfolding chunks_from_reader
  read_all read fresh_of i [] = ok ([], 0, [])
  read_all read fresh_of i (name ∷ names) =
      let rest = read_all read fresh_of (i + 1) names in
      let source_name = display_source_name name in
      elim (read name) [
        | raise e ↦ raise e
        | ok pages ↦ elim rest [
          | raise e ↦ raise e
          | ok (sources, n, chunks) ↦ ok (
            source_name ∷ sources,
            length pages + n,
            chunks_from_reader sizes (fresh_of i) source_name pages ++ chunks,
          )
        ]
      ]

  abbrev pub rebuilding : Result (List Text × ℕ × List Chunk) → State → Run RebuildReport
  rebuilding (raise e) s = (raise e, s)
  rebuilding (ok (sources, n, chunks)) s =
      set_chunks chunks
        (λ s'. record {
          sources = sources;
          pages = n;
          chunks = length s'.chunks;
          parent_chunks = parent_count s'.chunks;
        })
        s

  -- `fresh_of i` gives the identifiers for the i-th file.
  unfoldable pub rebuild_from_uploads :
      (Text → Result Pages) → (ℕ → ℕ → Text) → State → Run RebuildReport
  unfolding set_chunks read_all
  rebuild_from_uploads read fresh_of s =
      rebuilding (read_all read fresh_of 0 (keep (ends_with (codes ".pdf")) s.uploads)) s

  unfoldable pub clear : State → Run (Unit {0})
  unfolding set_chunks
  clear s = set_chunks [] (λ _. tt) s
