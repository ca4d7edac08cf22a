-- ===== src/Retriever/Ingest.antt =====
-- `_chunks_from_reader` of backend/retriever.py: the parent and child chunks of a PDF. The pages
-- are what the PDF reader extracts, `none` where it gives no text.
pub mod Complete
use flowxrag.Prelude.{
  ℕ, suc, ◌+◌, List, [], ◌∷◌, ◌++◌, Option, none, some, if◌then◌else◌, length, is_empty,
}
use flowxrag.Text.{Text, codes}
use flowxrag.Retriever.Clean.{clean_text}
use flowxrag.Retriever.Chunking.{split_text}

pub record Chunk : Type 0 where
  pub id : Text
  pub content : Text
  pub source : Text
  pub page : ℕ
  pub chunk_index : ℕ
  pub parent_id : Text
  pub parent_content : Text
  pub parent_index : ℕ
  pub child_index : ℕ
  pub chunking_strategy : Text

-- The sizes that the environment sets.
pub record Sizes : Type 0 where
  pub parent_chunk_size : ℕ
  pub parent_chunk_overlap : ℕ
  pub child_chunk_size : ℕ
  pub child_chunk_overlap : ℕ

-- `page.extract_text() or ""`
abbrev pub extracted : Option Text → Text
extracted none = []
extracted (some text) = text

-- The variables of the loops around the innermost one.
pub record Parent : Type 0 where
  pub page_number : ℕ
  pub parent_index : ℕ
  pub parent_id : Text
  pub parent_text : Text

-- `fresh n` is the result of the n-th call of `uuid.uuid4`, as a text.
module _ (sizes : Sizes) (fresh : ℕ → Text) (source_name : Text) where
  open sizes use {parent_chunk_size, parent_chunk_overlap, child_chunk_size, child_chunk_overlap}

  unfoldable pub child_texts_of : Text → List Text
  child_texts_of parent_text =
      let child_texts = split_text parent_text child_chunk_size child_chunk_overlap in
      if is_empty child_texts then parent_text ∷ [] else child_texts

  -- The innermost loop: `uuids` calls of `uuid4` were made before, and `count` is `len(chunks)`.
  unfoldable pub children_of : Parent → ℕ → ℕ → ℕ → List Text → List Chunk
  children_of parent child_index uuids count [] = []
  children_of parent child_index uuids count (child_text ∷ child_texts) =
      record {
        id = fresh uuids;
        content = child_text;
        source = source_name;
        page = parent.page_number;
        chunk_index = count;
        parent_id = parent.parent_id;
        parent_content = parent.parent_text;
        parent_index = parent.parent_index;
        child_index = child_index;
        chunking_strategy = codes "parent_child_recursive";
      }
      ∷ children_of parent (child_index + 1) (uuids + 1) (count + 1) child_texts

  unfoldable pub parents_of : ℕ → ℕ → ℕ → ℕ → List Text → List Chunk × ℕ
  unfolding children_of child_texts_of
  parents_of page_number parent_index uuids count [] = ([], uuids)
  parents_of page_number parent_index uuids count (parent_text ∷ parent_texts) =
      let parent : Parent = record {
        page_number = page_number;
        parent_index = parent_index;
        parent_id = fresh uuids;
        parent_text = parent_text;
      } in
      let children = children_of parent 0 (uuids + 1) count (child_texts_of parent_text) in
      let n = length children in
      let rest =
        parents_of page_number (parent_index + 1) (uuids + 1 + n) (count + n) parent_texts in
      (children ++ rest.0, rest.1)

  unfoldable pub pages_of : ℕ → ℕ → ℕ → List (Option Text) → List Chunk × ℕ
  unfolding parents_of
  pages_of page_number uuids count [] = ([], uuids)
  pages_of page_number uuids count (page ∷ pages) =
      let page_text = clean_text (extracted page) in
      let parent_texts = split_text page_text parent_chunk_size parent_chunk_overlap in
      let chunks = parents_of page_number 0 uuids count parent_texts in
      let rest = pages_of (page_number + 1) chunks.1 (count + length chunks.0) pages in
      (chunks.0 ++ rest.0, rest.1)

  unfoldable pub chunks_from_reader : List (Option Text) → List Chunk
  unfolding pages_of
  chunks_from_reader pages = (pages_of 1 0 0 pages).0
