-- ===== src/Retriever/Saved.antt =====
-- chunks.json of backend/retriever.py: the dictionaries that `_save_chunks` writes with `asdict` and
-- `_load_chunks` reads.
use flowxrag.Prelude.{ℕ, Option, some}
use flowxrag.Text.{Text}
use flowxrag.Retriever.Ingest.{Chunk}

-- An item of chunks.json: a dictionary whose keys may be missing, as in older files.
pub record ChunkDict : Type 0 where
  pub id : Option Text
  pub content : Option Text
  pub source : Option Text
  pub page : Option ℕ
  pub chunk_index : Option ℕ
  pub parent_id : Option Text
  pub parent_content : Option Text
  pub parent_index : Option ℕ
  pub child_index : Option ℕ
  pub chunking_strategy : Option Text

-- `dataclasses.asdict`
abbrev pub asdict : Chunk → ChunkDict
asdict c = record {
  id = some c.id;
  content = some c.content;
  source = some c.source;
  page = some c.page;
  chunk_index = some c.chunk_index;
  parent_id = some c.parent_id;
  parent_content = some c.parent_content;
  parent_index = some c.parent_index;
  child_index = some c.child_index;
  chunking_strategy = some c.chunking_strategy;
}
