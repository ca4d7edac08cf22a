-- ===== src/Retriever/Startup.antt =====
-- How `KnowledgeBase` of backend/retriever.py comes back from the disk: `_load_chunks` with `_chunk_from_dict`, and `_load_or_rebuild_index`.
pub mod Laws
use flowxrag.Prelude.{
  ℕ, suc, ◌+◌, List, [], ◌∷◌, Bool, not, ◌&&◌, ◌==◌, Option, none, some, if◌then◌else◌, length,
  is_empty,
}
use flowxrag.Text.{Text, codes}
use flowxrag.Float.{Floats}
use flowxrag.Effects.{Result, ok, raise}
use flowxrag.Retriever.Ingest.{Chunk, Sizes}
use flowxrag.Retriever.Bm25.{rebuild}
use flowxrag.Retriever.Saved.{ChunkDict}
use flowxrag.Retriever.Store.{Store, rebuild_index}

-- `x or default`, where the text may be missing
abbrev pub text_or : Option Text → Text → Text
text_or none default = default
text_or (some t) default = if is_empty t then default else t

-- `item.get(key, default)`
abbrev pub get_or {ℓ} : {A : Type ℓ} → Option A → A → A
get_or none default = default
get_or (some x) default = x

-- `uuid` and `uuid'` are the identifiers made where the item has none.
unfoldable pub chunk_from_dict : Text → Text → ChunkDict → Chunk
chunk_from_dict uuid uuid' item =
    let content = get_or item.content [] in
    let chunk_index = get_or item.chunk_index 0 in
    record {
      id = text_or item.id uuid';
      content = content;
      source = get_or item.source [];
      page = get_or item.page 0;
      chunk_index = chunk_index;
      parent_id = text_or item.parent_id (text_or item.id uuid);
      parent_content = text_or item.parent_content content;
      parent_index = get_or item.parent_index chunk_index;
      child_index = get_or item.child_index 0;
      chunking_strategy = text_or item.chunking_strategy (codes "legacy_flat");
    }

-- The n-th item takes the identifiers 2n and 2n + 1 if it needs them.
unfoldable pub load_chunks : (ℕ → Text) → ℕ → List ChunkDict → List Chunk
unfolding chunk_from_dict
load_chunks fresh n [] = []
load_chunks fresh n (item ∷ items) =
    chunk_from_dict (fresh (n + n)) (fresh (n + n + 1)) item ∷ load_chunks fresh (n + 1) items

module _ (floats : Floats) (lower : Text → Text) (sizes : Sizes) {V : Type 0}
    (embed : List Text → Result (List V)) (fresh : ℕ → Text) where
  -- The test that the index file passes; `fits` says that it can be read and that its vectors have
  -- the dimension of the embedding.
  abbrev pub accepts : Bool → Store V floats.F → Bool
  accepts fits s = not (is_empty s.chunks) && (fits && length s.index_file == length s.chunks)

  -- `_load_or_rebuild_index`
  unfoldable pub load_or_rebuild_index :
      Bool → Store V floats.F → Result (Unit {0}) × Store V floats.F
  unfolding rebuild_index
  load_or_rebuild_index fits s =
      if accepts fits s
      then (ok tt, record s { index = s.index_file })
      else rebuild_index floats lower sizes embed fresh s

  -- `__init__`: the chunks of chunks.json, the BM25 index of them, and the vectors. The file itself
  -- is not written, so that it may differ from the chunks loaded.
  unfoldable pub start_up :
      Bool → List ChunkDict → List V → List Text → Result (Unit {0}) × Store V floats.F
  unfolding load_chunks load_or_rebuild_index
  start_up fits items index_file uploads =
      let chunks = load_chunks fresh 0 items in
      load_or_rebuild_index fits record {
        chunks = chunks;
        saved = items;
        index = [];
        index_file = index_file;
        bm25 = rebuild floats lower chunks;
        uploads = uploads;
      }
