-- ===== src/Server.antt =====
-- `RagServicer` of rag-service/server.py: `Search` and `IndexDocument`. A call is answered or
-- aborted; of two codes, since the handler of exceptions aborts a call again, the first is sent.
pub mod Laws
use flowxrag.Prelude.{
  ℕ, zero, List, Bool, true, false, not, ◌||◌, ◌==◌, Option, none, some, if◌then◌else◌, min, max,
  map,
}
use flowxrag.Text.{Text, codes, same}
use flowxrag.Float.{Floats}
use flowxrag.Effects.{Result, ok, raise}
use flowxrag.Graph.{SearchResult}
use flowxrag.Retriever.Ingest.{Sizes}
use flowxrag.Retriever.Store.{
  Store, Pages, UpsertReport, upsert_pdf, delete_source, DeleteReport, no_source, deletion,
}

pub data StatusCode : Type 0 where
  internal not_found invalid_argument : StatusCode

pub data Rpc {ℓ} (A : Type ℓ) : Type ℓ where
  answered : A → Rpc A
  aborted : StatusCode → Rpc A

-- A change of a document, as Kafka has it.
pub record DocumentChange : Type 0 where
  pub operation : Text
  pub source : Text
  pub file_path : Text

pub record SearchHit (F : Type 0) : Type 0 where
  pub content : Text
  pub source : Text
  pub page : ℕ
  pub score : F

-- `min(max(int(top_k or 5), 1), 20)`
abbrev pub bounded_top_k : ℕ → ℕ
bounded_top_k top_k = min (max (if top_k == 0 then 5 else top_k) 1) 20

abbrev pub search_hit : {F : Type 0} → SearchResult F → SearchHit F
search_hit r = record { content = r.content; source = r.source; page = r.page; score = r.score }

abbrev pub hits : {F : Type 0} → Result (List (SearchResult F)) → Rpc (List (SearchHit F))
hits (ok results) = answered (map search_hit results)
hits (raise e) = aborted internal

-- `search` is that of the knowledge base.
unfoldable pub search_rpc :
    {F : Type 0} → (Text → ℕ → Result (List (SearchResult F))) → Text → ℕ → Rpc (List (SearchHit F))
search_rpc search query top_k = hits (search query (bounded_top_k top_k))

-- `result.get("chunks", 0)`
abbrev pub chunks_of : DeleteReport → ℕ
chunks_of (no_source name) = 0
chunks_of (deletion d) = d.chunks

abbrev pub is_upsert : Text → Bool
is_upsert operation = same operation (codes "INSERT") || same operation (codes "UPDATE")

abbrev pub removed : {S : Type 0} → Result DeleteReport × S → Rpc ℕ × S
removed (ok report, s) = (answered (chunks_of report), s)
removed (raise e, s) = (aborted internal, s)

abbrev pub replaced : {S : Type 0} → Result UpsertReport × S → Rpc ℕ × S
replaced (ok report, s) = (answered report.total_chunks, s)
replaced (raise e, s) = (aborted internal, s)

-- `upper` is `str.upper`; `read` gives what the PDF reader makes of a path, and `none` where there
-- is no file.
module _ (floats : Floats) (lower upper : Text → Text) (sizes : Sizes) {V : Type 0}
    (resolve : Text → Option Text) (read : Text → Option (Result Pages))
    (embed : List Text → Result (List V)) (fresh : ℕ → Text) where
  abbrev pub upserted :
      Text → Option (Result Pages) → Store V (floats.F) → Rpc ℕ × Store V (floats.F)
  upserted source none s = (aborted not_found, s)
  upserted source (some pages) s =
      replaced (upsert_pdf floats lower sizes embed fresh pages source s)

  -- With the number of chunks
  unfoldable pub index_document : DocumentChange → Store V (floats.F) → Rpc ℕ × Store V (floats.F)
  unfolding upsert_pdf delete_source
  index_document change s =
      let operation = upper change.operation in
      if same operation (codes "DELETE")
      then removed (delete_source floats lower sizes embed fresh resolve change.source s)
      else (if is_upsert operation
          then upserted change.source (read change.file_path) s
          else (aborted invalid_argument, s))
