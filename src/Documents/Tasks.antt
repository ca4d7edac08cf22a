-- ===== src/Documents/Tasks.antt =====
-- One attempt of `process_pdf_task` of backend/tasks/document_tasks.py. Where it raises, Celery runs
-- it again, three times at most. What is sent to MySQL and Kafka behind the indexing raises nothing
-- and is left out, as is the duration.
pub mod Laws
use flowxrag.Prelude.{ℕ, List, Option, none, some}
use flowxrag.Text.{Text, codes}
use flowxrag.Float.{Floats}
use flowxrag.Effects.{Result, ok, raise}
use flowxrag.Models.{DocumentRecord, Table}
use flowxrag.Retriever.Ingest.{Sizes}
use flowxrag.Retriever.Store.{Store, AddReport, Pages, add_pdf}
use flowxrag.Documents.Records.{Progress, update_db_status}

-- The knowledge base of the worker, and the records.
pub record Worker (V F : Type 0) : Type 0 where
  pub knowledge_base : Store V F
  pub records : Option (Table DocumentRecord)

-- The arguments of `_update_db_status` at its three calls.
abbrev pub processing : Option ℕ → Progress
processing uploaded_by = record {
  status = codes "processing";
  pages = 0;
  chunks = 0;
  uploaded_by = uploaded_by;
  error_message = none;
}

abbrev pub success : Option ℕ → AddReport → Progress
success uploaded_by report = record {
  status = codes "success";
  pages = report.pages;
  chunks = report.chunks_added;
  uploaded_by = uploaded_by;
  error_message = none;
}

-- The user who uploaded the file is not passed.
abbrev pub failed : Text → Progress
failed e = record {
  status = codes "failed";
  pages = 0;
  chunks = 0;
  uploaded_by = none;
  error_message = some e;
}

abbrev pub progress_of : Option ℕ → Result AddReport → Progress
progress_of uploaded_by (ok report) = success uploaded_by report
progress_of uploaded_by (raise e) = failed e

module _ (floats : Floats) (lower : Text → Text) (sizes : Sizes) {V : Type 0}
    (embed : List Text → Result (List V)) (fresh : ℕ → Text) where
  -- `read` is what the PDF reader makes of the file.
  unfoldable pub process_pdf_task :
      Result Pages
      → Text
      → Option ℕ
      → ℕ
      → Worker V (floats.F)
      → Result AddReport × Worker V (floats.F)
  unfolding add_pdf update_db_status
  process_pdf_task read filename uploaded_by now w =
      let begun = update_db_status filename (processing uploaded_by) now w.records in
      let added = add_pdf floats lower sizes embed fresh read filename w.knowledge_base in
      (
        added.0,
        record {
          knowledge_base = added.1;
          records = update_db_status filename (progress_of uploaded_by added.0) now begun;
        },
      )
