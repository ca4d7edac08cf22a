-- ===== src/Tests/Documents.antt =====
-- Runs of the task that indexes a PDF.
use flowxrag.Prelude.{ℕ, [], ◌∷◌, none, some, OnSome, ◌≡◌, refl, length, map}
use flowxrag.Text.{decimal}
use flowxrag.Effects.{ok}
use flowxrag.Models.{DocumentRecord, Table}
use flowxrag.Retriever.Ingest.{chunks_from_reader}
use flowxrag.Retriever.Chunking.{split_text}
use flowxrag.Documents.Records.{find_record, cleanup_old_tasks}
use flowxrag.Documents.Records.Laws.{other_records}
use flowxrag.Documents.Tasks.{Worker, process_pdf_task}
use flowxrag.Documents.Tasks.Laws.{IsRecorded, process_pdf_task-IsRecorded}
use flowxrag.Tests.Values.{thousandths, ascii_lower}
use flowxrag.Tests.Store.{sizes, pages, embed, broken, empty_store, guide}

abbrev no_records : Table DocumentRecord
no_records = record { rows = []; ids = 1 }

abbrev worker : Worker ℕ ℕ
worker = record { knowledge_base = empty_store; records = some no_records }

-- An attempt whose embedding raises, and the next one.
abbrev interrupted : Worker ℕ ℕ
interrupted =
    (process_pdf_task thousandths ascii_lower sizes broken decimal (ok pages) guide (some 1) 7
      worker).1

abbrev retried : Worker ℕ ℕ
retried =
    (process_pdf_task thousandths ascii_lower sizes embed decimal (ok pages) guide (some 1) 8
      interrupted).1

-- The chunks of the first attempt stay, and the second adds the three chunks again.
twice : length retried.knowledge_base.chunks ≡ 6
unfolding process_pdf_task chunks_from_reader split_text
twice = refl

-- A failure forgets who uploaded the file.
forgotten :
    OnSome (λ t. map (λ (r : DocumentRecord). r.uploaded_by) t.rows ≡ none ∷ []) interrupted.records
unfolding process_pdf_task chunks_from_reader split_text
forgotten = refl

-- The record of the failure is deleted after a week.
cleaned : (cleanup_old_tasks 7 604809 interrupted.records).0 ≡ some 1
unfolding cleanup_old_tasks process_pdf_task chunks_from_reader split_text
cleaned = refl

process_pdf_task-IsRecorded_example :
    let after =
      process_pdf_task thousandths ascii_lower sizes embed decimal
        (ok pages)
        guide
        (some 1)
        7
        worker in
    OnSome
      (λ t'.
        ((r : DocumentRecord) × (find_record guide t'.rows ≡ some r)
          × IsRecorded (some 1) after.0 r)
        × (other_records guide t'.rows ≡ other_records guide []))
      after.1.records
process_pdf_task-IsRecorded_example =
    process_pdf_task-IsRecorded thousandths ascii_lower sizes embed decimal (ok pages) guide
      (some 1) 7 worker no_records refl
