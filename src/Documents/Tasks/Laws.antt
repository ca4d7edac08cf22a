-- ===== src/Documents/Tasks/Laws.antt =====
-- What an attempt to index a PDF leaves in the records.
use flowxrag.Prelude.{ℕ, List, Option, none, some, OnSome, ◌≡◌, refl, ◌∙◌}
use flowxrag.Text.{Text, codes}
use flowxrag.Float.{Floats}
use flowxrag.Effects.{Result, ok, raise}
use flowxrag.Models.{DocumentRecord, Table}
use flowxrag.Retriever.Ingest.{Sizes}
use flowxrag.Retriever.Store.{Pages, AddReport, add_pdf}
use flowxrag.Documents.Records.{with_progress, find_record, update_db_status, updated}
use flowxrag.Documents.Records.Laws.{other_records, updated-Says}
use flowxrag.Documents.Tasks.{Worker, process_pdf_task, progress_of, processing}

-- What is known of a file's record behind an attempt.
abbrev pub IsRecorded : Option ℕ → Result AddReport → DocumentRecord → Type 0
IsRecorded uploaded_by (ok report) r =
    (r.status ≡ codes "success")
    × (r.pages ≡ report.pages)
    × (r.chunks ≡ report.chunks_added)
    × (r.uploaded_by ≡ uploaded_by)
    × (r.error_message ≡ none)
IsRecorded uploaded_by (raise e) r =
    (r.status ≡ codes "failed")
    × (r.pages ≡ 0)
    × (r.chunks ≡ 0)
    × (r.uploaded_by ≡ none)
    × (r.error_message ≡ some e)

with_progress-IsRecorded :
    (uploaded_by : Option ℕ) (report : Result AddReport) (r : DocumentRecord)
    → IsRecorded uploaded_by report (with_progress (progress_of uploaded_by report) r)
with_progress-IsRecorded uploaded_by (ok report) r = (refl, refl, refl, refl, refl)
with_progress-IsRecorded uploaded_by (raise e) r = (refl, refl, refl, refl, refl)

module _ (floats : Floats) (lower : Text → Text) (sizes : Sizes) {V : Type 0}
    (embed : List Text → Result (List V)) (fresh : ℕ → Text) where
  -- With a database, the record that is found of the file behind an attempt says: where the
  -- indexing returned its report, `success` with the report's pages and added chunks, the uploader
  -- and no message; where it raised, `failed` with no pages, chunks or uploader and with the
  -- message. The records of the other files stay as they are.
  pub process_pdf_task-IsRecorded :
      (read : Result Pages) (filename : Text) (uploaded_by : Option ℕ) (now : ℕ)
      (w : Worker V (floats.F)) (t : Table DocumentRecord)
      → w.records ≡ some t
      → (let after =
            process_pdf_task floats lower sizes embed fresh read filename uploaded_by now w in
          OnSome
            (λ t'.
              ((r : DocumentRecord) × (find_record filename t'.rows ≡ some r)
                × IsRecorded uploaded_by after.0 r)
              × (other_records filename t'.rows ≡ other_records filename t.rows))
            after.1.records)
  unfolding process_pdf_task update_db_status
  process_pdf_task-IsRecorded read filename uploaded_by now w t e =
      let begun = updated filename (processing uploaded_by) now t (find_record filename t.rows) in
      let report = (add_pdf floats lower sizes embed fresh read filename w.knowledge_base).0 in
      let first = updated-Says filename (processing uploaded_by) now t in
      let last = updated-Says filename (progress_of uploaded_by report) now begun in
      let r = with_progress (progress_of uploaded_by report) last.0.0 in
      rw e ((r, last.0.1, with_progress-IsRecorded uploaded_by report last.0.0), last.1 ∙ first.1)
