-- ===== src/Documents/Routes.antt =====
-- `upload_document` and `delete_document` of backend/api/v1/documents.py. The messages to MySQL and
-- Kafka answer whether they were sent, and change nothing here; metrics are left out.
use flowxrag.Prelude.{
  ℕ, List, ◌++◌, Bool, true, false, not, ◌||◌, ltb, Option, none, some, if◌then◌else◌,
}
use flowxrag.Text.{Text, codes, ends_with}
use flowxrag.Float.{Floats}
use flowxrag.Effects.{Result, ok, raise}
use flowxrag.Api.{Reply, done, crashed, app_error, doc_invalid_format, doc_upload_failed}
use flowxrag.Models.{User, DocumentRecord, Table, add_row}
use flowxrag.Retriever.Ingest.{Sizes}
use flowxrag.Retriever.Store.{
  Store, AddReport, Pages, add_pdf, delete_source, DeleteReport, no_source, deletion,
}
use flowxrag.Chat.Cache.{Redis, Settings, acquire_lock, release_lock}
use flowxrag.Documents.Tasks.{Worker}

pub record UploadReport : Type 0 where
  pub cdc_persisted : Bool
  pub kafka_event_published : Bool
  pub report : AddReport

pub record DeleteAnswer : Type 0 where
  pub status : Text
  pub cdc_persisted : Bool
  pub kafka_event_published : Bool
  pub report : DeleteReport

abbrev pub uploader : Option User → Option ℕ
uploader none = none
uploader (some u) = some u.id

abbrev pub uploaded_record : Text → Option User → AddReport → ℕ → ℕ → DocumentRecord
uploaded_record filename user report now id = record {
  id = id;
  filename = filename;
  pages = report.pages;
  chunks = report.chunks_added;
  status = codes "success";
  uploaded_by = uploader user;
  error_message = none;
  created_at = now;
}

abbrev pub with_upload :
    Text
    → Option User
    → AddReport
    → ℕ
    → Option (Table DocumentRecord)
    → Option (Table DocumentRecord)
with_upload filename user report now none = none
with_upload filename user report now (some t) =
    some (add_row (uploaded_record filename user report now) t)

abbrev pub upload_failed {ℓ} : {A : Type ℓ} → Text → Reply A
upload_failed e = app_error doc_upload_failed (codes "文件入库失败：" ++ e) 500

-- `upsert_document_record`, or `publish_document_change` where that has not persisted the change
abbrev pub reported : Bool → Bool → AddReport → UploadReport
reported cdc kafka report = record {
  cdc_persisted = cdc;
  kafka_event_published = cdc || kafka;
  report = report;
}

module _ (floats : Floats) (lower : Text → Text) (sizes : Sizes) {V : Type 0}
    (embed : List Text → Result (List V)) (fresh : ℕ → Text) (redis : Redis) (settings : Settings)
    (digest : Text → Text) where
  open redis use {Server}

  abbrev pub Place : Type 0
  Place = Worker V (floats.F) × Option Server

  abbrev pub indexed :
      Text
      → Option User
      → ℕ
      → Bool
      → Bool
      → Option (Table DocumentRecord)
      → Result AddReport × Store V (floats.F)
      → Reply UploadReport × Worker V (floats.F)
  indexed filename user now cdc kafka records (raise e, kb) =
      (upload_failed e, record { knowledge_base = kb; records = records })
  indexed filename user now cdc kafka records (ok report, kb) = (
    done (reported cdc kafka report),
    record { knowledge_base = kb; records = with_upload filename user report now records },
  )

  -- The `try`, from the stored file, or what storing it raises, on.
  abbrev pub storing_file :
      Text
      → Option User
      → ℕ
      → Bool
      → Bool
      → Result (Result Pages)
      → Worker V (floats.F)
      → Reply UploadReport × Worker V (floats.F)
  storing_file filename user now cdc kafka (raise e) w = (upload_failed e, w)
  storing_file filename user now cdc kafka (ok read) w =
      indexed filename user now cdc kafka w.records
        (add_pdf floats lower sizes embed fresh read filename w.knowledge_base)

  abbrev pub upload_lock : Text → Text
  upload_lock filename = codes "upload:" ++ filename

  abbrev pub locked : Text → Option Server → Bool × Option Server
  locked filename none = (true, none)
  locked filename (some s) =
      let (taken, s') = acquire_lock redis settings digest lower (upload_lock filename) s in
      (taken, some s')

  -- The `finally`
  abbrev pub unlocked : Text → Option Server → Option Server
  unlocked filename none = none
  unlocked filename (some s) =
      some (release_lock redis settings digest lower (upload_lock filename) s)

  -- `stored` is the result of `save_upload`, with what the PDF reader then makes of the file.
  unfoldable pub upload_document :
      Text
      → Result (Result Pages)
      → Bool
      → Bool
      → Option User
      → ℕ
      → Place
      → Reply UploadReport × Place
  unfolding add_pdf acquire_lock release_lock
  upload_document filename stored cdc kafka user now (w, server) =
      let lock = locked filename server in
      let run = storing_file filename user now cdc kafka stored w in
      if not (ends_with (codes ".pdf") (lower filename))
      then (app_error doc_invalid_format (codes "仅支持 PDF 文件") 400, (w, server))
      else (if not lock.0
          then (app_error doc_upload_failed (codes "文件正在处理中，请稍后") 409, (w, lock.1))
          else (run.0, (run.1, unlocked filename lock.1)))

  -- `result["chunks_removed"] or result["uploads_deleted"]`
  abbrev pub was_found : DeleteReport → Bool
  was_found (no_source name) = false
  was_found (deletion d) = ltb 0 d.chunks_removed || ltb 0 d.uploads_deleted

  abbrev pub answered_deletion : Bool → Bool → Result DeleteReport → Reply DeleteAnswer
  answered_deletion cdc kafka (raise e) = crashed e
  answered_deletion cdc kafka (ok report) = done (record {
    status = if was_found report then codes "ok" else codes "not_found";
    cdc_persisted = cdc;
    kafka_event_published = cdc || kafka;
    report = report;
  })

  unfoldable pub delete_document :
      (Text → Option Text)
      → Text
      → Bool
      → Bool
      → Worker V (floats.F)
      → Reply DeleteAnswer × Worker V (floats.F)
  unfolding delete_source
  delete_document resolve source cdc kafka w =
      let (report, kb) =
        delete_source floats lower sizes embed fresh resolve source w.knowledge_base in
      (answered_deletion cdc kafka report, record w { knowledge_base = kb })
