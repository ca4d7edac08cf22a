-- ===== src/Documents/Records.antt =====
-- The records of the documents, which `_update_db_status` of backend/tasks/document_tasks.py writes
-- and `cleanup_old_tasks_task` of backend/tasks/scheduled_tasks.py deletes. `none` is a process
-- without `DATABASE_URL`.
pub mod Laws
use flowxrag.Prelude.{
  ℕ, ◌-◌, ◌*◌, List, [], ◌∷◌, Bool, true, false, not, ◌&&◌, ltb, Option, none, some, if◌then◌else◌,
  keep, length,
}
use flowxrag.Text.{Text, codes, same}
use flowxrag.Models.{DocumentRecord, Table, add_row}
use flowxrag.Memory.Store.{head}

-- What a call writes into a record.
pub record Progress : Type 0 where
  pub status : Text
  pub pages : ℕ
  pub chunks : ℕ
  pub uploaded_by : Option ℕ
  pub error_message : Option Text

abbrev pub with_progress : Progress → DocumentRecord → DocumentRecord
with_progress p r = record r {
  status = p.status;
  pages = p.pages;
  chunks = p.chunks;
  uploaded_by = p.uploaded_by;
  error_message = p.error_message;
}

-- `DocumentRecord(filename=filename)`, with the defaults of its columns
abbrev pub new_record : Text → ℕ → ℕ → DocumentRecord
new_record filename now id = record {
  id = id;
  filename = filename;
  pages = 0;
  chunks = 0;
  status = codes "pending";
  uploaded_by = none;
  error_message = none;
  created_at = now;
}

-- `filter_by(filename=filename).first()`; the rows come in the order of insertion.
unfoldable pub find_record : Text → List DocumentRecord → Option DocumentRecord
find_record filename rows = head (keep (λ r. same r.filename filename) rows)

-- The change of the record that is found.
unfoldable pub change_first : Text → Progress → List DocumentRecord → List DocumentRecord
change_first filename p [] = []
change_first filename p (r ∷ rows) =
    let rest = change_first filename p rows in
    if same r.filename filename then with_progress p r ∷ rows else r ∷ rest

abbrev pub updated :
    Text → Progress → ℕ → Table DocumentRecord → Option DocumentRecord → Table DocumentRecord
updated filename p now t none = add_row (λ id. with_progress p (new_record filename now id)) t
updated filename p now t (some r) = record t { rows = change_first filename p t.rows }

unfoldable pub update_db_status :
    Text → Progress → ℕ → Option (Table DocumentRecord) → Option (Table DocumentRecord)
unfolding find_record change_first
update_db_status filename p now none = none
update_db_status filename p now (some t) =
    some (updated filename p now t (find_record filename t.rows))

abbrev pub is_old : ℕ → DocumentRecord → Bool
is_old cutoff r = same r.status (codes "failed") && ltb r.created_at cutoff

-- With the number of records that are deleted; an instant is a number of seconds.
unfoldable pub cleanup_old_tasks :
    ℕ → ℕ → Option (Table DocumentRecord) → Option ℕ × Option (Table DocumentRecord)
cleanup_old_tasks days now none = (none, none)
cleanup_old_tasks days now (some t) =
    let cutoff = now - days * 86400 in
    (
      some (length (keep (is_old cutoff) t.rows)),
      some (record t { rows = keep (λ r. not (is_old cutoff r)) t.rows }),
    )
