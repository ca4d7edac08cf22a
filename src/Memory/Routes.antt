-- ===== src/Memory/Routes.antt =====
-- The routes of backend/api/v1/memories.py, behind the tests of their schemas. `db` is `none` where
-- no database is configured; a response takes its fields from the row.
use flowxrag.Prelude.{ℕ, List, Bool, false, Option, none, some, if◌then◌else◌}
use flowxrag.Text.{Text, codes}
use flowxrag.Float.{Floats}
use flowxrag.Api.{Reply, done, app_error, not_found, internal_error}
use flowxrag.Models.{User, UserMemory, Table}
use flowxrag.Memory.Extract.{hundredths}
use flowxrag.Memory.Store.{
  Draft, Patch, list_memories, create_memory, update_memory, get_memory, delete_memory,
  deactivate_all_memories,
}

-- `MemoryCreate`; `MemoryUpdate` is `Patch`.
pub record MemoryCreate : Type 0 where
  pub content : Text
  pub category : Text
  pub memory_key : Option Text
  pub status : Text

abbrev pub no_database {ℓ} : {A : Type ℓ} → Reply A
no_database = app_error internal_error (codes "Database is not configured") 503

abbrev pub memory_not_found {ℓ} : {A : Type ℓ} → Reply A
memory_not_found = app_error not_found (codes "Memory not found") 404

module _ (floats : Floats) (lower : Text → Text) (collates : Text → Text → Bool)
    (stamp : UserMemory (floats.F) → UserMemory (floats.F) → ℕ) where
  open floats use {F, of_ℕ}

  abbrev pub Db : Type 0
  Db = Option (Table (UserMemory F))

  unfoldable pub get_memories : Option Text → Bool → Option User → Db → Reply (List (UserMemory F))
  unfolding list_memories
  get_memories status include_inactive user none = no_database
  get_memories status include_inactive user (some t) =
      done (list_memories floats lower collates stamp user status include_inactive 100 t.rows)

  abbrev pub manual_draft : MemoryCreate → Draft F
  manual_draft req = record {
    content = req.content;
    category = req.category;
    memory_key = req.memory_key;
    status = req.status;
    source = codes "manual";
    confidence = hundredths floats lower 100;
    importance = hundredths floats lower 80;
    source_session_id = none;
    source_message_id = none;
    is_sensitive = false;
    reason = none;
  }

  unfoldable pub add_memory : MemoryCreate → Option User → ℕ → Db → Reply (UserMemory F) × Db
  unfolding create_memory
  add_memory req user now none = (no_database, none)
  add_memory req user now (some t) =
      let (m, t') = create_memory floats lower collates stamp user (manual_draft req) now t in
      (done m, some t')

  abbrev pub patching :
      Patch → Table (UserMemory F) → Option (UserMemory F) → Reply (UserMemory F) × Db
  patching req t none = (memory_not_found, some t)
  patching req t (some m) =
      let (new, t') = update_memory floats lower collates stamp m req t in (done new, some t')

  unfoldable pub patch_memory : ℕ → Patch → Option User → Db → Reply (UserMemory F) × Db
  unfolding get_memory update_memory
  patch_memory memory_id req user none = (no_database, none)
  patch_memory memory_id req user (some t) = patching req t (get_memory memory_id user t.rows)

  unfoldable pub remove_memory : ℕ → Option User → Db → Reply (Unit {0}) × Db
  unfolding delete_memory
  remove_memory memory_id user none = (no_database, none)
  remove_memory memory_id user (some t) =
      let (deleted, t') = delete_memory floats lower collates stamp memory_id user t in
      (if deleted then done tt else memory_not_found, some t')

  -- The number of memories that are deactivated
  unfoldable pub clear_memories : Option User → Db → Reply ℕ × Db
  unfolding deactivate_all_memories
  clear_memories user none = (no_database, none)
  clear_memories user (some t) =
      let (count, t') = deactivate_all_memories floats lower collates stamp user t in
      (done count, some t')
