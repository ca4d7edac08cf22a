-- ===== src/Memory/Steps.antt =====
-- What the requests of one user do to the table of memories, one step after the other.
pub mod Laws
use flowxrag.Prelude.{ℕ, Bool, Option, some, ◌≡◌}
use flowxrag.Text.{Text}
use flowxrag.Float.{Floats}
use flowxrag.Models.{User, UserMemory, Table}
use flowxrag.Memory.Store.{
  Draft, Patch, create_memory, update_memory, get_memory, delete_memory, deactivate_all_memories,
}
use flowxrag.Memory.Turn.{recall}

module _ (floats : Floats) (lower : Text → Text) (collates : Text → Text → Bool)
    (stamp : UserMemory (floats.F) → UserMemory (floats.F) → ℕ) (format2 : floats.F → Text)
    (user : Option User) where
  open floats use {F}

  -- One call: a memory is created, changed by a route that has found it, deleted, all are
  -- deactivated, or a question recalls the first of them.
  pub data Step : Table (UserMemory F) → Table (UserMemory F) → Type 0 where
    created :
        (draft : Draft F) (now : ℕ) (t : Table (UserMemory F))
        → Step t (create_memory floats lower collates stamp user draft now t).1
    changed :
        (id : ℕ) (m : UserMemory F) (patch : Patch) (t : Table (UserMemory F))
        → get_memory id user t.rows ≡ some m
        → Step t (update_memory floats lower collates stamp m patch t).1
    deleted :
        (id : ℕ) (t : Table (UserMemory F))
        → Step t (delete_memory floats lower collates stamp id user t).1
    cleared :
        (t : Table (UserMemory F))
        → Step t (deactivate_all_memories floats lower collates stamp user t).1
    consulted :
        (now limit : ℕ) (t : Table (UserMemory F))
        → Step t (recall floats lower collates stamp format2 user limit now t).1

  pub data Steps : Table (UserMemory F) → Table (UserMemory F) → Type 0 where
    none_left : (t : Table (UserMemory F)) → Steps t t
    step_first : (t u v : Table (UserMemory F)) → Step t u → Steps u v → Steps t v
