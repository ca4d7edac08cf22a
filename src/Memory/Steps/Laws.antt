-- ===== src/Memory/Steps/Laws.antt =====
-- What a user's requests keep: the ids of the table, and the memories of the others.
use flowxrag.Prelude.{
  ℕ, List, [], ◌∷◌, Bool, true, false, Option, none, some, ◌≡◌, refl, ◌∙◌, subst, Bool-cases, inl,
  inr, keep, All, All-map, All-take, OnSome, All-keep,
}
use flowxrag.Prelude.Sort.{All-sort}
use flowxrag.Text.{Text, same}
use flowxrag.Float.{Floats}
use flowxrag.Models.{User, UserMemory, Table}
use flowxrag.Memory.Store.{
  Draft, Patch, in_scope, set_row, create_memory, update_memory, delete_memory,
  deactivate_all_memories, new_memory, merged, patched, storing, deleting, off_in_scope, turned_off,
  rejected, active, list_memories,
}
use flowxrag.Memory.Store.Laws.{
  IsSound, Kept, IsOwned, get_memory-IsOwned, find_by_key-IsOwned, set_row-Kept, add_row-Kept,
  map-Kept, set_row-IsOwned, owned, turned_off-in_scope, new_memory-in_scope, merged-in_scope,
  new_memory-in_scope, merged-in_scope,
}
use flowxrag.Memory.Turn.{recall, recalled, touch_all, used}
use flowxrag.Memory.Steps.{
  Step, Steps, created, changed, deleted, cleared, consulted, none_left, step_first,
}

module _ {F : Type 0} where
  pub Kept-refl : (user : Option User) (t : Table (UserMemory F)) → IsSound t → Kept user t t
  Kept-refl user t h = (h, refl)

  pub Kept-trans :
      (user : Option User) (t u v : Table (UserMemory F))
      → Kept user t u
      → Kept user u v
      → Kept user t v
  Kept-trans user t u v h k = (k.0, k.1 ∙ h.1)

module _ (floats : Floats) (lower : Text → Text) (collates : Text → Text → Bool)
    (stamp : UserMemory (floats.F) → UserMemory (floats.F) → ℕ) (format2 : floats.F → Text)
    (user : Option User) where
  open floats use {F}

  storing-Kept :
      (normalized key : Text) (draft : Draft F) (now : ℕ) (t : Table (UserMemory F))
      (o : Option (UserMemory F))
      → IsSound t
      → OnSome (IsOwned user t.rows) o
      → Kept user t (storing floats lower collates stamp user normalized key draft now t o).1
  storing-Kept normalized key draft now t none h own =
      add_row-Kept user t (new_memory floats lower collates stamp user normalized key draft now) h
        refl (new_memory-in_scope floats lower collates stamp user normalized key draft now t.ids)
  storing-Kept normalized key draft now t (some m) h own =
      elim (Bool-cases (same m.status rejected)) [
        | inl e ↦ rw e (
            add_row-Kept user t
              (new_memory floats lower collates stamp user normalized key draft now) h refl
              (new_memory-in_scope floats lower collates stamp user normalized key draft now t.ids))
        | inr e ↦ rw e (
            set_row-Kept user t m (merged floats lower collates stamp normalized draft m) h own refl
              (merged-in_scope floats lower collates stamp user normalized draft m own.0))
      ]

  pub create_memory-Kept :
      (draft : Draft F) (now : ℕ) (t : Table (UserMemory F))
      → IsSound t
      → Kept user t (create_memory floats lower collates stamp user draft now t).1
  unfolding create_memory
  create_memory-Kept draft now t h =
      storing-Kept _ _ draft now t _ h (find_by_key-IsOwned user _ t.rows h.0)

  patched-id :
      (m : UserMemory F) (patch : Patch) (o : Option Text)
      → o ≡ patch.status
      → (patched floats lower collates stamp m patch).id ≡ m.id
  patched-id m patch none e = rw (← e) refl
  patched-id m patch (some status) e = rw (← e) refl

  patched-in_scope :
      (m : UserMemory F) (patch : Patch) (o : Option Text)
      → o ≡ patch.status
      → in_scope user m ≡ true
      → in_scope user (patched floats lower collates stamp m patch) ≡ true
  unfolding in_scope
  patched-in_scope m patch none e h = rw (← e) h
  patched-in_scope m patch (some status) e h = rw (← e) h

  update_memory-Kept :
      (m : UserMemory F) (patch : Patch) (t : Table (UserMemory F))
      → IsSound t
      → IsOwned user t.rows m
      → Kept user t (update_memory floats lower collates stamp m patch t).1
  unfolding update_memory
  update_memory-Kept m patch t h own =
      set_row-Kept user t m (patched floats lower collates stamp m patch) h own
        (patched-id m patch patch.status refl) (patched-in_scope m patch patch.status refl own.0)

  deleting-Kept :
      (t : Table (UserMemory F)) (o : Option (UserMemory F))
      → IsSound t
      → OnSome (IsOwned user t.rows) o
      → Kept user t (deleting floats lower collates stamp t o).1
  deleting-Kept t none h own = Kept-refl user t h
  deleting-Kept t (some m) h own =
      set_row-Kept user t m (turned_off floats lower collates stamp m) h own refl
        (turned_off-in_scope floats lower collates stamp user m true own.0)

  deactivate_all_memories-Kept :
      (t : Table (UserMemory F))
      → IsSound t
      → Kept user t (deactivate_all_memories floats lower collates stamp user t).1
  unfolding deactivate_all_memories
  deactivate_all_memories-Kept t h =
      map-Kept user (off_in_scope floats lower collates stamp user) t off-id off-in_scope off-fixed
        h
    where
      off-id : (m : UserMemory F) → (off_in_scope floats lower collates stamp user m).id ≡ m.id
      off-id m = elim (Bool-cases (in_scope user m)) [ inl e ↦ rw e refl | inr e ↦ rw e refl ]

      off-in_scope :
          (m : UserMemory F)
          → in_scope user (off_in_scope floats lower collates stamp user m) ≡ in_scope user m
      off-in_scope m = elim (Bool-cases (in_scope user m)) [
        | inl e ↦ rw e (turned_off-in_scope floats lower collates stamp user m true e)
        | inr e ↦ rw e e
      ]

      off-fixed :
          (m : UserMemory F)
          → in_scope user m ≡ false
          → off_in_scope floats lower collates stamp user m ≡ m
      off-fixed m e = rw e refl

  used-in_scope :
      (now : ℕ) (m : UserMemory F)
      → in_scope user m ≡ true
      → in_scope user (used floats lower collates stamp format2 now m) ≡ true
  unfolding in_scope
  used-in_scope now m h = h

  touch_all-Kept :
      (now : ℕ) (memories : List (UserMemory F)) (t : Table (UserMemory F))
      → IsSound t
      → All (IsOwned user t.rows) memories
      → Kept user t (touch_all floats lower collates stamp format2 now memories t)
  unfolding touch_all
  touch_all-Kept now [] t h own = Kept-refl user t h
  touch_all-Kept now (m ∷ memories) t h own =
      let new = used floats lower collates stamp format2 now m in
      let t' = record t { rows = set_row m.id new t.rows } in
      let k = set_row-Kept user t m new h own.0 refl (used-in_scope now m own.0.0) in
      Kept-trans user t t' _ k (
        touch_all-Kept now memories t' k.0 (
          All-map memories
            (λ x o. set_row-IsOwned user m.id new x t.rows (used-in_scope now m own.0.0) o) own.1))

  list_memories-All :
      (P : UserMemory F → Type 0) (status : Option Text) (inactive : Bool) (limit : ℕ)
      (rows : List (UserMemory F))
      → All P (keep (in_scope user) rows)
      → All P (list_memories floats lower collates stamp user status inactive limit rows)
  unfolding list_memories
  list_memories-All P status inactive limit rows h =
      All-take P limit _
        (All-sort _ P _ (All-keep P _ _ (All-keep P _ (keep (in_scope user) rows) h)))

  recalled-Kept :
      (now : ℕ) (memories : List (UserMemory F)) (t : Table (UserMemory F))
      → IsSound t
      → All (IsOwned user t.rows) memories
      → Kept user t (recalled floats lower collates stamp format2 now memories t).1
  recalled-Kept now [] t h own = Kept-refl user t h
  recalled-Kept now (m ∷ memories) t h own = touch_all-Kept now (m ∷ memories) t h own

  recall-Kept :
      (limit now : ℕ) (t : Table (UserMemory F))
      → IsSound t
      → Kept user t (recall floats lower collates stamp format2 user limit now t).1
  unfolding recall
  recall-Kept limit now t h = recalled-Kept now _ t h (
      list_memories-All (IsOwned user t.rows) (some active) false limit t.rows
        (owned user t.rows h.0))

  Step-Kept :
      (t u : Table (UserMemory F))
      → Step floats lower collates stamp format2 user t u
      → IsSound t
      → Kept user t u
  unfolding delete_memory
  Step-Kept t _ (created draft now _) h = create_memory-Kept draft now t h
  Step-Kept t _ (changed id m patch _ e) h =
      update_memory-Kept m patch t h
        (subst (OnSome (IsOwned user t.rows)) e (get_memory-IsOwned user id t.rows h.0))
  Step-Kept t _ (deleted id _) h = deleting-Kept t _ h (get_memory-IsOwned user id t.rows h.0)
  Step-Kept t _ (cleared _) h = deactivate_all_memories-Kept t h
  Step-Kept t _ (consulted now limit _) h = recall-Kept limit now t h

  -- However many calls a user makes, the ids of the table stay apart and the rows of the others
  -- stay as they are.
  pub Steps-Kept :
      (t u : Table (UserMemory F))
      → Steps floats lower collates stamp format2 user t u
      → IsSound t
      → Kept user t u
  Steps-Kept t _ (none_left _) h = Kept-refl user t h
  Steps-Kept t _ (step_first _ u v s rest) h =
      let k = Step-Kept t u s h in Kept-trans user t u v k (Steps-Kept u v rest k.0)
