-- ===== src/Memory/Removal.antt =====
-- What a user is shown behind a deletion.
use flowxrag.Prelude.{
  ℕ, List, [], ◌∷◌, Bool, true, false, ◌==◌, Option, none, some, ◌≡◌, refl, sym, ◌∙◌, subst,
  Bool-cases, inl, inr, keep, All, All-both, All-map, All-take, All-keep, All-keep_self, OnSome,
  ==_iff,
}
use flowxrag.Prelude.Sort.{All-sort}
use flowxrag.Text.{Text}
use flowxrag.Float.{Floats}
use flowxrag.Models.{User, UserMemory, Table}
use flowxrag.Memory.Store.{
  in_scope, set_row, get_memory, delete_memory, deleting, turned_off, list_memories, shown,
  with_status, stands_before,
}
use flowxrag.Memory.Store.Laws.{head-OnSome}

contradiction {ℓ} : {A : Type ℓ} (b : Bool) → b ≡ true → b ≡ false → A
contradiction b h k = absurd cc

module _ {F : Type 0} where
  -- The rows of the id that the user has are not active.
  abbrev IsGone : Option User → ℕ → UserMemory F → Type 0
  IsGone user id m = in_scope user m ≡ true → m.id == id ≡ true → m.is_active ≡ false

  set_row-IsGone :
      (user : Option User) (id : ℕ) (new : UserMemory F) (rows : List (UserMemory F))
      → new.is_active ≡ false
      → All (IsGone user id) (set_row id new rows)
  unfolding set_row
  set_row-IsGone user id new [] off = tt
  set_row-IsGone user id new (m ∷ rows) off = elim (Bool-cases (m.id == id)) [
    | inl e ↦ rw e ((λ a b. off), set_row-IsGone user id new rows off)
    | inr e ↦ rw e ((λ a b. contradiction _ b e), set_row-IsGone user id new rows off)
  ]

  -- A search of the table that finds nothing.
  missed :
      (user : Option User) (id : ℕ) (rows : List (UserMemory F))
      → get_memory id user rows ≡ none
      → All (IsGone user id) rows
  unfolding get_memory
  missed user id [] h = tt
  missed user id (m ∷ rows) h = elim (Bool-cases (in_scope user m)) [
    | inl e ↦ elim (Bool-cases (m.id == id)) [
      | inl d ↦ absurd (some_none m (sym (here e d) ∙ h))
      | inr d ↦ ((λ a b. contradiction _ b d), missed user id rows (sym (there e d) ∙ h))
    ]
    | inr e ↦ ((λ a b. contradiction _ a e), missed user id rows (sym (away e) ∙ h))
  ]
    where
      some_none : (x : UserMemory F) → some x ≡ none → ⊥
      some_none x e = cc

      here : in_scope user m ≡ true → m.id == id ≡ true → get_memory id user (m ∷ rows) ≡ some m
      here e d = rw (e, d) refl

      there :
          in_scope user m ≡ true
          → m.id == id ≡ false
          → get_memory id user (m ∷ rows) ≡ get_memory id user rows
      there e d = rw (e, d) refl

      away : in_scope user m ≡ false → get_memory id user (m ∷ rows) ≡ get_memory id user rows
      away e = rw e refl

  found_id :
      (user : Option User) (id : ℕ) (rows : List (UserMemory F))
      → OnSome (λ m. m.id ≡ id) (get_memory id user rows)
  unfolding get_memory
  found_id user id rows =
      let mine = keep (in_scope user) rows in
      let same_id = keep (λ (m : UserMemory F). m.id == id) mine in
      head-OnSome _ same_id
        (All-map same_id (λ m e. (==_iff m.id id).0 e) (All-keep_self (λ m. m.id == id) mine))

module _ (floats : Floats) (lower : Text → Text) (collates : Text → Text → Bool)
    (stamp : UserMemory (floats.F) → UserMemory (floats.F) → ℕ) where
  open floats use {F}

  deleting-IsGone :
      (user : Option User) (id : ℕ) (t : Table (UserMemory F)) (o : Option (UserMemory F))
      → (o ≡ none → All (IsGone user id) t.rows)
      → OnSome (λ m. m.id ≡ id) o
      → All (IsGone user id) (deleting floats lower collates stamp t o).1.rows
  deleting-IsGone user id t none h k = h refl
  deleting-IsGone user id t (some m) h k =
      subst
        (λ n. All (IsGone user n) (set_row m.id (turned_off floats lower collates stamp m) t.rows))
        k (set_row-IsGone user m.id _ t.rows refl)

  -- Behind `delete_memory`, whether it finds the memory or not, no list of the user's active
  -- memories has one of that id, whatever status is asked for.
  pub list_memories-delete_memory :
      (user : Option User) (id : ℕ) (status : Option Text) (limit : ℕ) (t : Table (UserMemory F))
      → All
          (λ m. m.id == id ≡ false)
          (list_memories floats lower collates stamp user status false limit
            (delete_memory floats lower collates stamp id user t).1.rows)
  unfolding list_memories delete_memory
  list_memories-delete_memory user id status limit t =
      let rows = (deleting floats lower collates stamp t (get_memory id user t.rows)).1.rows in
      let mine = keep (in_scope user) rows in
      let kept = keep (with_status status) mine in
      let active_ones = keep (shown floats lower collates stamp false) kept in
      let gone =
        deleting-IsGone user id t (get_memory id user t.rows) (missed user id t.rows)
          (found_id user id t.rows) in
      All-take _ limit _ (
        All-sort (stands_before floats lower collates stamp) _ active_ones (
          All-map active_ones differ (
            All-both _ _ active_ones
              (All-keep _ _ kept (
                All-keep _ _ mine (
                  All-both _ _ mine (All-keep_self (in_scope user) rows)
                    (All-keep _ (in_scope user) rows gone))))
              (All-keep_self (shown floats lower collates stamp false) kept))))
    where
      differ :
          (m : UserMemory F)
          → ((in_scope user m ≡ true) × IsGone user id m) × (m.is_active ≡ true)
          → m.id == id ≡ false
      differ m h = elim (Bool-cases (m.id == id)) [
        | inl e ↦ contradiction m.is_active h.1 (h.0.1 h.0.0 e)
        | inr e ↦ e
      ]
