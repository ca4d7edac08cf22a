-- ===== src/Memory/Turn/Laws.antt =====
-- What a turn stores.
use flowxrag.Prelude.{
  ℕ, List, [], ◌∷◌, Bool, true, false, not, ◌&&◌, ◌||◌, Option, none, some, ◌≡◌, refl, sym,
  Bool-cases, inl, inr, All, OnSome, ◌⊎◌, subst, ◌∙◌, All-append, All-both, All-map, if◌then◌else◌,
}
use flowxrag.Text.{Text, same}
use flowxrag.Float.{Floats}
use flowxrag.Effects.{Result, Log}
use flowxrag.Models.{User, UserMemory, Table}
use flowxrag.Memory.Keys.{
  normalize_memory, normalize_key, infer_memory_key, or_text, looks_ephemeral, is_sensitive,
}
use flowxrag.Memory.Extract.{Candidate, LlmItem, get, extract_memory_candidates}
use flowxrag.Memory.Extract.Laws.{extract_memory_candidates-IsChosen}
use flowxrag.Memory.Store.{
  Draft, in_scope, find_by_key, create_memory, storing, rejected, merged, adding, set_row,
}
use flowxrag.Memory.Store.Laws.{
  IsSound, Kept, IsOwned, find_by_key-IsOwned, new_memory-in_scope, merged-in_scope, set_row-All,
}
use flowxrag.Memory.Turn.{is_stored, draft_of, store_all, maybe_store_memories_from_turn}
use flowxrag.Memory.Steps.Laws.{create_memory-Kept, Kept-refl, Kept-trans}

module _ (floats : Floats) (lower : Text → Text) (collates : Text → Text → Bool)
    (stamp : UserMemory (floats.F) → UserMemory (floats.F) → ℕ) (format2 : floats.F → Text)
    (user : Option User) where
  open floats use {F}

  -- A text is the content of one of the candidates.
  abbrev pub IsContentOf : List (Candidate F) → Text → Type 0
  IsContentOf [] text = ⊥
  IsContentOf (c ∷ cs) text = (text ≡ c.content) ⊎ IsContentOf cs text

  -- A row that may be stored for the candidates: it is the user's, it is active, its content is
  -- that of a candidate and is neither about the moment nor sensitive.
  abbrev pub IsFine : List (Candidate F) → UserMemory F → Type 0
  IsFine cs m =
      (in_scope user m ≡ true)
      × (m.is_active ≡ true)
      × IsContentOf cs m.content
      × (looks_ephemeral lower m.content || is_sensitive lower m.content ≡ false)

  -- The row is one of the rows.
  abbrev pub IsRow : List (UserMemory F) → UserMemory F → Type 0
  IsRow [] m = ⊥
  IsRow (r ∷ rows) m = (m ≡ r) ⊎ IsRow rows m

  All-IsRow : (rows : List (UserMemory F)) → All (IsRow rows) rows
  All-IsRow [] = tt
  All-IsRow (r ∷ rows) = (inl refl, All-map rows (λ m h. inr h) (All-IsRow rows))

  All-IsContentOf : (cs : List (Candidate F)) → All (λ c. IsContentOf cs c.content) cs
  All-IsContentOf [] = tt
  All-IsContentOf (c ∷ cs) = (inl refl, All-map cs (λ d h. inr h) (All-IsContentOf cs))

  -- What a creation returns of a content.
  abbrev IsMade : Text → UserMemory F → Type 0
  IsMade content m = (in_scope user m ≡ true) × (m.is_active ≡ true) × (m.content ≡ content)

  storing-IsMade :
      (normalized key : Text) (draft : Draft F) (now : ℕ) (t : Table (UserMemory F))
      (o : Option (UserMemory F))
      → OnSome (IsOwned user t.rows) o
      → IsMade normalized (storing floats lower collates stamp user normalized key draft now t o).0
  storing-IsMade normalized key draft now t none own = (
    new_memory-in_scope floats lower collates stamp user normalized key draft now t.ids,
    refl,
    refl,
  )
  storing-IsMade normalized key draft now t (some m) own =
      elim (Bool-cases (same m.status rejected)) [
        | inl e ↦ rw e (
          new_memory-in_scope floats lower collates stamp user normalized key draft now t.ids,
          refl,
          refl,
        )
        | inr e ↦
            rw e (
              merged-in_scope floats lower collates stamp user normalized draft m own.0,
              refl,
              refl,
            )
      ]

  create_memory-IsMade :
      (draft : Draft F) (now : ℕ) (t : Table (UserMemory F))
      → IsSound t
      → IsMade
          (normalize_memory draft.content)
          (create_memory floats lower collates stamp user draft now t).0
  unfolding create_memory
  create_memory-IsMade draft now t h =
      storing-IsMade _ _ draft now t _ (find_by_key-IsOwned user _ t.rows h.0)

  -- A creation puts the row that it returns into the table, and no other.
  storing-All :
      (P : UserMemory F → Type 0) (normalized key : Text) (draft : Draft F) (now : ℕ)
      (t : Table (UserMemory F)) (o : Option (UserMemory F))
      → P (storing floats lower collates stamp user normalized key draft now t o).0
      → All P t.rows
      → All P (storing floats lower collates stamp user normalized key draft now t o).1.rows
  storing-All P normalized key draft now t none p h = All-append P t.rows _ h (p, tt)
  storing-All P normalized key draft now t (some m) p h = chosen (same m.status rejected) p
    where
      new : UserMemory F
      new = merged floats lower collates stamp normalized draft m

      made : UserMemory F × Table (UserMemory F)
      made = adding floats lower collates stamp user normalized key draft now t

      chosen :
          (b : Bool)
          → P (if b then made else (new, record t { rows = set_row m.id new t.rows })).0
          → All P (if b then made else (new, record t { rows = set_row m.id new t.rows })).1.rows
      chosen true q = All-append P t.rows _ h (q, tt)
      chosen false q = set_row-All P m.id new t.rows q h

  create_memory-All :
      (P : UserMemory F → Type 0) (draft : Draft F) (now : ℕ) (t : Table (UserMemory F))
      → P (create_memory floats lower collates stamp user draft now t).0
      → All P t.rows
      → All P (create_memory floats lower collates stamp user draft now t).1.rows
  unfolding create_memory
  create_memory-All P draft now t p h =
      let normalized = normalize_memory draft.content in
      let inferred = infer_memory_key draft.category normalized in
      let key = normalize_key lower (or_text (get draft.memory_key []) inferred) in
      storing-All P normalized key draft now t (find_by_key user key t.rows) p h

  is_stored-fine :
      (c : Candidate F)
      → is_stored floats lower collates stamp format2 c ≡ true
      → looks_ephemeral lower c.content || is_sensitive lower c.content ≡ false
  unfolding is_stored
  is_stored-fine c h = passed (looks_ephemeral lower c.content || is_sensitive lower c.content) _ h
    where
      passed : (x y : Bool) → not x && y ≡ true → x ≡ false
      passed true y h = sym h
      passed false y h = refl

  -- The candidate may be looked for among all of them, and normalizing does not change it.
  abbrev IsGiven : List (Candidate F) → Candidate F → Type 0
  IsGiven all c = IsContentOf all c.content × (normalize_memory c.content ≡ c.content)

  made-IsFine :
      (all : List (Candidate F)) (c : Candidate F) (m : UserMemory F)
      → IsGiven all c
      → is_stored floats lower collates stamp format2 c ≡ true
      → IsMade (normalize_memory c.content) m
      → IsFine all m
  made-IsFine all c m g e h =
      let same_content = h.2 ∙ g.1 in
      (
        h.0,
        h.1,
        subst (IsContentOf all) (sym same_content) g.0,
        subst (λ t. looks_ephemeral lower t || is_sensitive lower t ≡ false) (sym same_content)
            (is_stored-fine c e),
      )

  -- Of a table whose rows have a property that fine rows have.
  abbrev IsStoring :
      List (Candidate F)
      → (UserMemory F → Type 0)
      → Table (UserMemory F)
      → List (UserMemory F) × Table (UserMemory F)
      → Type 0
  IsStoring all P t out = All (IsFine all) out.0 × All P out.1.rows × Kept user t out.1

  store_all-IsStoring :
      (all : List (Candidate F)) (P : UserMemory F → Type 0)
      → ((m : UserMemory F) → IsFine all m → P m)
      → (session_id message_id : Option ℕ) (now : ℕ) (cs : List (Candidate F))
        (t : Table (UserMemory F))
      → All (IsGiven all) cs
      → All P t.rows
      → IsSound t
      → IsStoring all P t
          (store_all floats lower collates stamp format2 user session_id message_id now cs t)
  unfolding store_all
  store_all-IsStoring all P f session_id message_id now [] t g p h = (tt, p, Kept-refl user t h)
  store_all-IsStoring all P f session_id message_id now (c ∷ cs) t g p h =
      let draft = draft_of floats lower collates stamp format2 c session_id message_id in
      let made = create_memory floats lower collates stamp user draft now t in
      elim (Bool-cases (is_stored floats lower collates stamp format2 c)) [
        | inl e ↦
            let k = create_memory-Kept floats lower collates stamp format2 user draft now t h in
            let m = made-IsFine all c made.0 g.0 e (create_memory-IsMade draft now t h) in
            let q = create_memory-All P draft now t (f made.0 m) p in
            let rest = store_all-IsStoring all P f session_id message_id now cs made.1 g.1 q k.0 in
            rw e ((m, rest.0), rest.1, Kept-trans user t made.1 _ k rest.2)
        | inr e ↦ rw e (store_all-IsStoring all P f session_id message_id now cs t g.1 p h)
      ]

  -- What a message makes of a table of memories whose ids differ and come before the next one,
  -- whatever the model says. Every row that is returned, and every row of the table that was not
  -- there as it is, is an active one of the user with the content of one of the message's
  -- candidates, and that content is neither about the moment nor sensitive. The ids still differ,
  -- and the rows of the other users stay as they are.
  pub maybe_store_memories_from_turn-IsFine :
      (loads : Text → Result (List (LlmItem F))) (llm : Log → Text → Result Text) (question : Text)
      (session_id message_id : Option ℕ) (now : ℕ) (t : Table (UserMemory F)) (log : Log)
      → IsSound t
      → (let candidates = (extract_memory_candidates floats lower loads llm question log).0 in
          let after =
            maybe_store_memories_from_turn floats lower collates stamp format2 loads llm user
              question session_id message_id now t log in
          All (IsFine candidates) after.0
          × All (λ m. IsRow t.rows m ⊎ IsFine candidates m) after.1.rows
          × Kept user t after.1)
  unfolding maybe_store_memories_from_turn
  maybe_store_memories_from_turn-IsFine loads llm question session_id message_id now t log h =
      let candidates = (extract_memory_candidates floats lower loads llm question log).0 in
      let fit = (extract_memory_candidates-IsChosen floats lower loads llm question log).0 in
      store_all-IsStoring candidates (λ m. IsRow t.rows m ⊎ IsFine candidates m) (λ m k. inr k)
        session_id message_id now candidates t
        (All-both _ _ candidates (All-IsContentOf candidates)
          (All-map candidates (λ c k. k.normal) fit))
        (All-map t.rows (λ m k. inl k) (All-IsRow t.rows)) h
