-- ===== src/Memory/Store.antt =====
-- The table of memories: `list_memories`, `create_memory`, `update_memory`, `get_memory`,
-- `delete_memory`, `deactivate_all_memories` and `_find_by_key` of memory_service.py.
pub mod Laws
use flowxrag.Prelude.{
  ℕ, zero, suc, ◌+◌, List, [], ◌∷◌, ◌++◌, Bool, true, false, not, ◌&&◌, ◌||◌, ◌==◌, leb, Option,
  none, some, if◌then◌else◌, is_empty, length, take, keep, map,
}
use flowxrag.Prelude.Sort.{sort}
use flowxrag.Text.{Text, codes, same, decimal}
use flowxrag.Float.{Floats}
use flowxrag.Models.{User, UserMemory, Table, add_row, last_row}
use flowxrag.Memory.Keys.{normalize_memory, normalize_key, infer_memory_key, or_text}
use flowxrag.Memory.Extract.{get}

abbrev pub anon_scope : Text
anon_scope = codes "anonymous"

abbrev pub active : Text
active = codes "active"

abbrev pub candidate : Text
candidate = codes "candidate"

abbrev pub rejected : Text
rejected = codes "rejected"

-- What `create_memory` is called with; of `extra`, the only key that is used is `reason`.
pub record Draft (F : Type 0) : Type 0 where
  pub content : Text
  pub category : Text
  pub memory_key : Option Text
  pub status : Text
  pub source : Text
  pub confidence : F
  pub importance : F
  pub source_session_id : Option ℕ
  pub source_message_id : Option ℕ
  pub is_sensitive : Bool
  pub reason : Option Text

-- What `update_memory` is called with.
pub record Patch : Type 0 where
  pub content : Option Text
  pub category : Option Text
  pub memory_key : Option Text
  pub status : Option Text
  pub is_active : Option Bool

abbrev pub scope_for_user : Option User → Option ℕ × Text
scope_for_user none = (none, anon_scope)
scope_for_user (some u) = (some u.id, codes "user:" ++ decimal u.id)

-- `user_id IS NULL`, or `user_id = ...`, which no null satisfies
abbrev pub is_owner : Option ℕ → Option ℕ → Bool
is_owner none none = true
is_owner none (some b) = false
is_owner (some a) none = false
is_owner (some a) (some b) = b == a

-- `a or b` on numbers
abbrev pub or_id : Option ℕ → Option ℕ → Option ℕ
or_id none old = old
or_id (some zero) old = old
or_id (some (suc n)) old = some (suc n)

abbrev pub or_else {ℓ} : {A : Type ℓ} → Option A → Option A → Option A
or_else none old = old
or_else (some a) old = some a

abbrev pub head {ℓ} : {A : Type ℓ} → List A → Option A
head [] = none
head (x ∷ xs) = some x

module _ {F : Type 0} where
  -- The two conditions on the owner that every statement has.
  unfoldable pub in_scope : Option User → UserMemory F → Bool
  in_scope user m =
      let scope = scope_for_user user in is_owner scope.0 m.user_id && same m.scope_key scope.1

  -- The row of the id becomes another.
  unfoldable pub set_row : ℕ → UserMemory F → List (UserMemory F) → List (UserMemory F)
  set_row id new [] = []
  set_row id new (m ∷ rows) =
      let rest = set_row id new rows in if m.id == id then new ∷ rest else m ∷ rest

  abbrev pub with_status : Option Text → UserMemory F → Bool
  with_status none m = true
  with_status (some status) m = is_empty status || same m.status status

  -- `get_memory`
  unfoldable pub get_memory : ℕ → Option User → List (UserMemory F) → Option (UserMemory F)
  unfolding in_scope
  get_memory id user rows = head (keep (λ m. m.id == id) (keep (in_scope user) rows))

  -- `_find_by_key` without a status: the last one changed.
  unfoldable pub find_by_key : Option User → Text → List (UserMemory F) → Option (UserMemory F)
  unfolding in_scope sort
  find_by_key user key rows = head (
      sort (λ x y. leb y.updated_at x.updated_at)
        (keep (λ m. same m.memory_key key) (keep (in_scope user) rows)))

-- `collates` is the order of texts in the database, and `stamp old new` the `updated_at` that the
-- flush of a row gives it.
module _ (floats : Floats) (lower : Text → Text) (collates : Text → Text → Bool)
    (stamp : UserMemory (floats.F) → UserMemory (floats.F) → ℕ) where
  open floats use {F, leq}

  abbrev pub Row : Type 0
  Row = UserMemory F

  -- `ORDER BY status ASC, importance DESC, updated_at DESC`
  abbrev pub stands_before : Row → Row → Bool
  stands_before x y =
      if same x.status y.status
      then (if leq x.importance y.importance && leq y.importance x.importance
          then leb y.updated_at x.updated_at
          else leq y.importance x.importance)
      else collates x.status y.status

  abbrev pub shown : Bool → Row → Bool
  shown include_inactive m = include_inactive || m.is_active

  unfoldable pub list_memories : Option User → Option Text → Bool → ℕ → List Row → List Row
  unfolding in_scope sort
  list_memories user status include_inactive limit rows = take limit (
      sort stands_before
        (keep (shown include_inactive) (keep (with_status status) (keep (in_scope user) rows))))

  -- The row as the flush leaves it.
  abbrev pub flushed : Row → Row → Row
  flushed old new = record new { updated_at = stamp old new }

  -- `max(a, b)`
  abbrev pub greater : F → F → F
  greater a b = if leq b a then a else b

  abbrev pub merged : Text → Draft F → Row → Row
  merged normalized draft old = flushed old (record old {
    content = normalized;
    category = or_text draft.category old.category;
    status =
        if same old.status active && same draft.status candidate then old.status else draft.status;
    source = draft.source;
    confidence = greater old.confidence draft.confidence;
    importance = greater old.importance draft.importance;
    source_session_id = or_id draft.source_session_id old.source_session_id;
    source_message_id = or_id draft.source_message_id old.source_message_id;
    is_sensitive = draft.is_sensitive;
    is_active = true;
    reason = or_else draft.reason old.reason;
  })

  abbrev pub new_memory : Option User → Text → Text → Draft F → ℕ → ℕ → Row
  new_memory user normalized key draft now id = record {
    id = id;
    user_id = (scope_for_user user).0;
    scope_key = (scope_for_user user).1;
    memory_key = key;
    category = or_text draft.category (codes "preference");
    content = normalized;
    status = draft.status;
    source = draft.source;
    source_session_id = draft.source_session_id;
    source_message_id = draft.source_message_id;
    confidence = draft.confidence;
    importance = draft.importance;
    use_count = 0;
    last_used_at = none;
    is_sensitive = draft.is_sensitive;
    is_active = true;
    reason = draft.reason;
    updated_at = now;
  }

  abbrev pub adding : Option User → Text → Text → Draft F → ℕ → Table Row → Row × Table Row
  adding user normalized key draft now t =
      let make = new_memory user normalized key draft now in (last_row make t, add_row make t)

  -- `create_memory` behind the search for the key.
  abbrev pub storing :
      Option User → Text → Text → Draft F → ℕ → Table Row → Option Row → Row × Table Row
  storing user normalized key draft now t none = adding user normalized key draft now t
  storing user normalized key draft now t (some old) =
      let new = merged normalized draft old in
      if same old.status rejected
      then adding user normalized key draft now t
      else (new, record t { rows = set_row old.id new t.rows })

  unfoldable pub create_memory : Option User → Draft F → ℕ → Table Row → Row × Table Row
  unfolding find_by_key normalize_memory normalize_key infer_memory_key set_row
  create_memory user draft now t =
      let normalized = normalize_memory draft.content in
      let inferred = infer_memory_key draft.category normalized in
      let key = normalize_key lower (or_text (get draft.memory_key []) inferred) in
      storing user normalized key draft now t (find_by_key user key t.rows)

  abbrev pub patched_status : Option Text → Row → Row
  patched_status none m = m
  patched_status (some status) m = record m {
    status = status;
    is_active = not (same status rejected);
  }

  abbrev pub normal_of : Option Text → Text → Text
  normal_of none old = old
  normal_of (some content) old = normalize_memory content

  abbrev pub key_of : Option Text → Text → Text
  key_of none old = old
  key_of (some key) old = normalize_key lower key

  abbrev pub patched : Row → Patch → Row
  patched old patch =
      let changed = patched_status patch.status (record old {
        content = normal_of patch.content old.content;
        category = get patch.category old.category;
        memory_key = key_of patch.memory_key old.memory_key;
      }) in
      flushed old (record changed { is_active = get patch.is_active changed.is_active })

  unfoldable pub update_memory : Row → Patch → Table Row → Row × Table Row
  unfolding normalize_memory normalize_key set_row
  update_memory old patch t =
      let new = patched old patch in (new, record t { rows = set_row old.id new t.rows })

  abbrev pub turned_off : Row → Row
  turned_off m = flushed m (record m { status = rejected; is_active = false })

  abbrev pub deleting : Table Row → Option Row → Bool × Table Row
  deleting t none = (false, t)
  deleting t (some m) = (true, record t { rows = set_row m.id (turned_off m) t.rows })

  unfoldable pub delete_memory : ℕ → Option User → Table Row → Bool × Table Row
  unfolding get_memory set_row
  delete_memory id user t = deleting t (get_memory id user t.rows)

  abbrev pub off_in_scope : Option User → Row → Row
  off_in_scope user m = if in_scope user m then turned_off m else m

  unfoldable pub deactivate_all_memories : Option User → Table Row → ℕ × Table Row
  unfolding in_scope
  deactivate_all_memories user t =
      (length (keep (in_scope user) t.rows), record t { rows = map (off_in_scope user) t.rows })
