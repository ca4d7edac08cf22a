-- ===== src/Memory/Turn.antt =====
-- What a turn of the conversation does to the memory: `maybe_store_memories_from_turn` and
-- `format_memory_context` of memory_service.py.
pub mod Laws
use flowxrag.Prelude.{
  ℕ, ◌+◌, List, [], ◌∷◌, ◌++◌, Bool, true, false, not, ◌&&◌, ◌||◌, Option, none, some,
  if◌then◌else◌, is_empty, map,
}
use flowxrag.Text.{Text, codes, join}
use flowxrag.Float.{Floats}
use flowxrag.Effects.{Result, Log}
use flowxrag.Models.{User, UserMemory, Table}
use flowxrag.Memory.Keys.{looks_ephemeral, is_sensitive}
use flowxrag.Memory.Extract.{Candidate, LlmItem, hundredths, extract_memory_candidates}
use flowxrag.Memory.Store.{Draft, active, create_memory, list_memories, flushed, set_row, Row}

-- `format2` is `f"{x:.2f}"`.
module _ (floats : Floats) (lower : Text → Text) (collates : Text → Text → Bool)
    (stamp : UserMemory (floats.F) → UserMemory (floats.F) → ℕ) (format2 : floats.F → Text) where
  open floats use {F, leq}

  abbrev pub draft_of : Candidate F → Option ℕ → Option ℕ → Draft F
  draft_of c session_id message_id = record {
    content = c.content;
    category = c.category;
    memory_key = some c.memory_key;
    status = active;
    source = c.source;
    confidence = c.confidence;
    importance = c.importance;
    source_session_id = session_id;
    source_message_id = message_id;
    is_sensitive = false;
    reason = some c.reason;
  }

  -- A candidate passes the tests of the loop.
  unfoldable pub is_stored : Candidate F → Bool
  unfolding looks_ephemeral is_sensitive
  is_stored c =
      not (looks_ephemeral lower c.content || is_sensitive lower c.content)
      && leq (hundredths floats lower 75) c.confidence

  -- The loop over the candidates, with the rows that it returns.
  unfoldable pub store_all :
      Option User
      → Option ℕ
      → Option ℕ
      → ℕ
      → List (Candidate F)
      → Table (UserMemory F)
      → List (UserMemory F) × Table (UserMemory F)
  unfolding is_stored create_memory
  store_all user session_id message_id now [] t = ([], t)
  store_all user session_id message_id now (c ∷ cs) t =
      let stored = is_stored c in
      let draft = draft_of c session_id message_id in
      let made = create_memory floats lower collates stamp user draft now t in
      let rest = store_all user session_id message_id now cs (if stored then made.1 else t) in
      (if stored then made.0 ∷ rest.0 else rest.0, rest.1)

  unfoldable pub maybe_store_memories_from_turn :
      (Text → Result (List (LlmItem F)))
      → (Log → Text → Result Text)
      → Option User
      → Text
      → Option ℕ
      → Option ℕ
      → ℕ
      → Table (UserMemory F)
      → Log
      → List (UserMemory F) × Table (UserMemory F) × Log
  unfolding extract_memory_candidates store_all
  maybe_store_memories_from_turn loads llm user question session_id message_id now t log =
      let found = extract_memory_candidates floats lower loads llm question log in
      let stored = store_all user session_id message_id now found.0 t in
      (stored.0, stored.1, found.1)

  abbrev pub used : ℕ → UserMemory F → UserMemory F
  used now m =
      flushed floats lower collates stamp m
        (record m { use_count = m.use_count + 1; last_used_at = some now })

  -- The counters of the rows.
  unfoldable pub touch_all : ℕ → List (UserMemory F) → Table (UserMemory F) → Table (UserMemory F)
  unfolding set_row
  touch_all now [] t = t
  touch_all now (m ∷ memories) t =
      touch_all now memories (record t { rows = set_row m.id (used now m) t.rows })

  abbrev pub memory_line : UserMemory F → Text
  memory_line m =
      codes "- key="
      ++ (m.memory_key
          ++ (codes "; category="
              ++ (m.category
                  ++ (codes "; confidence="
                      ++ (format2 m.confidence ++ (codes "; " ++ m.content))))))

  abbrev pub recalled : ℕ → List (UserMemory F) → Table (UserMemory F) → Text × Table (UserMemory F)
  recalled now memories t =
      if is_empty memories
      then ([], t)
      else (join (codes "\n") (map memory_line memories), touch_all now memories t)

  -- `format_memory_context` with a database
  unfoldable pub recall : Option User → ℕ → ℕ → Table (UserMemory F) → Text × Table (UserMemory F)
  unfolding list_memories touch_all
  recall user limit now t =
      recalled now (list_memories floats lower collates stamp user (some active) false limit t.rows)
        t

  unfoldable pub format_memory_context :
      Option User → ℕ → ℕ → Option (Table (UserMemory F)) → Text × Option (Table (UserMemory F))
  unfolding recall
  format_memory_context user limit now none = ([], none)
  format_memory_context user limit now (some t) =
      let (text, t') = recall user limit now t in (text, some t')
