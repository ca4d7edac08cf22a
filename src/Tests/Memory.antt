-- ===== src/Tests/Memory.antt =====
-- Runs of the memory: two users, one of whom states a preference.
use flowxrag.Prelude.{ℕ, [], ◌∷◌, true, ◌⊎◌, false, none, some, ◌≡◌, refl, All, ◌==◌, map}
use flowxrag.Text.{codes}
use flowxrag.Models.{UserMemory, Table}
use flowxrag.Memory.Extract.{extract_memory_candidates}
use flowxrag.Memory.Extract.Laws.{IsChosen, extract_memory_candidates-IsChosen}
use flowxrag.Memory.Store.{
  Draft, create_memory, delete_memory, deactivate_all_memories, list_memories, active,
}
use flowxrag.Memory.Store.Laws.{IsSound, Kept}
use flowxrag.Memory.Turn.{recall, maybe_store_memories_from_turn}
use flowxrag.Memory.Turn.Laws.{IsFine, IsRow, maybe_store_memories_from_turn-IsFine}
use flowxrag.Memory.Steps.{Steps, created, none_left, step_first}
use flowxrag.Memory.Steps.Laws.{Steps-Kept}
use flowxrag.Memory.Isolation.{ShowsOff, list_memories-deactivate_all_memories, recall-Steps}
use flowxrag.Memory.Removal.{list_memories-delete_memory}
use flowxrag.Tests.Values.{
  thousandths, ascii_lower, services, anna, bert, collates, stamp, two_digits, no_items,
}

abbrev fresh : Table (UserMemory ℕ)
fresh = record { rows = []; ids = 1 }

fresh-IsSound : IsSound fresh
fresh-IsSound = (tt, tt)

abbrev brief : Draft ℕ
brief = record {
  content = codes "Answers in a few words";
  category = codes "preference";
  memory_key = none;
  status = active;
  source = codes "manual";
  confidence = 1000;
  importance = 800;
  source_session_id = none;
  source_message_id = none;
  is_sensitive = false;
  reason = none;
}

abbrev stored : Table (UserMemory ℕ)
stored = (create_memory thousandths ascii_lower collates stamp (some bert) brief 7 fresh).1

one_step : Steps thousandths ascii_lower collates stamp two_digits (some bert) fresh stored
one_step = step_first fresh stored stored (created brief 7 fresh) (none_left stored)

stored-IsSound : IsSound stored
stored-IsSound =
    (Steps-Kept thousandths ascii_lower collates stamp two_digits (some bert) fresh stored one_step
      fresh-IsSound).0

-- The preference that a message states is stored under its key.
stated :
    map
      (λ (m : UserMemory ℕ). m.memory_key)
      (maybe_store_memories_from_turn thousandths ascii_lower collates stamp two_digits no_items
        services.llm
        (some anna)
        (codes "我喜欢简洁的回答")
        none
        none
        7
        fresh
        []).0
    ≡ codes "preference.general" ∷ []
unfolding maybe_store_memories_from_turn
stated = refl

extract_memory_candidates-IsChosen_example :
    IsChosen thousandths ascii_lower
      (extract_memory_candidates thousandths ascii_lower no_items services.llm
        (codes "请记住我的公司是星辰")
        []).0
extract_memory_candidates-IsChosen_example =
    extract_memory_candidates-IsChosen thousandths ascii_lower no_items services.llm
      (codes "请记住我的公司是星辰") []

Steps-Kept_example : Kept (some bert) fresh stored
Steps-Kept_example =
    Steps-Kept thousandths ascii_lower collates stamp two_digits (some bert) fresh stored one_step
      fresh-IsSound

recall-Steps_example :
    (recall thousandths ascii_lower collates stamp two_digits (some anna) 12 8 stored).0
    ≡ (recall thousandths ascii_lower collates stamp two_digits (some anna) 12 8 fresh).0
recall-Steps_example =
    recall-Steps thousandths ascii_lower collates stamp two_digits (some anna) (some bert) 12 8
      fresh stored refl fresh-IsSound one_step

list_memories-deactivate_all_memories_example :
    ShowsOff thousandths ascii_lower collates stamp true (
      list_memories thousandths ascii_lower collates stamp
        (some bert)
        none
        true
        12
        (deactivate_all_memories thousandths ascii_lower collates stamp (some bert) stored).1.rows)
list_memories-deactivate_all_memories_example =
    list_memories-deactivate_all_memories thousandths ascii_lower collates stamp (some bert) none
      true 12 stored

list_memories-delete_memory_example :
    All
      (λ m. m.id == 1 ≡ false)
      (list_memories thousandths ascii_lower collates stamp
        (some bert)
        none
        false
        12
        (delete_memory thousandths ascii_lower collates stamp 1 (some bert) stored).1.rows)
list_memories-delete_memory_example =
    list_memories-delete_memory thousandths ascii_lower collates stamp (some bert) 1 none 12 stored

maybe_store_memories_from_turn-IsFine_example :
    let fine =
      IsFine thousandths ascii_lower collates stamp two_digits
        (some anna)
        (extract_memory_candidates thousandths ascii_lower no_items services.llm
          (codes "我喜欢简洁的回答")
          []).0 in
    let after =
      maybe_store_memories_from_turn thousandths ascii_lower collates stamp two_digits no_items
        services.llm
        (some anna)
        (codes "我喜欢简洁的回答")
        none
        none
        7
        stored
        [] in
    All fine after.0
    × All
        (λ m.
          IsRow thousandths ascii_lower collates stamp two_digits (some anna) stored.rows m
          ⊎ fine m)
        after.1.rows
    × Kept (some anna) stored after.1
maybe_store_memories_from_turn-IsFine_example =
    maybe_store_memories_from_turn-IsFine thousandths ascii_lower collates stamp two_digits
      (some anna) no_items services.llm (codes "我喜欢简洁的回答") none none 7 stored [] stored-IsSound
