-- ===== src/Memory/Isolation.antt =====
-- What a user is shown of the memory.
use flowxrag.Prelude.{
  ℕ, zero, suc, List, [], ◌∷◌, Bool, true, false, ◌&&◌, Option, none, some, ◌≡◌, refl, sym, ap, ◌∙◌,
  arith, Bool-cases, inl, inr, keep, map, take, All, All-keep, All-take,
}
use flowxrag.Prelude.Sort.{sort, All-sort}
use flowxrag.Text.{Text}
use flowxrag.Float.{Floats}
use flowxrag.Models.{User, UserMemory, Table}
use flowxrag.Memory.Store.{
  in_scope, is_owner, scope_for_user, deactivate_all_memories, off_in_scope, list_memories, shown,
  stands_before, with_status, rejected,
}
use flowxrag.Memory.Store.Laws.{IsSound, others, turned_off-in_scope}
use flowxrag.Memory.Turn.{recall, recalled}
use flowxrag.Memory.Steps.{Steps}
use flowxrag.Memory.Steps.Laws.{Steps-Kept}

module _ (floats : Floats) (lower : Text → Text) (collates : Text → Text → Bool)
    (stamp : UserMemory (floats.F) → UserMemory (floats.F) → ℕ) where
  open floats use {F}

  -- The row is turned off.
  abbrev pub IsOff : UserMemory F → Type 0
  IsOff m = (m.status ≡ rejected) × (m.is_active ≡ false)

  All-IsOff :
      (user : Option User) (rows : List (UserMemory F))
      → All IsOff (keep (in_scope user) (map (off_in_scope floats lower collates stamp user) rows))
  All-IsOff user [] = tt
  All-IsOff user (m ∷ rows) = elim (Bool-cases (in_scope user m)) [
    | inl e ↦
        rw (e, turned_off-in_scope floats lower collates stamp user m true e)
          ((refl, refl), All-IsOff user rows)
    | inr e ↦ rw (e, e) (All-IsOff user rows)
  ]

  -- What a list shows behind `deactivate_all_memories`, with inactive rows or without.
  abbrev pub ShowsOff : Bool → List (UserMemory F) → Type 0
  ShowsOff true rows = All IsOff rows
  ShowsOff false rows = rows ≡ []

  none_kept :
      (rows : List (UserMemory F))
      → All IsOff rows
      → keep (shown floats lower collates stamp false) rows ≡ []
  none_kept [] h = refl
  none_kept (m ∷ rows) h = rw h.0.1 (none_kept rows h.1)

  -- Behind `deactivate_all_memories`, whatever the status and the number asked for: a list of the
  -- user's memories without the inactive ones is empty, and in one with them every row is rejected
  -- and inactive.
  pub list_memories-deactivate_all_memories :
      (user : Option User) (status : Option Text) (include_inactive : Bool) (limit : ℕ)
      (t : Table (UserMemory F))
      → ShowsOff include_inactive (
          list_memories floats lower collates stamp user status include_inactive limit
            (deactivate_all_memories floats lower collates stamp user t).1.rows)
  unfolding list_memories deactivate_all_memories sort
  list_memories-deactivate_all_memories user status true limit t = All-take _ limit _ (
      All-sort (stands_before floats lower collates stamp) _ _ (
        All-keep _ (shown floats lower collates stamp true) _
          (All-keep _ (with_status status) _ (All-IsOff user t.rows))))
  list_memories-deactivate_all_memories user status false limit t =
      rw (none_kept _ (All-keep _ (with_status status) _ (All-IsOff user t.rows))) (nothing limit)
    where
      nothing : (n : ℕ) → take n (sort (stands_before floats lower collates stamp) []) ≡ []
      nothing zero = refl
      nothing (suc n) = refl

  other_owner :
      (a b o : Option ℕ) → is_owner a b ≡ false → is_owner a o ≡ true → is_owner b o ≡ false
  other_owner none none o h k = cc
  other_owner none (some b) none h k = refl
  other_owner none (some b) (some c) h k = cc
  other_owner (some a) none none h k = cc
  other_owner (some a) none (some c) h k = refl
  other_owner (some a) (some b) none h k = refl
  other_owner (some a) (some b) (some c) h k = ground arith

  apart :
      (user other : Option User) (m : UserMemory F)
      → is_owner (scope_for_user user).0 (scope_for_user other).0 ≡ false
      → in_scope user m ≡ true
      → in_scope other m ≡ false
  unfolding in_scope
  apart user other m h e =
      rw (other_owner _ _ m.user_id h (left (is_owner (scope_for_user user).0 m.user_id) _ e)) refl
    where
      left : (a b : Bool) → a && b ≡ true → a ≡ true
      left true b e = refl
      left false b e = e

  keep-others :
      (user other : Option User) (rows : List (UserMemory F))
      → is_owner (scope_for_user user).0 (scope_for_user other).0 ≡ false
      → keep (in_scope user) (others other rows) ≡ keep (in_scope user) rows
  keep-others user other [] h = refl
  keep-others user other (m ∷ rows) h = elim (Bool-cases (in_scope user m)) [
    | inl e ↦ rw (apart user other m h e, e) (ap (◌∷◌ m) (keep-others user other rows h))
    | inr e ↦ elim (Bool-cases (in_scope other m)) [
      | inl d ↦ rw (d, e) (keep-others user other rows h)
      | inr d ↦ rw (d, e) (keep-others user other rows h)
    ]
  ]

  module _ (format2 : F → Text) where
    -- Whatever another user does in any number of calls, the memory that a user's questions are
    -- given stays the same.
    pub recall-Steps :
        (user other : Option User) (limit now : ℕ) (t u : Table (UserMemory F))
        → is_owner (scope_for_user user).0 (scope_for_user other).0 ≡ false
        → IsSound t
        → Steps floats lower collates stamp format2 other t u
        → (recall floats lower collates stamp format2 user limit now u).0
          ≡ (recall floats lower collates stamp format2 user limit now t).0
    unfolding recall list_memories
    recall-Steps user other limit now t u differ h steps =
        let k = Steps-Kept floats lower collates stamp format2 other t u steps h in
        let same_rows =
          sym (keep-others user other u.rows differ)
          ∙ ap (keep (in_scope user)) k.1
          ∙ keep-others user other t.rows differ in
        rw same_rows (text_of _ u t)
      where
        text_of :
            (memories : List (UserMemory F)) (a b : Table (UserMemory F))
            → (recalled floats lower collates stamp format2 now memories a).0
              ≡ (recalled floats lower collates stamp format2 now memories b).0
        text_of [] a b = refl
        text_of (m ∷ memories) a b = refl
