-- ===== src/Memory/Store/Laws.antt =====
-- The table of memories: its ids, and the rows of the other users.
use flowxrag.Prelude.{
  ℕ, ◌<◌, List, [], ◌∷◌, ◌++◌, Bool, true, false, not, ◌==◌, Option, none, some, ◌≡◌, refl, sym, ap,
  ◌∙◌, subst, arith, Bool-cases, inl, inr, if◌then◌else◌, keep, map, All, All-append, All-both,
  All-map, All-keep, All-keep_self, OnSome, ==_iff, keep-append, append-nil,
}
use flowxrag.Prelude.Sort.{All-sort}
use flowxrag.Text.{Text, same_refl}
use flowxrag.Float.{Floats}
use flowxrag.Models.{User, UserMemory, Table, add_row}
use flowxrag.Memory.Store.{
  Draft, in_scope, is_owner, scope_for_user, set_row, head, get_memory, find_by_key, new_memory,
  merged, turned_off,
}

differ : (a b : ℕ) → a == b ≡ false → b == a ≡ false
differ a b h = ground arith

module _ {F : Type 0} where
  -- The ids differ.
  abbrev pub UniqueIds : List (UserMemory F) → Type 0
  UniqueIds [] = Unit
  UniqueIds (m ∷ rows) = All (λ r. r.id == m.id ≡ false) rows × UniqueIds rows

  -- The rows that are not the user's.
  abbrev pub others : Option User → List (UserMemory F) → List (UserMemory F)
  others user rows = keep (λ m. not (in_scope user m)) rows

  -- The ids differ and come before the next one.
  abbrev pub IsSound : Table (UserMemory F) → Type 0
  IsSound t = UniqueIds t.rows × All (λ m. m.id < t.ids) t.rows

  -- A change by a user: the table stays sound, and the rows of the others as they are.
  abbrev pub Kept : Option User → Table (UserMemory F) → Table (UserMemory F) → Type 0
  Kept user t t' = IsSound t' × (others user t'.rows ≡ others user t.rows)

  -- A row of the user, with an id that no row of another has.
  abbrev pub IsOwned : Option User → List (UserMemory F) → UserMemory F → Type 0
  IsOwned user rows m =
      (in_scope user m ≡ true) × All (λ r. r.id == m.id ≡ true → in_scope user r ≡ true) rows

  UniqueIds-All :
      (rows : List (UserMemory F))
      → UniqueIds rows
      → All (λ m. All (λ r. r.id == m.id ≡ true → r ≡ m) rows) rows
  UniqueIds-All [] h = tt
  UniqueIds-All (m ∷ rows) h = (
    (λ e. refl, All-map rows (λ r k e. absurd (no e k)) h.0),
    All-map rows (λ r k. (λ e. absurd (no e (differ r.id m.id k.0)), k.1))
        (All-both _ _ rows h.0 (UniqueIds-All rows h.1)),
  )
    where
      no : {b : Bool} → b ≡ true → b ≡ false → ⊥
      no e k = cc

  pub head-OnSome :
      (P : UserMemory F → Type 0) (rows : List (UserMemory F)) → All P rows → OnSome P (head rows)
  head-OnSome P [] h = tt
  head-OnSome P (m ∷ rows) h = h.0

  pub owned :
      (user : Option User) (rows : List (UserMemory F))
      → UniqueIds rows
      → All (IsOwned user rows) (keep (in_scope user) rows)
  owned user rows h =
      All-map (keep (in_scope user) rows)
        (λ m k.
          (k.0, All-map rows (λ r s e. subst (λ x. in_scope user x ≡ true) (sym (s e)) k.0) k.1))
        (All-both _ _ (keep (in_scope user) rows) (All-keep_self (in_scope user) rows)
          (All-keep _ (in_scope user) rows (UniqueIds-All rows h)))

  pub get_memory-IsOwned :
      (user : Option User) (id : ℕ) (rows : List (UserMemory F))
      → UniqueIds rows
      → OnSome (IsOwned user rows) (get_memory id user rows)
  unfolding get_memory
  get_memory-IsOwned user id rows h =
      head-OnSome _ _ (All-keep _ _ (keep (in_scope user) rows) (owned user rows h))

  pub find_by_key-IsOwned :
      (user : Option User) (key : Text) (rows : List (UserMemory F))
      → UniqueIds rows
      → OnSome (IsOwned user rows) (find_by_key user key rows)
  unfolding find_by_key
  find_by_key-IsOwned user key rows h =
      head-OnSome _ _
        (All-sort _ _ _ (All-keep _ _ (keep (in_scope user) rows) (owned user rows h)))

  set_row-Ids :
      (Q : ℕ → Type 0) (new : UserMemory F) (rows : List (UserMemory F))
      → All (λ m. Q m.id) rows
      → All (λ m. Q m.id) (set_row new.id new rows)
  unfolding set_row
  set_row-Ids Q new [] h = tt
  set_row-Ids Q new (m ∷ rows) h = elim (Bool-cases (m.id == new.id)) [
    | inl e ↦ rw e (subst Q ((==_iff m.id new.id).0 e) h.0, set_row-Ids Q new rows h.1)
    | inr e ↦ rw e (h.0, set_row-Ids Q new rows h.1)
  ]

  pub set_row-All :
      (P : UserMemory F → Type 0) (id : ℕ) (new : UserMemory F) (rows : List (UserMemory F))
      → P new
      → All P rows
      → All P (set_row id new rows)
  unfolding set_row
  set_row-All P id new [] p h = tt
  set_row-All P id new (m ∷ rows) p h = elim (Bool-cases (m.id == id)) [
    | inl e ↦ rw e (p, set_row-All P id new rows p h.1)
    | inr e ↦ rw e (h.0, set_row-All P id new rows p h.1)
  ]

  pub set_row-IsOwned :
      (user : Option User) (id : ℕ) (new m : UserMemory F) (rows : List (UserMemory F))
      → in_scope user new ≡ true
      → IsOwned user rows m
      → IsOwned user (set_row id new rows) m
  set_row-IsOwned user id new m rows a h = (h.0, set_row-All _ id new rows (λ e. a) h.1)

  set_row-others :
      (user : Option User) (m new : UserMemory F) (rows : List (UserMemory F))
      → in_scope user m ≡ true
      → in_scope user new ≡ true
      → All (λ r. r.id == m.id ≡ true → in_scope user r ≡ true) rows
      → others user (set_row m.id new rows) ≡ others user rows
  unfolding set_row
  set_row-others user m new [] a b h = refl
  set_row-others user m new (r ∷ rows) a b h = elim (Bool-cases (r.id == m.id)) [
    | inl e ↦ rw (e, b, h.0 e) (set_row-others user m new rows a b h.1)
    | inr e ↦ rw e (
        ap (λ xs. if not (in_scope user r) then r ∷ xs else xs)
          (set_row-others user m new rows a b h.1))
  ]

  set_row-UniqueIds :
      (new : UserMemory F) (rows : List (UserMemory F))
      → UniqueIds rows
      → UniqueIds (set_row new.id new rows)
  unfolding set_row
  set_row-UniqueIds new [] h = tt
  set_row-UniqueIds new (m ∷ rows) h = elim (Bool-cases (m.id == new.id)) [
    | inl e ↦
        let apart = subst (λ n. All (λ r. r.id == n ≡ false) rows) ((==_iff m.id new.id).0 e) h.0 in
        rw e (set_row-Ids (λ n. n == new.id ≡ false) new rows apart, set_row-UniqueIds new rows h.1)
    | inr e ↦
        rw e (set_row-Ids (λ n. n == m.id ≡ false) new rows h.0, set_row-UniqueIds new rows h.1)
  ]

  -- A row of the user is replaced.
  pub set_row-Kept :
      (user : Option User) (t : Table (UserMemory F)) (m new : UserMemory F)
      → IsSound t
      → IsOwned user t.rows m
      → new.id ≡ m.id
      → in_scope user new ≡ true
      → Kept user t (record t { rows = set_row m.id new t.rows })
  set_row-Kept user t m new h own e mine =
      subst (λ n. Kept user t (record t { rows = set_row n new t.rows })) e
        (
          (set_row-UniqueIds new t.rows h.0, set_row-Ids (λ n. n < t.ids) new t.rows h.1),
          subst (λ n. others user (set_row n new t.rows) ≡ others user t.rows) (sym e)
              (set_row-others user m new t.rows own.0 mine own.1),
        )

  UniqueIds-append :
      (rows : List (UserMemory F)) (new : UserMemory F)
      → UniqueIds rows
      → All (λ m. m.id < new.id) rows
      → UniqueIds (rows ++ new ∷ [])
  UniqueIds-append [] new h k = (tt, tt)
  UniqueIds-append (m ∷ rows) new h k = (
    All-append _ rows (new ∷ []) h.0 (later m.id new.id k.0, tt),
    UniqueIds-append rows new h.1 k.1,
  )
    where
      later : (a b : ℕ) → a < b → b == a ≡ false
      later a b l = ground arith

  -- A row of the user is added, with the next id.
  pub add_row-Kept :
      (user : Option User) (t : Table (UserMemory F)) (make : ℕ → UserMemory F)
      → IsSound t
      → (make t.ids).id ≡ t.ids
      → in_scope user (make t.ids) ≡ true
      → Kept user t (add_row make t)
  add_row-Kept user t make h e mine = (
    (
      UniqueIds-append t.rows (make t.ids) h.0
          (All-map t.rows (λ m k. subst (λ n. m.id < n) (sym e) k) h.1),
      All-append _ t.rows (make t.ids ∷ []) (All-map t.rows (λ m k. omega arith) h.1)
          (omega (arith, e), tt),
    ),
    keep-append _ t.rows (make t.ids ∷ []) ∙ rw mine (append-nil (others user t.rows)),
  )

  -- A change of the user's rows in place.
  pub map-Kept :
      (user : Option User) (f : UserMemory F → UserMemory F) (t : Table (UserMemory F))
      → ((m : UserMemory F) → (f m).id ≡ m.id)
      → ((m : UserMemory F) → in_scope user (f m) ≡ in_scope user m)
      → ((m : UserMemory F) → in_scope user m ≡ false → f m ≡ m)
      → IsSound t
      → Kept user t (record t { rows = map f t.rows })
  map-Kept user f t same_id same_scope fixed h =
      ((unique t.rows h.0, ids (λ n. n < t.ids) t.rows h.1), rest t.rows)
    where
      ids :
          (Q : ℕ → Type 0) (rows : List (UserMemory F))
          → All (λ m. Q m.id) rows
          → All (λ m. Q m.id) (map f rows)
      ids Q [] k = tt
      ids Q (m ∷ rows) k = (subst Q (sym (same_id m)) k.0, ids Q rows k.1)

      unique : (rows : List (UserMemory F)) → UniqueIds rows → UniqueIds (map f rows)
      unique [] k = tt
      unique (m ∷ rows) k = (
        ids (λ n. n == (f m).id ≡ false) rows
            (subst (λ n. All (λ r. r.id == n ≡ false) rows) (sym (same_id m)) k.0),
        unique rows k.1,
      )

      rest : (rows : List (UserMemory F)) → others user (map f rows) ≡ others user rows
      rest [] = refl
      rest (m ∷ rows) = elim (Bool-cases (in_scope user m)) [
        | inl e ↦ rw (same_scope m, e) (rest rows)
        | inr e ↦ rw (same_scope m, e) (ap2 (fixed m e) (rest rows))
      ]
        where
          ap2 :
              {x y : UserMemory F} {xs ys : List (UserMemory F)}
              → x ≡ y
              → xs ≡ ys
              → (x ∷ xs) ≡ (y ∷ ys)
          ap2 e k = rw (e, k) refl

owner_refl : (o : Option ℕ) → is_owner o o ≡ true
owner_refl none = refl
owner_refl (some n) = ground arith

-- Which rows stay the user's.
module _ (floats : Floats) (lower : Text → Text) (collates : Text → Text → Bool)
    (stamp : UserMemory (floats.F) → UserMemory (floats.F) → ℕ) (user : Option User) where
  open floats use {F}

  pub turned_off-in_scope :
      (m : UserMemory F) (b : Bool)
      → in_scope user m ≡ b
      → in_scope user (turned_off floats lower collates stamp m) ≡ b
  unfolding in_scope
  turned_off-in_scope m b h = h

  pub new_memory-in_scope :
      (normalized key : Text) (draft : Draft F) (now id : ℕ)
      → in_scope user (new_memory floats lower collates stamp user normalized key draft now id)
        ≡ true
  unfolding in_scope
  new_memory-in_scope normalized key draft now id =
      rw (owner_refl (scope_for_user user).0, same_refl (scope_for_user user).1) refl

  pub merged-in_scope :
      (normalized : Text) (draft : Draft F) (m : UserMemory F)
      → in_scope user m ≡ true
      → in_scope user (merged floats lower collates stamp normalized draft m) ≡ true
  unfolding in_scope
  merged-in_scope normalized draft m h = h
