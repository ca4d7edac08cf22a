-- ===== src/Dict/Laws.antt =====
-- What `put` keeps of a dictionary.
use flowxrag.Prelude.{List, [], ◌∷◌, Bool, false, Bool-cases, inl, inr, ◌≡◌, All}
use flowxrag.Text.{Text, same, same_comm}
use flowxrag.Dict.{put}

pub put-All :
    {A : Type 0} (P : A → Type 0) (b : A → A → Bool) (key : Text) (x : A) (items : List (Text × A))
    → P x
    → All (λ item. P item.1) items
    → All (λ item. P item.1) (put b key x items)
unfolding put
put-All P b key x [] p h = (p, tt)
put-All P b key x ((k, y) ∷ items) p h = elim (Bool-cases (same k key)) [
  | inl e ↦ elim (Bool-cases (b x y)) [ inl d ↦ rw (e, d) (p, h.1) | inr d ↦ rw (e, d) h ]
  | inr e ↦ rw e (h.0, put-All P b key x items p h.1)
]

pub put-Keys :
    {A : Type 0} (P : Text → Type 0) (b : A → A → Bool) (key : Text) (x : A)
    (items : List (Text × A))
    → P key
    → All (λ item. P item.0) items
    → All (λ item. P item.0) (put b key x items)
unfolding put
put-Keys P b key x [] p h = (p, tt)
put-Keys P b key x ((k, y) ∷ items) p h = elim (Bool-cases (same k key)) [
  | inl e ↦ rw e h
  | inr e ↦ rw e (h.0, put-Keys P b key x items p h.1)
]

-- No key stands twice.
abbrev pub UniqueKeys : {A : Type 0} → List (Text × A) → Type 0
UniqueKeys [] = Unit
UniqueKeys (i ∷ items) = All (λ item. same item.0 i.0 ≡ false) items × UniqueKeys items

pub put-UniqueKeys :
    {A : Type 0} (b : A → A → Bool) (key : Text) (x : A) (items : List (Text × A))
    → UniqueKeys items
    → UniqueKeys (put b key x items)
unfolding put
put-UniqueKeys b key x [] h = (tt, tt)
put-UniqueKeys b key x ((k, y) ∷ items) h = elim (Bool-cases (same k key)) [
  | inl e ↦ rw e h
  | inr e ↦ rw e (
    put-Keys (λ t. same t k ≡ false) b key x items (same_comm k key e) h.0,
    put-UniqueKeys b key x items h.1,
  )
]
