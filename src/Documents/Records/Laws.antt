-- ===== src/Documents/Records/Laws.antt =====
-- What a call of `_update_db_status` leaves in the table.
use flowxrag.Prelude.{
  ℕ, List, [], ◌∷◌, ◌++◌, true, false, not, none, some, ◌≡◌, refl, sym, ap, ◌∙◌, Bool-cases,
  Option-cases, inl, inr, keep, keep-append, append-nil,
}
use flowxrag.Text.{Text, same, same_refl}
use flowxrag.Models.{DocumentRecord, Table}
use flowxrag.Documents.Records.{
  Progress, with_progress, new_record, find_record, change_first, updated,
}

-- The records of the other files.
abbrev pub other_records : Text → List DocumentRecord → List DocumentRecord
other_records filename rows = keep (λ r. not (same r.filename filename)) rows

-- The record of the file says how far it is.
abbrev pub Says : Text → Progress → List DocumentRecord → Type 0
Says filename p rows = (r : DocumentRecord) × (find_record filename rows ≡ some (with_progress p r))

find_record-add :
    (filename : Text) (new : DocumentRecord) (rows : List DocumentRecord)
    → same new.filename filename ≡ true
    → find_record filename rows ≡ none
    → find_record filename (rows ++ new ∷ []) ≡ some new
unfolding find_record
find_record-add filename new [] e h = rw e refl
find_record-add filename new (r ∷ rows) e h = elim (Bool-cases (same r.filename filename)) [
  | inl k ↦ absurd (some_none r (sym (here k) ∙ h))
  | inr k ↦ rw k (find_record-add filename new rows e (sym (away k) ∙ h))
]
  where
    some_none : (x : DocumentRecord) → some x ≡ none → ⊥
    some_none x k = cc

    here : same r.filename filename ≡ true → find_record filename (r ∷ rows) ≡ some r
    here k = rw k refl

    away :
        same r.filename filename ≡ false
        → find_record filename (r ∷ rows) ≡ find_record filename rows
    away k = rw k refl

find_record-change_first :
    (filename : Text) (p : Progress) (r : DocumentRecord) (rows : List DocumentRecord)
    → find_record filename rows ≡ some r
    → Says filename p (change_first filename p rows)
unfolding find_record change_first
find_record-change_first filename p r [] h = absurd cc
find_record-change_first filename p r (x ∷ rows) h = elim (Bool-cases (same x.filename filename)) [
  | inl k ↦ rw k (x, rw k refl)
  | inr k ↦
      let rest = find_record-change_first filename p r rows (sym (away k) ∙ h) in
      rw k (rest.0, rw k rest.1)
]
  where
    away :
        same x.filename filename ≡ false
        → find_record filename (x ∷ rows) ≡ find_record filename rows
    away k = rw k refl

change_first-others :
    (filename : Text) (p : Progress) (rows : List DocumentRecord)
    → other_records filename (change_first filename p rows) ≡ other_records filename rows
unfolding change_first
change_first-others filename p [] = refl
change_first-others filename p (r ∷ rows) = elim (Bool-cases (same r.filename filename)) [
  | inl k ↦ rw (k, k) refl
  | inr k ↦ rw (k, k) (ap (◌∷◌ r) (change_first-others filename p rows))
]

pub updated-Says :
    (filename : Text) (p : Progress) (now : ℕ) (t : Table DocumentRecord)
    → let t' = updated filename p now t (find_record filename t.rows) in
      Says filename p t'.rows × (other_records filename t'.rows ≡ other_records filename t.rows)
updated-Says filename p now t = elim (Option-cases (find_record filename t.rows)) [
  | inl e ↦ rw e (
    (
      new_record filename now t.ids,
      find_record-add filename (with_progress p (new_record filename now t.ids)) t.rows
          (same_refl filename) e,
    ),
    keep-append _ t.rows _ ∙ rw (same_refl filename) (append-nil (other_records filename t.rows)),
  )
  | inr (r, e) ↦
      rw e (find_record-change_first filename p r t.rows e, change_first-others filename p t.rows)
]
