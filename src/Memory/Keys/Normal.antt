-- ===== src/Memory/Keys/Normal.antt =====
-- Normalizing a content a second time changes nothing.
use flowxrag.Prelude.{
  if◌then◌else◌, ℕ, [], ◌∷◌, Bool, true, false, ◌≡◌, refl, ap, ◌∙◌, is_empty, Bool-cases, inl, inr,
}
use flowxrag.Text.{Text, is_space, strip, collapse}
use flowxrag.Text.Trim.Laws.{StartsSolid, EndsSolid, strip_ends, strip_fixed}
use flowxrag.Memory.Keys.{normalize_memory}

collapse-StartsSolid :
    (inside : Bool) (t : Text) → StartsSolid t → StartsSolid (collapse is_space 32 inside t)
unfolding collapse
collapse-StartsSolid inside [] h = tt
collapse-StartsSolid inside (c ∷ t) h = rw h h

EndsSolid-cons : (c : ℕ) (t : Text) → EndsSolid t → is_empty t ≡ false → EndsSolid (c ∷ t)
EndsSolid-cons c [] h e = absurd cc
EndsSolid-cons c (d ∷ t) h e = h

collapse-EndsSolid_cons :
    (inside : Bool) (c : ℕ) (t : Text)
    → EndsSolid (c ∷ t)
    → EndsSolid (collapse is_space 32 inside (c ∷ t))
      × (is_empty (collapse is_space 32 inside (c ∷ t)) ≡ false)
unfolding collapse
collapse-EndsSolid_cons inside c [] h = rw h (h, refl)
collapse-EndsSolid_cons inside c (d ∷ t) h =
    let rest = collapse-EndsSolid_cons (is_space c) d t h in
    let text = collapse is_space 32 (is_space c) (d ∷ t) in shape (is_space c) inside text rest
  where
    shape :
        (space inside : Bool) (text : Text)
        → EndsSolid text × (is_empty text ≡ false)
        → (let out = if space then (if inside then text else 32 ∷ text) else c ∷ text in
            EndsSolid out × (is_empty out ≡ false))
    shape true true text k = k
    shape true false text k = (EndsSolid-cons 32 text k.0 k.1, refl)
    shape false inside text k = (EndsSolid-cons c text k.0 k.1, refl)

collapse-EndsSolid :
    (inside : Bool) (t : Text) → EndsSolid t → EndsSolid (collapse is_space 32 inside t)
collapse-EndsSolid inside [] h = unfold collapse in tt
collapse-EndsSolid inside (c ∷ t) h = (collapse-EndsSolid_cons inside c t h).0

collapse-collapse :
    (p : ℕ → Bool) (r : ℕ)
    → p r ≡ true
    → (inside : Bool) (t : Text)
    → collapse p r inside (collapse p r inside t) ≡ collapse p r inside t
unfolding collapse
collapse-collapse p r h inside [] = refl
collapse-collapse p r h true (c ∷ t) = elim (Bool-cases (p c)) [
  | inl e ↦ rw e (collapse-collapse p r h true t)
  | inr e ↦ rw (e, e) (ap (◌∷◌ c) (collapse-collapse p r h false t))
]
collapse-collapse p r h false (c ∷ t) = elim (Bool-cases (p c)) [
  | inl e ↦ rw (e, h) (ap (◌∷◌ r) (collapse-collapse p r h true t))
  | inr e ↦ rw (e, e) (ap (◌∷◌ c) (collapse-collapse p r h false t))
]

space : is_space 32 ≡ true
unfolding is_space
space = refl

-- A content that is in normal form stays as it is.
pub normalize_memory-normalize_memory :
    (t : Text) → normalize_memory (normalize_memory t) ≡ normalize_memory t
unfolding normalize_memory
normalize_memory-normalize_memory t =
    let ends = strip_ends t in
    let text = collapse is_space 32 false (strip t) in
    ap (collapse is_space 32 false) (
      strip_fixed text (collapse-StartsSolid false (strip t) ends.0)
        (collapse-EndsSolid false (strip t) ends.1))
    ∙ collapse-collapse is_space 32 space false (strip t)
