-- ===== src/Text/Trim/Laws.antt =====
-- `strip` removes white space at both ends and nothing else.
use flowxrag.Prelude.{
  if◌then◌else◌, ℕ, [], ◌∷◌, ◌++◌, Bool, true, false, ◌≡◌, ◌∙◌, ◌&&◌, ap, arith, refl, keep,
  is_empty, Bool-cases, inl, inr, All,
}
use flowxrag.Text.Eq.{Text}
use flowxrag.Text.Trim.{is_space, lstrip, rstrip, strip}

module _ (p : ℕ → Bool) (spaces : (c : ℕ) → is_space c ≡ true → p c ≡ false) where
  keep-lstrip : (t : Text) → keep p (lstrip t) ≡ keep p t
  unfolding lstrip
  keep-lstrip [] = refl
  keep-lstrip (c ∷ t) = ground (arith, spaces c, keep-lstrip t)

  keep-rstrip : (t : Text) → keep p (rstrip t) ≡ keep p t
  unfolding rstrip
  keep-rstrip [] = refl
  keep-rstrip (c ∷ t) = ground (arith, spaces c, keep-rstrip t)

  -- What is no white space survives.
  pub keep-strip : (t : Text) → keep p (strip t) ≡ keep p t
  keep-strip t = unfold strip in keep-rstrip (lstrip t) ∙ keep-lstrip t

module _ {κ} (P : ℕ → Type κ) where
  All-lstrip : (t : Text) → All P t → All P (lstrip t)
  unfolding lstrip
  All-lstrip [] h = tt
  All-lstrip (c ∷ t) h = elim (Bool-cases (is_space c)) [
    | inl e ↦ rw e (All-lstrip t h.1)
    | inr e ↦ rw e h
  ]

  All-rstrip : (t : Text) → All P t → All P (rstrip t)
  unfolding rstrip
  All-rstrip [] h = tt
  All-rstrip (c ∷ t) h = elim (Bool-cases (is_space c && is_empty (rstrip t))) [
    | inl e ↦ rw e tt
    | inr e ↦ rw e (h.0, All-rstrip t h.1)
  ]

  pub All-strip : (t : Text) → All P t → All P (strip t)
  All-strip t h = unfold strip in All-rstrip (lstrip t) (All-lstrip t h)

-- The first character, if there is one, is no white space.
abbrev pub StartsSolid : Text → Type 0
StartsSolid [] = Unit
StartsSolid (c ∷ t) = is_space c ≡ false

-- Nor is the last.
abbrev pub EndsSolid : Text → Type 0
EndsSolid [] = Unit
EndsSolid (c ∷ []) = is_space c ≡ false
EndsSolid (c ∷ d ∷ t) = EndsSolid (d ∷ t)

lstrip-StartsSolid : (t : Text) → StartsSolid (lstrip t)
unfolding lstrip
lstrip-StartsSolid [] = tt
lstrip-StartsSolid (c ∷ t) = elim (Bool-cases (is_space c)) [
  | inl e ↦ rw e (lstrip-StartsSolid t)
  | inr e ↦ rw e e
]

rstrip-StartsSolid : (t : Text) → StartsSolid t → StartsSolid (rstrip t)
unfolding rstrip
rstrip-StartsSolid [] h = tt
rstrip-StartsSolid (c ∷ t) h = rw h h

EndsSolid-cons :
    (c : ℕ) (r : Text) → EndsSolid r → is_space c && is_empty r ≡ false → EndsSolid (c ∷ r)
EndsSolid-cons c [] h e = ground arith
EndsSolid-cons c (d ∷ r) h e = h

rstrip-EndsSolid : (t : Text) → EndsSolid (rstrip t)
unfolding rstrip
rstrip-EndsSolid [] = tt
rstrip-EndsSolid (c ∷ t) = elim (Bool-cases (is_space c && is_empty (rstrip t))) [
  | inl e ↦ rw e tt
  | inr e ↦ rw e (EndsSolid-cons c (rstrip t) (rstrip-EndsSolid t) e)
]

-- Both ends of a stripped text are solid.
pub strip_ends : (t : Text) → StartsSolid (strip t) × EndsSolid (strip t)
strip_ends t =
    unfold strip in
    (rstrip-StartsSolid (lstrip t) (lstrip-StartsSolid t), rstrip-EndsSolid (lstrip t))

lstrip_fixed : (t : Text) → StartsSolid t → lstrip t ≡ t
unfolding lstrip
lstrip_fixed [] h = refl
lstrip_fixed (c ∷ t) h = rw h refl

rstrip_fixed : (t : Text) → EndsSolid t → rstrip t ≡ t
unfolding rstrip
rstrip_fixed [] h = refl
rstrip_fixed (c ∷ []) h = rw h refl
rstrip_fixed (c ∷ d ∷ t) h = rw (rstrip_fixed (d ∷ t) h) (kept (is_space c))
  where
    kept : (b : Bool) → (if b && false then [] else c ∷ d ∷ t) ≡ c ∷ d ∷ t
    kept true = refl
    kept false = refl

-- A text with solid ends is not changed.
pub strip_fixed : (t : Text) → StartsSolid t → EndsSolid t → strip t ≡ t
strip_fixed t h k = unfold strip in (ap rstrip (lstrip_fixed t h) ∙ rstrip_fixed t k)

lstrip_part : (t : Text) → (a : Text) × (t ≡ a ++ lstrip t)
unfolding lstrip
lstrip_part [] = ([], refl)
lstrip_part (c ∷ t) = elim (Bool-cases (is_space c)) [
  | inl e ↦ rw e (let (a, q) = lstrip_part t in (c ∷ a, ap (◌∷◌ c) q))
  | inr e ↦ rw e ([], refl)
]

rstrip_part : (t : Text) → (b : Text) × (t ≡ rstrip t ++ b)
unfolding rstrip
rstrip_part [] = ([], refl)
rstrip_part (c ∷ t) = elim (Bool-cases (is_space c && is_empty (rstrip t))) [
  | inl e ↦ rw e (c ∷ t, refl)
  | inr e ↦ rw e (let (b, q) = rstrip_part t in (b, ap (◌∷◌ c) q))
]

-- A stripped text is the middle of the text.
pub strip_parts : (t : Text) → (a : Text) × (b : Text) × (t ≡ a ++ (strip t ++ b))
strip_parts t =
    unfold strip in
    (let (a, q) = lstrip_part t in
      let (b, r) = rstrip_part (lstrip t) in (a, b, q ∙ ap (λ u. a ++ u) r))
