-- ===== src/Text/Search/Laws.antt =====
-- `split` loses nothing but separators, and `replace` touches only what it replaces.
use flowxrag.Prelude.{
  ℕ, zero, suc, ◌+◌, ◌≤◌, List, [], ◌∷◌, ◌++◌, Bool, true, ◌≡◌, ◌≢◌, ◌∙◌, sym, arith, refl, ap,
  length, length-append, keep, keep-append, drop, Bool-cases, inl, inr, All, All-append, ==_iff,
}
use flowxrag.Text.Eq.{Text, concat, join, keep-join}
use flowxrag.Text.Search.{starts_with, tail_length, push, split_from, split, replace_from, replace}

-- A prefix and what follows it.
prefix-drop : (p t : Text) → starts_with p t ≡ true → p ++ drop (length p) t ≡ t
prefix-drop [] t h = refl
prefix-drop (c ∷ p) [] h = ground arith
prefix-drop (c ∷ p) (d ∷ t) h = ground (arith, prefix-drop p t, ==_iff c d)

join-push : (sep : Text) (c : ℕ) (ps : List Text) → join sep (push c ps) ≡ c ∷ join sep ps
join-push sep c [] = refl
join-push sep c (p ∷ []) = refl
join-push sep c (p ∷ q ∷ ps) = refl

-- The scan always ends in a piece.
split_from_cons :
    (sep : Text) (k : ℕ) (t : Text) → (p : Text) × (ps : List Text) × (split_from sep k t ≡ p ∷ ps)
unfolding split_from
split_from_cons sep k [] = ([], [], refl)
split_from_cons sep (suc k) (c ∷ t) = split_from_cons sep k t
split_from_cons sep zero (c ∷ t) = elim (Bool-cases (starts_with sep (c ∷ t))) [
  | inl e ↦ rw e ([], split_from sep (tail_length sep) t, refl)
  | inr e ↦ rw e (let (p, ps, q) = split_from_cons sep 0 t in (c ∷ p, ps, ap (push c) q))
]

join_first :
    (sep : Text) (ps : List Text) (p : Text) (qs : List Text)
    → ps ≡ p ∷ qs
    → join sep ([] ∷ ps) ≡ sep ++ join sep ps
join_first sep ps p qs e = rw e

join-split_from :
    (c : ℕ) (sep : Text) (k : ℕ) (t : Text) → join (c ∷ sep) (split_from (c ∷ sep) k t) ≡ drop k t
unfolding split_from
join-split_from c sep zero [] = refl
join-split_from c sep (suc k) [] = refl
join-split_from c sep (suc k) (d ∷ t) = join-split_from c sep k t
join-split_from c sep zero (d ∷ t) = elim (Bool-cases (starts_with (c ∷ sep) (d ∷ t))) [
  | inl e ↦ rw e (
      let (p, ps, q) = split_from_cons (c ∷ sep) (length sep) t in
      join_first (c ∷ sep) _ p ps q
      ∙ (ap (λ u. (c ∷ sep) ++ u) (join-split_from c sep (length sep) t)
          ∙ prefix-drop (c ∷ sep) (d ∷ t) e))
  | inr e ↦
      rw e
        (join-push (c ∷ sep) d (split_from (c ∷ sep) 0 t) ∙ ap (◌∷◌ d) (join-split_from c sep 0 t))
]

-- Joining the pieces by the separator gives the text back.
pub join-split : (c : ℕ) (sep t : Text) → join (c ∷ sep) (split t (c ∷ sep)) ≡ t
unfolding split
join-split c sep t = join-split_from c sep 0 t

-- Splitting removes nothing that the separator does not hold.
pub keep-concat-split :
    (p : ℕ → Bool) (c : ℕ) (sep t : Text)
    → keep p (c ∷ sep) ≡ []
    → keep p (concat (split t (c ∷ sep))) ≡ keep p t
keep-concat-split p c sep t h =
    sym (keep-join p (c ∷ sep) (split t (c ∷ sep)) h) ∙ ap (keep p) (join-split c sep t)

keep_of_prefix :
    (p : ℕ → Bool) (s t : Text)
    → starts_with s t ≡ true
    → keep p s ≡ []
    → keep p (drop (length s) t) ≡ keep p t
keep_of_prefix p s t h e =
    ap (λ u. u ++ keep p (drop (length s) t)) (sym e)
    ∙ (sym (keep-append p s (drop (length s) t)) ∙ ap (keep p) (prefix-drop s t h))

keep-replace_from :
    (p : ℕ → Bool) (c : ℕ) (old new : Text)
    → keep p (c ∷ old) ≡ []
    → keep p new ≡ []
    → (k : ℕ) (t : Text) → keep p (replace_from (c ∷ old) new k t) ≡ keep p (drop k t)
unfolding replace_from
keep-replace_from p c old new h h' zero [] = refl
keep-replace_from p c old new h h' (suc k) [] = refl
keep-replace_from p c old new h h' (suc k) (d ∷ t) = keep-replace_from p c old new h h' k t
keep-replace_from p c old new h h' zero (d ∷ t) =
    elim (Bool-cases (starts_with (c ∷ old) (d ∷ t))) [
      | inl e ↦ rw e (
          keep-append p new (replace_from (c ∷ old) new (length old) t)
          ∙ (ap (λ u. u ++ keep p (replace_from (c ∷ old) new (length old) t)) h'
              ∙ (keep-replace_from p c old new h h' (length old) t
                  ∙ keep_of_prefix p (c ∷ old) (d ∷ t) e h)))
      | inr e ↦ rw e (ground (arith, keep-replace_from p c old new h h' 0 t))
    ]

-- A replacement among characters that the test rejects is not seen through the test.
pub keep-replace :
    (p : ℕ → Bool) (c : ℕ) (old new t : Text)
    → keep p (c ∷ old) ≡ []
    → keep p new ≡ []
    → keep p (replace t (c ∷ old) new) ≡ keep p t
unfolding replace
keep-replace p c old new t h h' = keep-replace_from p c old new h h' 0 t

length-replace_from-le :
    (c : ℕ) (old new : Text)
    → length new ≤ length old + 1
    → (k : ℕ) (t : Text) → length (replace_from (c ∷ old) new k t) ≤ length (drop k t)
unfolding replace_from
length-replace_from-le c old new h zero [] = omega arith
length-replace_from-le c old new h (suc k) [] = omega arith
length-replace_from-le c old new h (suc k) (d ∷ t) = length-replace_from-le c old new h k t
length-replace_from-le c old new h zero (d ∷ t) =
    elim (Bool-cases (starts_with (c ∷ old) (d ∷ t))) [
      | inl e ↦ rw e (
          omega (
            arith,
            length-append new (replace_from (c ∷ old) new (length old) t),
            length-replace_from-le c old new h (length old) t,
            length-append (c ∷ old) (drop (length old) t),
            ap length (prefix-drop (c ∷ old) (d ∷ t) e),
          ))
      | inr e ↦ rw e (omega (arith, length-replace_from-le c old new h 0 t))
    ]

-- A replacement that is no longer than what it replaces does not lengthen the text.
pub length-replace-le :
    (c : ℕ) (old new t : Text)
    → length new ≤ length old + 1
    → length (replace t (c ∷ old) new) ≤ length t
unfolding replace
length-replace-le c old new t h = length-replace_from-le c old new h 0 t

module _ (P : ℕ → Type 0) where
  All-replace_from :
      (old new : Text) → All P new → (k : ℕ) (t : Text) → All P t → All P (replace_from old new k t)
  unfolding replace_from
  All-replace_from old new n k [] h = tt
  All-replace_from old new n (suc k) (c ∷ t) h = All-replace_from old new n k t h.1
  All-replace_from old new n zero (c ∷ t) h = elim (Bool-cases (starts_with old (c ∷ t))) [
    | inl e ↦ rw e (All-append P new _ n (All-replace_from old new n (tail_length old) t h.1))
    | inr e ↦ rw e (h.0, All-replace_from old new n 0 t h.1)
  ]

  -- What holds of the old and the new characters holds after a replacement.
  pub All-replace : (t old new : Text) → All P new → All P t → All P (replace t old new)
  unfolding replace
  All-replace t old new n h = All-replace_from old new n 0 t h

-- A single character is gone after its replacement by others.
gone_from :
    (a : ℕ) (new : Text)
    → All (λ c. c ≢ a) new
    → (t : Text) → All (λ c. c ≢ a) (replace_from (a ∷ []) new 0 t)
unfolding replace_from
gone_from a new n [] = tt
gone_from a new n (c ∷ t) = elim (Bool-cases (starts_with (a ∷ []) (c ∷ t))) [
  | inl e ↦ rw e (All-append _ new _ n (gone_from a new n t))
  | inr e ↦ rw e (ground arith, gone_from a new n t)
]

pub replace_gone :
    (a : ℕ) (new t : Text) → All (λ c. c ≢ a) new → All (λ c. c ≢ a) (replace t (a ∷ []) new)
unfolding replace
replace_gone a new t n = gone_from a new n t
