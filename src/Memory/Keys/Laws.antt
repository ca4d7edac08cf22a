-- ===== src/Memory/Keys/Laws.antt =====
-- Normal forms: what every key and every content of a memory looks like.
use flowxrag.Prelude.{
  ℕ, ◌≤◌, [], ◌∷◌, Bool, true, false, not, ◌≡◌, refl, sym, arith, is_empty, take, length,
  length-take, All, All-take, Bool-cases, inl, inr,
}
use flowxrag.Text.{Text, codes, strip, collapse}
use flowxrag.Memory.Keys.{normalize_key, is_key_char, or_text}

-- What collapsing leaves: characters outside the class, and the one that stands for a run.
pub All-collapse :
    (p : ℕ → Bool) (r : ℕ) (P : ℕ → Type 0)
    → ((c : ℕ) → p c ≡ false → P c)
    → P r
    → (inside : Bool) (t : Text) → All P (collapse p r inside t)
unfolding collapse
All-collapse p r P h k inside [] = tt
All-collapse p r P h k inside (c ∷ t) = elim (Bool-cases (p c)) [
  | inl e ↦ elim (Bool-cases inside) [
    | inl d ↦ rw (e, d) (All-collapse p r P h k true t)
    | inr d ↦ rw (e, d) (k, All-collapse p r P h k true t)
  ]
  | inr e ↦ rw e (h c e, All-collapse p r P h k false t)
]

-- A key: not empty, at most 120 characters, of the allowed ones only.
pub record IsKey (key : Text) : Type 0 where
  pub solid : is_empty key ≡ false
  pub short : length key ≤ 120
  pub plain : All (λ c. is_key_char c ≡ true) key

IsKey-or_text :
    (t default : Text)
    → length t ≤ 120
    → All (λ c. is_key_char c ≡ true) t
    → IsKey default
    → IsKey (or_text t default)
IsKey-or_text [] default h k d = d
IsKey-or_text (c ∷ t) default h k d = record { solid = refl; short = h; plain = k }

general-IsKey : IsKey (codes "general")
unfolding is_key_char
general-IsKey = record {
  solid = refl;
  short = omega arith;
  plain = (refl, (refl, (refl, (refl, (refl, (refl, (refl, tt)))))));
}

-- Every key is made of letters, digits and `_.-`, has 1 to 120 characters, and so fits the column,
-- whatever text it is made from.
pub normalize_key-IsKey : (lower : Text → Text) (value : Text) → IsKey (normalize_key lower value)
unfolding normalize_key
normalize_key-IsKey lower value =
    let key = lower (strip (or_text value (codes "general"))) in
    let t = collapse (λ c. not (is_key_char c)) 95 false key in
    IsKey-or_text (take 120 t) (codes "general") (omega (arith, length-take 120 t))
      (All-take _ 120 t (
        All-collapse (λ c. not (is_key_char c)) 95 _ not_false (unfold is_key_char in refl) false
          key))
      general-IsKey
  where
    flip : (b : Bool) → not b ≡ false → b ≡ true
    flip true h = refl
    flip false h = sym h

    not_false : (c : ℕ) → not (is_key_char c) ≡ false → is_key_char c ≡ true
    not_false c h = flip (is_key_char c) h
