-- ===== src/Text/Eq.antt =====
-- The texts themselves: literals, equality, concatenation and `sep.join`.
use Prim.Native.Char.{code}
use flowxrag.Prelude.{
  Bool-cases, inl, inr, sym, subst, any, if◌then◌else◌, ℕ, String, List, [], ◌∷◌, ◌++◌, Bool, true,
  false, ◌&&◌, ◌≡◌, ◌↔◌, arith, ◌==◌, refl, keep, keep-append, append_assoc, append-nil,
}

abbrev pub Text : Type 0
Text = List ℕ

-- A literal of the source.
abbrev pub codes : String → Text
codes String.[] = []
codes (String.◌∷◌ c s) = code c ∷ codes s

-- `s == t`
abbrev pub same : Text → Text → Bool
same [] [] = true
same (c ∷ s) (d ∷ t) = c == d && same s t
same _ _ = false

pub same-eq : (s t : Text) → same s t ≡ true → s ≡ t
same-eq [] [] h = refl
same-eq (c ∷ s) (d ∷ t) h = ground (arith, same-eq s t)
same-eq [] (d ∷ t) h = ground arith
same-eq (c ∷ s) [] h = ground arith

pub same_refl : (s : Text) → same s s ≡ true
same_refl [] = refl
same_refl (c ∷ s) = ground (arith, same_refl s)

pub same_iff : (s t : Text) → (same s t ≡ true) ↔ (s ≡ t)
same_iff s t = (same-eq s t, λ e. rw (← e) (same_refl s))

-- `"".join(xs)`
abbrev pub concat : List Text → Text
concat [] = []
concat (x ∷ xs) = x ++ concat xs

-- `sep.join(xs)`
abbrev pub join : Text → List Text → Text
join sep [] = []
join sep (x ∷ []) = x
join sep (x ∷ y ∷ xs) = x ++ (sep ++ join sep (y ∷ xs))

pub concat-append : (xs ys : List Text) → concat (xs ++ ys) ≡ concat xs ++ concat ys
concat-append [] ys = refl
concat-append (x ∷ xs) ys = rw (concat-append xs ys, append_assoc)

-- One more part behind a join.
pub join-append_one :
    (sep : Text) (x : Text) (xs : List Text) (y : Text)
    → join sep ((x ∷ xs) ++ y ∷ []) ≡ join sep (x ∷ xs) ++ (sep ++ y)
join-append_one sep x [] y = refl
join-append_one sep x (z ∷ xs) y = simp (join-append_one sep z xs y, append_assoc)

-- A separator that the test rejects leaves no trace.
pub keep-join :
    (p : ℕ → Bool) (sep : Text) (xs : List Text)
    → keep p sep ≡ []
    → keep p (join sep xs) ≡ keep p (concat xs)
keep-join p sep [] h = refl
keep-join p sep (x ∷ []) h = rw append-nil
keep-join p sep (x ∷ y ∷ xs) h = simp (keep-append, h, keep-join p sep (y ∷ xs) h)

-- The texts as a set: each once.
abbrev pub distinct : List Text → List Text
distinct [] = []
distinct (t ∷ ts) = let rest = distinct ts in if any (same t) rest then rest else t ∷ rest

pub same_comm : (s t : Text) → same s t ≡ false → same t s ≡ false
same_comm s t h = elim (Bool-cases (same t s)) [
  | inl e ↦
      let p = (same_iff t s).0 e in
      subst (λ u. same u s ≡ false) (sym p) (subst (λ u. same s u ≡ false) p h)
  | inr e ↦ e
]
