-- ===== src/Retriever/Clean/Shape.antt =====
-- The shape of a cleaned text: line ends, blanks and blank lines are in one normal form.
use flowxrag.Prelude.{
  ℕ, zero, suc, ◌+◌, ◌≤◌, ◌<◌, [], ◌∷◌, ◌++◌, Bool, true, false, ◌&&◌, ◌||◌, ◌≡◌, ◌≢◌, ◌⊎◌, arith,
  subst, refl, ◌==◌, ltb, ltb→lt, if◌then◌else◌, Bool-cases, Option-cases, inl, inr, All, min,
}
use flowxrag.Text.{Text, replace, strip}
use flowxrag.Text.Search.Laws.{All-replace, replace_gone}
use flowxrag.Text.Trim.Laws.{All-strip, StartsSolid, EndsSolid, strip_ends, strip_parts}
use flowxrag.Retriever.Clean.{
  is_blank, line_break, unhyphen, squeeze_blanks, squeeze_lines, clean_text,
}
use flowxrag.Retriever.Clean.Laws.{line_break_shape}

-- No two blanks in a row; the flag says that the character before was blank.
abbrev pub NoDoubleBlank : Bool → Text → Type 0
NoDoubleBlank before [] = Unit
NoDoubleBlank before (c ∷ t) =
    (before && (c == 32 || c == 9) ≡ false) × NoDoubleBlank (c == 32 || c == 9) t

-- No three newlines in a row; the number counts those just before.
abbrev pub NoTripleLine : ℕ → Text → Type 0
NoTripleLine seen [] = Unit
NoTripleLine seen (c ∷ t) = ((c ≡ 10 → seen < 2)) × NoTripleLine (if c == 10 then seen + 1 else 0) t

-- No carriage return, soft hyphen or tab.
abbrev pub IsPlain : ℕ → Type 0
IsPlain c = (c ≢ 13) × (c ≢ 0xad) × (c ≢ 9)

pub record IsClean (t : Text) : Type 0 where
  pub plain : All IsPlain t
  pub blanks : NoDoubleBlank false t
  pub lines : NoTripleLine 0 t
  pub starts : StartsSolid t
  pub ends : EndsSolid t

module _ (P : ℕ → Type 0) where
  third : {t : Text} (t' : Text) (b : ℕ) → t ≡ b'-' ∷ 10 ∷ b ∷ t' → All P t → P b
  third t' b q h = (rw q at h).1.1.0

  All-unhyphen : (k : ℕ) (t : Text) → All P t → All P (unhyphen k t)
  unfolding unhyphen
  All-unhyphen k [] h = tt
  All-unhyphen (suc k) (c ∷ t) h = All-unhyphen k t h.1
  All-unhyphen zero (c ∷ t) h = elim (Option-cases (line_break (c ∷ t))) [
    | inl e ↦ rw e (h.0, All-unhyphen 0 t h.1)
    | inr (b, e) ↦
        rw e (
          let (t', q) = line_break_shape c t b e in (h.0, (third t' b q h.1, All-unhyphen 3 t h.1)))
  ]

  All-squeeze_lines : (n : ℕ) (t : Text) → All P t → All P (squeeze_lines n t)
  unfolding squeeze_lines
  All-squeeze_lines n [] h = tt
  All-squeeze_lines n (c ∷ t) h = elim (Bool-cases (c == 10 && ltb 1 n)) [
    | inl e ↦ rw e (All-squeeze_lines (if c == 10 then n + 1 else 0) t h.1)
    | inr e ↦ rw e (h.0, All-squeeze_lines (if c == 10 then n + 1 else 0) t h.1)
  ]

module _ (P : ℕ → Type 0) (s : P 32) where
  blank_first : (f : Bool) (r : Text) → All P r → All P (if f then r else 32 ∷ r)
  blank_first true r h = h
  blank_first false r h = (s, h)

  All-squeeze_blanks : (f : Bool) (t : Text) → All P t → All P (squeeze_blanks f t)
  unfolding squeeze_blanks
  All-squeeze_blanks f [] h = tt
  All-squeeze_blanks f (c ∷ t) h = elim (Bool-cases (is_blank c)) [
    | inl e ↦ rw e (blank_first f _ (All-squeeze_blanks true t h.1))
    | inr e ↦ rw e (h.0, All-squeeze_blanks false t h.1)
  ]

no_tab : (c : ℕ) → is_blank c ≡ false → c ≢ 9
unfolding is_blank
no_tab c h = ground arith

tabs_gone : (f : Bool) (t : Text) → All (λ c. c ≢ 9) (squeeze_blanks f t)
unfolding squeeze_blanks
tabs_gone f [] = tt
tabs_gone f (c ∷ t) = elim (Bool-cases (is_blank c)) [
  | inl e ↦ rw e (blank_first (λ c. c ≢ 9) (omega arith) f _ (tabs_gone true t))
  | inr e ↦ rw e (no_tab c e, tabs_gone false t)
]

squeeze_blanks-NoDoubleBlank : (f : Bool) (t : Text) → NoDoubleBlank f (squeeze_blanks f t)
unfolding squeeze_blanks is_blank
squeeze_blanks-NoDoubleBlank f [] = tt
squeeze_blanks-NoDoubleBlank true (c ∷ t) = elim (Bool-cases (c == 32 || c == 9)) [
  | inl e ↦ rw e (squeeze_blanks-NoDoubleBlank true t)
  | inr e ↦ rw (e, e) (refl, squeeze_blanks-NoDoubleBlank false t)
]
squeeze_blanks-NoDoubleBlank false (c ∷ t) = elim (Bool-cases (c == 32 || c == 9)) [
  | inl e ↦ rw e (refl, squeeze_blanks-NoDoubleBlank true t)
  | inr e ↦ rw (e, e) (refl, squeeze_blanks-NoDoubleBlank false t)
]

weaken_blanks : (f : Bool) (t : Text) → NoDoubleBlank f t → NoDoubleBlank false t
weaken_blanks f [] h = tt
weaken_blanks f (c ∷ t) h = (refl, h.1)

squeeze_lines-NoDoubleBlank :
    (f : Bool) (n : ℕ) (t : Text)
    → (0 < n → f ≡ false)
    → NoDoubleBlank f t
    → NoDoubleBlank f (squeeze_lines n t)
unfolding squeeze_lines
squeeze_lines-NoDoubleBlank f n [] g h = tt
squeeze_lines-NoDoubleBlank true n (c ∷ t) g h = elim (Bool-cases (c == 10 && ltb 1 n)) [
  | inl e ↦ absurd (ground (arith, g (ground arith)))
  | inr e ↦ rw e (
    h.0,
    squeeze_lines-NoDoubleBlank (c == 32 || c == 9) (if c == 10 then n + 1 else 0) t
        (λ q. ground arith) h.1,
  )
]
squeeze_lines-NoDoubleBlank false n (c ∷ t) g h = elim (Bool-cases (c == 10 && ltb 1 n)) [
  | inl e ↦ rw e (
      squeeze_lines-NoDoubleBlank false (if c == 10 then n + 1 else 0) t (λ q. refl)
        (weaken_blanks _ t h.1))
  | inr e ↦ rw e (
    h.0,
    squeeze_lines-NoDoubleBlank (c == 32 || c == 9) (if c == 10 then n + 1 else 0) t
        (λ q. ground arith) h.1,
  )
]

squeeze_lines-NoTripleLine : (n : ℕ) (t : Text) → NoTripleLine (min n 2) (squeeze_lines n t)
unfolding squeeze_lines
squeeze_lines-NoTripleLine n [] = tt
squeeze_lines-NoTripleLine n (c ∷ t) = elim (Bool-cases (c == 10)) [
  | inl e ↦ rw e (newline e (Bool-cases (ltb 1 n)) (squeeze_lines-NoTripleLine (n + 1) t))
  | inr e ↦ rw (e, e) ((λ q. absurd (ground arith)), squeeze_lines-NoTripleLine 0 t)
]
  where
    newline :
        (c == 10) ≡ true
        → (ltb 1 n ≡ true) ⊎ (ltb 1 n ≡ false)
        → NoTripleLine (min (n + 1) 2) (squeeze_lines (n + 1) t)
        → NoTripleLine
            (min n 2)
            (if true && ltb 1 n then squeeze_lines (n + 1) t else c ∷ squeeze_lines (n + 1) t)
    newline e (inl q) r =
        rw q
          (subst (λ k. NoTripleLine k (squeeze_lines (n + 1) t)) (ground (arith, ltb→lt 1 n q)) r)
    newline e (inr q) r =
        rw (q, e)
          (
            (λ _. ground arith),
            subst (λ k. NoTripleLine k (squeeze_lines (n + 1) t)) (ground arith) r,
          )

weaken_lines : (n m : ℕ) (t : Text) → m ≤ n → NoTripleLine n t → NoTripleLine m t
weaken_lines n m [] l h = tt
weaken_lines n m (c ∷ t) l h = (
  (λ e. omega (arith, h.0 e)),
  weaken_lines (if c == 10 then n + 1 else 0) (if c == 10 then m + 1 else 0) t (ground arith) h.1,
)

-- Both forms pass to the middle of a text.
blanks_middle : (f : Bool) (a s b : Text) → NoDoubleBlank f (a ++ (s ++ b)) → NoDoubleBlank false s
blanks_middle f (c ∷ a) s b h = blanks_middle (c == 32 || c == 9) a s b h.1
blanks_middle f [] [] b h = tt
blanks_middle f [] (c ∷ s) b h = (refl, blanks_front (c == 32 || c == 9) s h.1)
  where
    blanks_front : (f : Bool) (s : Text) → NoDoubleBlank f (s ++ b) → NoDoubleBlank f s
    blanks_front f [] h = tt
    blanks_front f (c ∷ s) h = (h.0, blanks_front (c == 32 || c == 9) s h.1)

lines_middle : (n : ℕ) (a s b : Text) → NoTripleLine n (a ++ (s ++ b)) → NoTripleLine 0 s
lines_middle n (c ∷ a) s b h = lines_middle (if c == 10 then n + 1 else 0) a s b h.1
lines_middle n [] s b h = weaken_lines n 0 s (omega arith) (lines_front n s h)
  where
    lines_front : (n : ℕ) (s : Text) → NoTripleLine n (s ++ b) → NoTripleLine n s
    lines_front n [] h = tt
    lines_front n (c ∷ s) h = (h.0, lines_front (if c == 10 then n + 1 else 0) s h.1)

All-IsPlain :
    (t : Text) → All (λ c. c ≢ 13) t → All (λ c. c ≢ 0xad) t → All (λ c. c ≢ 9) t → All IsPlain t
All-IsPlain [] h k l = tt
All-IsPlain (c ∷ t) h k l = ((h.0, k.0, l.0), All-IsPlain t h.1 k.1 l.1)

module _ (t : Text) where
  unix : Text
  unix = replace (replace t (13 ∷ 10 ∷ []) (10 ∷ [])) (13 ∷ []) (10 ∷ [])

  soft : Text
  soft = replace unix (0xad ∷ []) []

  unix_plain : All (λ c. c ≢ 13) soft
  unfolding unix soft
  unix_plain =
      All-replace (λ c. c ≢ 13) unix (0xad ∷ []) [] tt
        (replace_gone 13 (10 ∷ []) (replace t (13 ∷ 10 ∷ []) (10 ∷ [])) (omega arith))

  soft_plain : All (λ c. c ≢ 0xad) soft
  unfolding soft
  soft_plain = replace_gone 0xad [] unix tt

  squeezed-IsPlain : All IsPlain (squeeze_blanks false (unhyphen 0 soft))
  squeezed-IsPlain =
      All-IsPlain (squeeze_blanks false (unhyphen 0 soft))
        (All-squeeze_blanks (λ c. c ≢ 13) (omega arith) false _
          (All-unhyphen (λ c. c ≢ 13) 0 soft unix_plain))
        (All-squeeze_blanks (λ c. c ≢ 0xad) (omega arith) false _
          (All-unhyphen (λ c. c ≢ 0xad) 0 soft soft_plain))
        (tabs_gone false (unhyphen 0 soft))

-- Every cleaned text is clean: no carriage return, soft hyphen or tab, no two blanks and no three
-- newlines in a row, and no white space at either end.
pub clean_text-IsClean : (t : Text) → IsClean (clean_text t)
unfolding clean_text unix soft
clean_text-IsClean t =
    let d = squeeze_blanks false (unhyphen 0 (soft t)) in
    let e = squeeze_lines 0 d in
    let (a, b, q) = strip_parts e in
    record {
      plain = All-strip IsPlain e (All-squeeze_lines IsPlain 0 d (squeezed-IsPlain t));
      blanks = blanks_middle false a (strip e) b (
          rw (← q) (
            squeeze_lines-NoDoubleBlank false 0 d (λ _. refl)
              (squeeze_blanks-NoDoubleBlank false (unhyphen 0 (soft t)))));
      lines = lines_middle 0 a (strip e) b (rw (← q) (squeeze_lines-NoTripleLine 0 d));
      starts = (strip_ends e).0;
      ends = (strip_ends e).1;
    }
