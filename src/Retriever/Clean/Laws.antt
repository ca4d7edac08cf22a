-- ===== src/Retriever/Clean/Laws.antt =====
-- What `clean_text` keeps and what it removes.
use flowxrag.Prelude.{
  ℕ, zero, suc, ◌+◌, ◌≤◌, [], ◌∷◌, Bool, true, false, not, ◌||◌, some, ◌≡◌, arith, refl, ap, ◌==◌,
  if◌then◌else◌, length, keep, drop, Bool-cases, Option-cases, inl, inr,
}
use flowxrag.Text.{Text, replace, length-strip-le, is_space}
use flowxrag.Text.Search.Laws.{keep-replace, length-replace-le}
use flowxrag.Text.Trim.Laws.{keep-strip}
use flowxrag.Retriever.Clean.{
  is_blank, line_break, unhyphen, squeeze_blanks, squeeze_lines, clean_text,
}

-- A match spends four characters: the letter, a hyphen, a newline and the second group.
pub line_break_shape :
    (c : ℕ) (t : Text) (b : ℕ)
    → line_break (c ∷ t) ≡ some b
    → (t' : Text) × (t ≡ b'-' ∷ 10 ∷ b ∷ t')
unfolding line_break
line_break_shape a [] b e = ground arith
line_break_shape a (h ∷ []) b e = ground arith
line_break_shape a (h ∷ n ∷ []) b e = ground arith
line_break_shape a (h ∷ n ∷ d ∷ t) b e = (t, ground arith)

length-unhyphen-le : (k : ℕ) (t : Text) → length (unhyphen k t) ≤ length (drop k t)
unfolding unhyphen
length-unhyphen-le zero [] = omega arith
length-unhyphen-le (suc k) [] = omega arith
length-unhyphen-le (suc k) (c ∷ t) = length-unhyphen-le k t
length-unhyphen-le zero (c ∷ t) = elim (Option-cases (line_break (c ∷ t))) [
  | inl e ↦ rw e (omega (arith, length-unhyphen-le 0 t))
  | inr (b, e) ↦ rw e (
      let (t', q) = line_break_shape c t b e in
      omega (arith, length-unhyphen-le 3 t, ap length q, ap (λ u. length (drop 3 u)) q))
]

length-squeeze_blanks-le : (f : Bool) (t : Text) → length (squeeze_blanks f t) ≤ length t
unfolding squeeze_blanks
length-squeeze_blanks-le f [] = omega arith
length-squeeze_blanks-le f (c ∷ t) = ground (arith, length-squeeze_blanks-le (is_blank c) t)

length-squeeze_lines-le : (n : ℕ) (t : Text) → length (squeeze_lines n t) ≤ length t
unfolding squeeze_lines
length-squeeze_lines-le n [] = omega arith
length-squeeze_lines-le n (c ∷ t) =
    ground (arith, length-squeeze_lines-le (if c == 10 then n + 1 else 0) t)

-- Cleaning never lengthens a text.
pub length-clean_text-le : (t : Text) → length (clean_text t) ≤ length t
length-clean_text-le t =
    unfold clean_text in
    (let a = replace t (13 ∷ 10 ∷ []) (10 ∷ []) in
      let b = replace a (13 ∷ []) (10 ∷ []) in
      let c = replace b (0xad ∷ []) [] in
      let d = unhyphen 0 c in
      let e = squeeze_blanks false d in
      omega (
        arith,
        length-replace-le 13 (10 ∷ []) (10 ∷ []) t (omega arith),
        length-replace-le 13 [] (10 ∷ []) a (omega arith),
        length-replace-le 0xad [] [] b (omega arith),
        length-unhyphen-le 0 c,
        length-squeeze_blanks-le false d,
        length-squeeze_lines-le 0 e,
        length-strip-le (squeeze_lines 0 e),
      ))

-- A character that no step of the cleaning removes: no white space, hyphen or soft hyphen.
unfoldable pub is_solid : ℕ → Bool
unfolding is_space
is_solid c = not (is_space c || (c == b'-' || c == 0xad))

pub solid-cr : is_solid 13 ≡ false
unfolding is_solid
solid-cr = refl

solid-lf : is_solid 10 ≡ false
unfolding is_solid
solid-lf = refl

solid-soft : is_solid 0xad ≡ false
unfolding is_solid
solid-soft = refl

module _ (p : ℕ → Bool) (solid : (c : ℕ) → p c ≡ true → is_solid c ≡ true) where
  pub rejects : (c : ℕ) → is_solid c ≡ false → p c ≡ false
  rejects c h = elim (Bool-cases (p c)) [ inl e ↦ ground (arith, solid c) | inr e ↦ e ]

  keep-unhyphen : (k : ℕ) (t : Text) → keep p (unhyphen k t) ≡ keep p (drop k t)
  unfolding unhyphen
  keep-unhyphen zero [] = refl
  keep-unhyphen (suc k) [] = refl
  keep-unhyphen (suc k) (c ∷ t) = keep-unhyphen k t
  keep-unhyphen zero (c ∷ t) = elim (Option-cases (line_break (c ∷ t))) [
    | inl e ↦ rw e (ground (arith, keep-unhyphen 0 t))
    | inr (b, e) ↦ rw e (
        let (t', q) = line_break_shape c t b e in
        ground (
          arith,
          keep-unhyphen 3 t,
          ap (λ u. keep p (drop 3 u)) q,
          ap (keep p) q,
          rejects b'-' (unfold is_solid in refl),
          rejects 10 (unfold is_solid in refl),
        ))
  ]

  keep-squeeze_blanks : (f : Bool) (t : Text) → keep p (squeeze_blanks f t) ≡ keep p t
  unfolding squeeze_blanks
  keep-squeeze_blanks f [] = refl
  keep-squeeze_blanks f (c ∷ t) = elim (Bool-cases (is_blank c)) [
    | inl e ↦ rw e (
        ground (arith, keep-squeeze_blanks true t, rejects 32 (unfold is_solid in refl), blank c e))
    | inr e ↦ rw e (ground (arith, keep-squeeze_blanks false t))
  ]
    where
      blank : (c : ℕ) → is_blank c ≡ true → p c ≡ false
      blank c e = rejects c (unfold is_solid in ground arith)

  keep-squeeze_lines : (n : ℕ) (t : Text) → keep p (squeeze_lines n t) ≡ keep p t
  unfolding squeeze_lines
  keep-squeeze_lines n [] = refl
  keep-squeeze_lines n (c ∷ t) = ground (
    arith,
    keep-squeeze_lines (if c == 10 then n + 1 else 0) t,
    rejects 10 (unfold is_solid in refl),
  )

  keep_one : (c : ℕ) → is_solid c ≡ false → keep p (c ∷ []) ≡ []
  keep_one c h = rw (rejects c h)

  keep_two : (c d : ℕ) → is_solid c ≡ false → is_solid d ≡ false → keep p (c ∷ d ∷ []) ≡ []
  keep_two c d h k = rw (rejects d k) (keep_one c h)

  pub spaces_rejected : (c : ℕ) → is_space c ≡ true → p c ≡ false
  spaces_rejected c h = rejects c (unfold is_solid in ground arith)

  -- Cleaning keeps every solid character, in order.
  pub keep-clean_text : (t : Text) → keep p (clean_text t) ≡ keep p t
  keep-clean_text t =
      unfold clean_text in
      (let a = replace t (13 ∷ 10 ∷ []) (10 ∷ []) in
        let b = replace a (13 ∷ []) (10 ∷ []) in
        let c = replace b (0xad ∷ []) [] in
        let d = unhyphen 0 c in
        let e = squeeze_blanks false d in
        cc (
          keep-replace p 13 (10 ∷ []) (10 ∷ []) t (keep_two 13 10 solid-cr solid-lf)
              (keep_one 10 solid-lf),
          keep-replace p 13 [] (10 ∷ []) a (keep_one 13 solid-cr) (keep_one 10 solid-lf),
          keep-replace p 0xad [] [] b (keep_one 0xad solid-soft) refl,
          keep-unhyphen 0 c,
          keep-squeeze_blanks false d,
          keep-squeeze_lines 0 e,
          keep-strip p spaces_rejected (squeeze_lines 0 e),
        ))
