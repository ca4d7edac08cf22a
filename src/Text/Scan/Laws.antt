-- ===== src/Text/Scan/Laws.antt =====
-- A number that is written is read back.
use flowxrag.Prelude.{
  ℕ, zero, suc, ◌+◌, ◌*◌, ◌/◌, ◌%◌, ◌<◌, [], ◌∷◌, true, false, some, ltb, leb, ◌&&◌, is_empty, ◌≡◌,
  refl, ◌∙◌, ap, subst, arith, Bool-cases, inl, inr,
}
use flowxrag.Text.Eq.{Text}
use flowxrag.Text.Scan.{decimal_from, decimal, digits_from, int_of}

is_digit : (d : ℕ) → d < 10 → leb 48 (48 + d) && leb (48 + d) 57 ≡ true
is_digit d h = ground arith

digit_read :
    (value d : ℕ) (t : Text)
    → d < 10
    → digits_from value ((48 + d) ∷ t) ≡ digits_from (value * 10 + d) t
unfolding digits_from
digit_read value d t h = rw (is_digit d h) (ap (λ n. digits_from n t) (omega arith))

decimal_from_read :
    (fuel n : ℕ) (digits : Text)
    → n < fuel
    → digits_from 0 (decimal_from fuel n digits) ≡ digits_from n digits
unfolding decimal_from
decimal_from_read zero n digits h = absurd (omega arith)
decimal_from_read (suc fuel) n digits h = elim (Bool-cases (ltb n 10)) [
  | inl e ↦
      rw e (digit_read 0 n digits (ground arith) ∙ ap (λ m. digits_from m digits) (omega arith))
  | inr e ↦ rw e (
      decimal_from_read fuel (n / 10) ((48 + n % 10) ∷ digits) (ground arith)
      ∙ digit_read (n / 10) (n % 10) digits (omega arith)
      ∙ ap (λ m. digits_from m digits) (omega arith))
]

decimal_from_solid :
    (fuel n c : ℕ) (digits : Text) → is_empty (decimal_from fuel n (c ∷ digits)) ≡ false
unfolding decimal_from
decimal_from_solid zero n c digits = refl
decimal_from_solid (suc fuel) n c digits = elim (Bool-cases (ltb n 10)) [
  | inl e ↦ rw e refl
  | inr e ↦ rw e (decimal_from_solid fuel (n / 10) (48 + n % 10) (c ∷ digits))
]

decimal-solid : (n : ℕ) → is_empty (decimal n) ≡ false
unfolding decimal decimal_from
decimal-solid n = subst (λ fuel. is_empty (decimal_from fuel n []) ≡ false) (succ n) first
  where
    succ : (n : ℕ) → suc n ≡ n + 1
    succ n = omega arith

    first : is_empty (decimal_from (suc n) n []) ≡ false
    first = elim (Bool-cases (ltb n 10)) [
      | inl e ↦ rw e refl
      | inr e ↦ rw e (decimal_from_solid n (n / 10) (48 + n % 10) [])
    ]

pub int_of-decimal : (n : ℕ) → int_of (decimal n) ≡ some n
unfolding int_of decimal digits_from
int_of-decimal n = rw (decimal-solid n) (decimal_from_read (n + 1) n [] (omega arith))
