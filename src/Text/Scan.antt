-- ===== src/Text/Scan.antt =====
-- Regular expressions over one class of characters, decimal numbers, and stripped quotes.
pub mod Laws
use flowxrag.Prelude.{
  ◌-◌, ◌*◌, ◌&&◌, leb, Option, none, some, is_empty, ℕ, zero, suc, ◌+◌, ◌/◌, ◌%◌, List, [], ◌∷◌,
  ◌++◌, Bool, ◌==◌, ltb, if◌then◌else◌, reverse,
}
use flowxrag.Text.Eq.{Text}

-- What a run of matching characters leaves when it ends.
abbrev pub close_run : Text → List Text
close_run [] = []
close_run (c ∷ run) = (c ∷ run) ∷ []

-- `re.findall("[p]+", t)`, with the characters of the run that is open
runs_from : (ℕ → Bool) → Text → Text → List Text
runs_from p run [] = close_run run
runs_from p run (c ∷ t) =
    let rest = runs_from p (if p c then run ++ c ∷ [] else []) t in
    if p c then rest else close_run run ++ rest

unfoldable pub runs : (ℕ → Bool) → Text → List Text
unfolding runs_from
runs p t = runs_from p [] t

-- `re.split("[p]", t)`, with the characters of the piece that is open
split_class_from : (ℕ → Bool) → Text → Text → List Text
split_class_from p piece [] = piece ∷ []
split_class_from p piece (c ∷ t) =
    let rest = split_class_from p (if p c then [] else piece ++ c ∷ []) t in
    if p c then piece ∷ rest else rest

unfoldable pub split_class : (ℕ → Bool) → Text → List Text
unfolding split_class_from
split_class p t = split_class_from p [] t

-- `str(n)`; a number has no more digits than its value and one.
decimal_from : ℕ → ℕ → Text → Text
decimal_from zero n digits = digits
decimal_from (suc fuel) n digits =
    let more = decimal_from fuel (n / 10) ((48 + n % 10) ∷ digits) in
    if ltb n 10 then (48 + n) ∷ digits else more

unfoldable pub decimal : ℕ → Text
unfolding decimal_from
decimal n = decimal_from (n + 1) n []

lstrip_char : ℕ → Text → Text
lstrip_char q [] = []
lstrip_char q (c ∷ t) = let rest = lstrip_char q t in if c == q then rest else c ∷ t

-- `t.strip(q)` for one character
unfoldable pub strip_char : ℕ → Text → Text
unfolding lstrip_char
strip_char q t = reverse (lstrip_char q (reverse (lstrip_char q t)))

-- `int(text)` for ASCII digits, after the value of those before.
unfoldable pub digits_from : ℕ → Text → Option ℕ
digits_from value [] = some value
digits_from value (c ∷ t) =
    let rest = digits_from (value * 10 + (c - 48)) t in if leb 48 c && leb c 57 then rest else none

-- `int(text)` for a text of ASCII digits; `none` is `ValueError`. The other numerals that `int`
-- reads, such as one with a sign, are not written by `str`.
unfoldable pub int_of : Text → Option ℕ
unfolding digits_from
int_of t = if is_empty t then none else digits_from 0 t

-- `re.sub("[p]+", r, t)` for a single character `r`: the flag says that the character before
-- belongs to a run.
unfoldable pub collapse : (ℕ → Bool) → ℕ → Bool → Text → Text
collapse p r inside [] = []
collapse p r inside (c ∷ t) =
    let rest = collapse p r (p c) t in if p c then (if inside then rest else r ∷ rest) else c ∷ rest
