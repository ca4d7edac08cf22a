-- ===== src/Text/Match.antt =====
-- The pieces of the regular expressions that are searched in a text: each takes the start of a text
-- and gives what is left behind it, or the group that it found.
use flowxrag.Prelude.{
  ℕ, List, [], ◌∷◌, Bool, ◌||◌, ◌==◌, Option, none, some, if◌then◌else◌, is_empty,
}
use flowxrag.Text.Eq.{Text}
use flowxrag.Text.Trim.{lstrip}

-- A literal.
unfoldable pub literal : Text → Text → Option Text
literal [] t = some t
literal (c ∷ p) [] = none
literal (c ∷ p) (d ∷ t) = let rest = literal p t in if c == d then rest else none

abbrev pub or_next {ℓ} : {A : Type ℓ} → Option A → Option A → Option A
or_next none y = y
or_next (some x) y = some x

-- `(?:p|q|...)` for literals of which none starts another
unfoldable pub one_of : List Text → Text → Option Text
unfolding literal
one_of [] t = none
one_of (p ∷ ps) t = or_next (literal p t) (one_of ps t)

-- `(?:p)?`
abbrev pub optional : Text → Text → Text
optional p t = elim (literal p t) [ some rest ↦ rest | none ↦ t ]

abbrev pub bind {ℓ κ} : {A : Type ℓ} {B : Type κ} → Option A → (A → Option B) → Option B
bind none f = none
bind (some a) f = f a

-- The leftmost place of a text where a match is found.
unfoldable pub search : (Text → Option Text) → Text → Option Text
search m [] = m []
search m (c ∷ t) = or_next (m (c ∷ t)) (search m t)

abbrev non_empty : Text → Option Text
non_empty t = if is_empty t then none else some t

-- `\s*(.+)`, for a text without newlines and without white space at its end
unfoldable pub line : Text → Option Text
unfolding lstrip
line t = non_empty (lstrip t)

abbrev pub take_while : (ℕ → Bool) → Text → Text
take_while p [] = []
take_while p (c ∷ t) = let rest = take_while p t in if p c then c ∷ rest else []

-- `[:：]?` in front of `m`, which is also tried without it
abbrev pub after_colon : (Text → Option Text) → Text → Option Text
after_colon m [] = m []
after_colon m (c ∷ t) =
    let plain = m (c ∷ t) in if c == b':' || c == 0xff1a then or_next (m t) plain else plain
