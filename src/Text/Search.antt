-- ===== src/Text/Search.antt =====
-- Prefixes and substrings, `str.split(sep)` and `str.replace(old, new)`.
pub mod Laws
use flowxrag.Prelude.{
  ℕ, zero, suc, ◌+◌, ◌-◌, ◌≤◌, List, [], ◌∷◌, ◌++◌, Bool, true, false, not, ◌&&◌, ◌||◌, ◌≡◌, arith,
  ◌==◌, leb, refl, if◌then◌else◌, ap, length, keep, keep-append, is_empty, Bool-cases, inl, inr,
  All, any, append_assoc,
}
use flowxrag.Text.Eq.{Text, same, concat, join}

-- `t.startswith(p)`
abbrev pub starts_with : Text → Text → Bool
starts_with [] t = true
starts_with (c ∷ p) [] = false
starts_with (c ∷ p) (d ∷ t) = c == d && starts_with p t

-- `p in t`
unfoldable pub contains : Text → Text → Bool
contains p [] = starts_with p []
contains p (c ∷ t) = starts_with p (c ∷ t) || contains p t

-- `t.endswith(p)`
abbrev pub ends_with : Text → Text → Bool
ends_with p [] = same p []
ends_with p (c ∷ t) = same p (c ∷ t) || ends_with p t

-- `any(marker in t for marker in markers)`
abbrev pub any_in : List Text → Text → Bool
any_in markers t = any (λ m. contains m t) markers

-- The characters of a separator behind its first.
abbrev tail_length : Text → ℕ
tail_length [] = 0
tail_length (c ∷ t) = length t

-- One character in front of the first piece.
abbrev push : ℕ → List Text → List Text
push c [] = (c ∷ []) ∷ []
push c (p ∷ ps) = (c ∷ p) ∷ ps

-- The scan of `t.split(sep)`: `skip` characters of a separator are still to be passed.
split_from : Text → ℕ → Text → List Text
split_from sep skip [] = [] ∷ []
split_from sep (suc skip) (c ∷ t) = split_from sep skip t
split_from sep zero (c ∷ t) =
    let hit = starts_with sep (c ∷ t) in
    let rest = split_from sep (if hit then tail_length sep else 0) t in
    if hit then [] ∷ rest else push c rest

-- `t.split(sep)` for a separator that is not empty
unfoldable pub split : Text → Text → List Text
unfolding split_from
split t sep = split_from sep 0 t

replace_from : Text → Text → ℕ → Text → Text
replace_from old new skip [] = []
replace_from old new (suc skip) (c ∷ t) = replace_from old new skip t
replace_from old new zero (c ∷ t) =
    let hit = starts_with old (c ∷ t) in
    let rest = replace_from old new (if hit then tail_length old else 0) t in
    if hit then new ++ rest else c ∷ rest

-- `t.replace(old, new)` for a text `old` that is not empty
unfoldable pub replace : Text → Text → Text → Text
unfolding replace_from
replace t old new = replace_from old new 0 t
