-- ===== src/Text/Trim.antt =====
-- `str.isspace` of one character and `str.strip`.
pub mod Laws
use flowxrag.Prelude.{
  ℕ, ◌+◌, ◌≤◌, List, [], ◌∷◌, ◌++◌, Bool, true, false, not, ◌&&◌, ◌||◌, ◌≡◌, arith, ◌==◌, leb, refl,
  if◌then◌else◌, ap, length, keep, is_empty, Bool-cases, inl, inr, All, ◌↔◌,
}
use flowxrag.Text.Eq.{Text}

-- The code points that `\s` and `str.strip` take for white space.
unfoldable pub is_space : ℕ → Bool
is_space c =
    (leb 9 c && leb c 13)
    || (leb 28 c && leb c 32)
    || c == 0x85
    || c == 0xa0
    || c == 0x1680
    || (leb 0x2000 c && leb c 0x200a)
    || c == 0x2028
    || c == 0x2029
    || c == 0x202f
    || c == 0x205f
    || c == 0x3000

unfoldable pub lstrip : Text → Text
lstrip [] = []
lstrip (c ∷ t) = let rest = lstrip t in if is_space c then rest else c ∷ t

pub rstrip : Text → Text
rstrip [] = []
rstrip (c ∷ t) = let rest = rstrip t in if is_space c && is_empty rest then [] else c ∷ rest

unfoldable pub strip : Text → Text
unfolding lstrip rstrip is_space
strip t = rstrip (lstrip t)

length-lstrip-le : (t : Text) → length (lstrip t) ≤ length t
unfolding lstrip
length-lstrip-le [] = omega arith
length-lstrip-le (c ∷ t) = ground (arith, length-lstrip-le t)

length-rstrip-le : (t : Text) → length (rstrip t) ≤ length t
unfolding rstrip
length-rstrip-le [] = omega arith
length-rstrip-le (c ∷ t) = ground (arith, length-rstrip-le t)

pub length-strip-le : (t : Text) → length (strip t) ≤ length t
length-strip-le t = unfold strip in omega (arith, length-rstrip-le (lstrip t), length-lstrip-le t)
