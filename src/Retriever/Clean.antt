-- ===== src/Retriever/Clean.antt =====
-- `clean_text` of backend/retriever.py: each of its regular expressions is a scan of its own.
pub mod Laws
pub mod Shape
use flowxrag.Prelude.{
  ℕ, zero, suc, List, [], ◌∷◌, Bool, true, false, ◌&&◌, ◌||◌, Option, none, some, ◌==◌, leb, ltb,
  if◌then◌else◌, ◌+◌,
}
use flowxrag.Text.{Text, replace, strip}

-- `[A-Za-z]`
pub is_letter : ℕ → Bool
is_letter c = (leb b'A' c && leb c b'Z') || (leb b'a' c && leb c b'z')

-- `[ \t]`
pub is_blank : ℕ → Bool
is_blank c = c == 32 || c == 9

-- A match of `([A-Za-z])-\n([A-Za-z])` at the start of a text, with its second group.
pub line_break : Text → Option ℕ
unfolding is_letter
line_break (a ∷ h ∷ n ∷ b ∷ t) =
    if is_letter a && (h == b'-' && (n == 10 && is_letter b)) then some b else none
line_break _ = none

abbrev pub skipped : Option ℕ → ℕ
skipped none = 0
skipped (some b) = 3

abbrev pub emitted : ℕ → Option ℕ → Text → Text
emitted c none rest = c ∷ rest
emitted c (some b) rest = c ∷ b ∷ rest

-- The substitution of `\1\2` for such matches, from left to right: `skip` characters of the last
-- match are still to be passed.
pub unhyphen : ℕ → Text → Text
unfolding line_break
unhyphen skip [] = []
unhyphen (suc skip) (c ∷ t) = unhyphen skip t
unhyphen zero (c ∷ t) =
    let hit = line_break (c ∷ t) in let rest = unhyphen (skipped hit) t in emitted c hit rest

-- `[ \t]+` becomes one space; the flag says that the character before was blank.
pub squeeze_blanks : Bool → Text → Text
unfolding is_blank
squeeze_blanks before [] = []
squeeze_blanks before (c ∷ t) =
    let rest = squeeze_blanks (is_blank c) t in
    if is_blank c then (if before then rest else 32 ∷ rest) else c ∷ rest

-- `\n{3,}` becomes two newlines; the number counts those just before.
pub squeeze_lines : ℕ → Text → Text
squeeze_lines seen [] = []
squeeze_lines seen (c ∷ t) =
    let newline = c == 10 in
    let rest = squeeze_lines (if newline then seen + 1 else 0) t in
    if newline && ltb 1 seen then rest else c ∷ rest

unfoldable pub clean_text : Text → Text
unfolding unhyphen squeeze_blanks squeeze_lines replace strip
clean_text text =
    let unix = replace (replace text (13 ∷ 10 ∷ []) (10 ∷ [])) (13 ∷ []) (10 ∷ []) in
    let soft = replace unix (0xad ∷ []) [] in
    strip (squeeze_lines 0 (squeeze_blanks false (unhyphen 0 soft)))
