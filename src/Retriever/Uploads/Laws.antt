-- ===== src/Retriever/Uploads/Laws.antt =====
-- The name of an uploaded file leads back to the name it was uploaded under.
use flowxrag.Prelude.{
  ℕ, zero, suc, [], ◌∷◌, ◌++◌, true, false, ◌≡◌, refl, ap, take, drop, length, arith, sym, ◌∙◌,
  drop-drop,
}
use flowxrag.Text.{Text}
use flowxrag.Retriever.Uploads.{safe_from, upload_name, is_hex, all, display_source_name}

take-prefix : (a b : Text) (n : ℕ) → length a ≡ n → take n (a ++ b) ≡ a
take-prefix [] b zero h = refl
take-prefix [] b (suc n) h = absurd (omega arith)
take-prefix (c ∷ a) b zero h = absurd (omega arith)
take-prefix (c ∷ a) b (suc n) h = ap (◌∷◌ c) (take-prefix a b n (omega arith))

drop-prefix : (a b : Text) (n : ℕ) → length a ≡ n → drop n (a ++ b) ≡ b
drop-prefix [] b zero h = refl
drop-prefix [] b (suc n) h = absurd (omega arith)
drop-prefix (c ∷ a) b zero h = absurd (omega arith)
drop-prefix (c ∷ a) b (suc n) h = drop-prefix a b n (omega arith)

-- A saved file is shown under the safe form of its name, where the identifier before it is 32
-- hexadecimal digits.
pub display_source_name-upload_name :
    (hex filename : Text)
    → length hex ≡ 32
    → all is_hex hex ≡ true
    → display_source_name (upload_name hex filename) ≡ safe_from false filename
unfolding display_source_name upload_name
display_source_name-upload_name hex filename n h =
    let rest = b'_' ∷ safe_from false filename in
    rw (take-prefix hex rest 32 n, n, h, drop-prefix hex rest 32 n)
      (sym (drop-drop 1 32 (hex ++ rest)) ∙ ap (drop 1) (drop-prefix hex rest 32 n))
