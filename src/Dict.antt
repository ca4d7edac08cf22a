-- ===== src/Dict.antt =====
-- Python's `dict` with texts for keys.
pub mod Laws
use flowxrag.Prelude.{Bool, List, [], ◌∷◌, if◌then◌else◌}
use flowxrag.Text.{Text, same}

-- A dictionary from texts, as the list of its items in the order of insertion: the value at a key
-- is replaced where `better new old`.
unfoldable pub put : {A : Type 0} → (A → A → Bool) → Text → A → List (Text × A) → List (Text × A)
put better key x [] = (key, x) ∷ []
put better key x ((k, y) ∷ items) =
    let rest = put better key x items in
    if same k key then (k, if better x y then x else y) ∷ items else (k, y) ∷ rest
