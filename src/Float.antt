-- ===== src/Float.antt =====
-- The `float` arithmetic of the program, as an interface: scores are only added, divided,
-- rounded and compared.
use flowxrag.Prelude.{ℕ, Bool, true, ◌≡◌, ◌⊎◌}

pub record Floats : Type 1 where
  pub F : Type 0
  pub zero_f : F
  pub of_ℕ : ℕ → F
  pub add : F → F → F
  pub sub : F → F → F
  pub mul : F → F → F
  pub div : F → F → F
  pub log : F → F
  -- `round(x, 4)`
  pub round4 : F → F
  pub is_finite : F → Bool
  -- `x <= y`
  pub leq : F → F → Bool

-- The comparison of numbers none of which is NaN.
pub record IsOrder (fl : Floats) : Type 0 where
  pub total : (x y : fl.F) → (fl.leq x y ≡ true) ⊎ (fl.leq y x ≡ true)
  pub trans : (x y z : fl.F) → fl.leq x y ≡ true → fl.leq y z ≡ true → fl.leq x z ≡ true
