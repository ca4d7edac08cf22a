-- ===== src/Graph/Llm.antt =====
-- `invoke_llm`: a call of the language model with retries.
pub mod Laws
use flowxrag.Prelude.{
  ℕ, zero, suc, ◌+◌, ◌*◌, List, [], ◌∷◌, ◌++◌, Bool, true, false, ◌&&◌, ltb, map, if◌then◌else◌,
}
use flowxrag.Text.{Text, codes, any_in, contains}
use flowxrag.Effects.{Result, ok, raise, Event, llm_called, slept, Log, M}

-- The errors that are worth another attempt; `lower` is `str.lower`.
unfoldable pub is_transient : (Text → Text) → Text → Bool
unfolding contains
is_transient lower exc =
    any_in (map codes ("502" ∷ "503" ∷ "504" ∷ "timeout" ∷ "temporarily" ∷ [])) (lower exc)

-- `llm` is the remote model.
module _ (lower : Text → Text) (llm : Log → Text → Result Text) where
  -- The body of the loop from attempt number `attempt` on, with `rounds` attempts left.
  unfoldable pub invoke_from : ℕ → ℕ → Text → Text → M Text
  invoke_from zero attempt last_error prompt log =
      (raise (codes "DeepSeek call failed after retries: " ++ last_error), log)
  invoke_from (suc rounds) attempt last_error prompt log =
      let called = log ++ llm_called prompt ∷ [] in
      elim (llm log prompt) [
        | ok response ↦ (ok response, called)
        | raise exc ↦
            let again =
              invoke_from rounds (attempt + 1) exc prompt
                (called ++ slept (15 * (attempt + 1)) ∷ []) in
            if ltb attempt 2 && is_transient lower exc then again else (raise exc, called)
      ]

  unfoldable pub invoke_llm : Text → M Text
  unfolding invoke_from
  invoke_llm prompt = invoke_from 3 0 (codes "None") prompt
