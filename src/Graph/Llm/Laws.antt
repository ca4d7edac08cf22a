-- ===== src/Graph/Llm/Laws.antt =====
-- How often `invoke_llm` calls the model, how long it sleeps, and where its outcome comes from.
use flowxrag.Prelude.{
  ℕ, zero, suc, ◌+◌, ◌*◌, ◌≤◌, [], ◌∷◌, ◌++◌, ◌&&◌, ◌≡◌, arith, ltb, Bool-cases, inl, inr,
}
use flowxrag.Text.{Text, codes}
use flowxrag.Effects.{
  Result, Result-cases, llm_called, slept, Log, calls, rests, calls-append, rests-append,
}
use flowxrag.Graph.Llm.{is_transient, invoke_from, invoke_llm}

-- The model itself gave this outcome, after some history.
abbrev pub FromModel : (Log → Text → Result Text) → Text → Result Text → Type 0
FromModel llm prompt r = (history : Log) × (llm history prompt ≡ r)

-- The tenths of seconds that the loop may still sleep before its last attempt.
abbrev rest_budget : ℕ → ℕ
rest_budget zero = 0
rest_budget (suc zero) = 30
rest_budget (suc (suc n)) = 45

-- What a run of the loop with `rounds` attempts after the first does to the log.
pub record IsRetry (rounds : ℕ) (before after : Log) : Type 0 where
  pub some_call : calls before + 1 ≤ calls after
  pub few_calls : calls after ≤ calls before + (rounds + 1)
  pub short_rests : rests after ≤ rests before + rest_budget rounds

once : (rounds : ℕ) (prompt : Text) (log : Log) → IsRetry rounds log (log ++ llm_called prompt ∷ [])
once rounds prompt log =
    omega
      (arith, calls-append log (llm_called prompt ∷ []), rests-append log (llm_called prompt ∷ []))

rest_budget_step :
    (rounds k : ℕ)
    → k + suc rounds ≡ 2
    → 15 * (k + 1) + rest_budget rounds ≤ rest_budget (suc rounds)
rest_budget_step zero k h = ground arith
rest_budget_step (suc zero) k h = ground arith
rest_budget_step (suc (suc n)) k h = absurd (omega arith)

again :
    (rounds k : ℕ) (prompt : Text) (log after : Log)
    → k + suc rounds ≡ 2
    → IsRetry rounds (log ++ llm_called prompt ∷ [] ++ slept (15 * (k + 1)) ∷ []) after
    → IsRetry (suc rounds) log after
again rounds k prompt log after h r =
    let called = log ++ llm_called prompt ∷ [] in
    let rested = called ++ slept (15 * (k + 1)) ∷ [] in
    omega (
      arith,
      calls-append log (llm_called prompt ∷ []),
      rests-append log (llm_called prompt ∷ []),
      calls-append called (slept (15 * (k + 1)) ∷ []),
      rests-append called (slept (15 * (k + 1)) ∷ []),
      rest_budget_step rounds k h,
    )

module _ (lower : Text → Text) (llm : Log → Text → Result Text) where
  -- Both facts about a run of the loop.
  abbrev Ran : ℕ → Text → Log → Result Text × Log → Type 0
  Ran rounds prompt log out = FromModel llm prompt out.0 × IsRetry rounds log out.1

  invoke_from-Ran :
      (rounds k : ℕ) (last prompt : Text) (log : Log)
      → k + rounds ≡ 2
      → Ran rounds prompt log (invoke_from lower llm (suc rounds) k last prompt log)
  unfolding invoke_from
  invoke_from-Ran zero k last prompt log h = elim (Result-cases (llm log prompt)) [
    | inl (a, e) ↦ rw (e, invoke_from) ((log, e), once 0 prompt log)
    | inr (x, e) ↦
        rw (e, invoke_from)
          (elim (Bool-cases (ltb k 2 && is_transient lower x)) [
            | inl d ↦ absurd (ground arith)
            | inr d ↦ rw d ((log, e), once 0 prompt log)
          ])
  ]
  invoke_from-Ran (suc rounds) k last prompt log h = elim (Result-cases (llm log prompt)) [
    | inl (a, e) ↦ rw (e, invoke_from) ((log, e), once (suc rounds) prompt log)
    | inr (x, e) ↦
        rw (e, invoke_from)
          (elim (Bool-cases (ltb k 2 && is_transient lower x)) [
            | inl d ↦ rw d (
                let (m, r) =
                  invoke_from-Ran rounds (k + 1) x prompt
                    (log ++ llm_called prompt ∷ [] ++ slept (15 * (k + 1)) ∷ []) (omega arith) in
                (m, again rounds k prompt log _ h r))
            | inr d ↦ rw d ((log, e), once (suc rounds) prompt log)
          ])
  ]

  -- A call of `invoke_llm` ends with an answer or an exception that the model itself gave (the
  -- error after the loop is never raised), after one to three calls of the model and at most 4.5
  -- seconds of sleep.
  pub invoke_llm_bounds :
      (prompt : Text) (log : Log)
      → FromModel llm prompt (invoke_llm lower llm prompt log).0
        × IsRetry 2 log (invoke_llm lower llm prompt log).1
  unfolding invoke_llm
  invoke_llm_bounds prompt log = invoke_from-Ran 2 0 (codes "None") prompt log (omega arith)
