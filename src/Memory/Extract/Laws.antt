-- ===== src/Memory/Extract/Laws.antt =====
-- What a message can put into the memory.
use flowxrag.Prelude.{
  ℕ, zero, suc, ◌≤◌, List, [], ◌∷◌, ◌++◌, Bool, true, false, ◌||◌, ltb, ◌≡◌, refl, arith,
  if◌then◌else◌, is_empty, take, length, length-take, map, All, All-take, All-image, Bool-cases,
  inl, inr, subst, sym, ◌∙◌,
}
use flowxrag.Text.{Text, same, same_iff}
use flowxrag.Dict.{put}
use flowxrag.Dict.Laws.{put-All, UniqueKeys, put-UniqueKeys}
use flowxrag.Float.{Floats}
use flowxrag.Effects.{Result, Log}
use flowxrag.Memory.Keys.{
  normalize_memory, normalize_key, infer_memory_key, or_text, looks_like_question,
}
use flowxrag.Memory.Keys.Normal.{normalize_memory-normalize_memory}
use flowxrag.Memory.Keys.Laws.{IsKey, normalize_key-IsKey}
use flowxrag.Memory.Extract.{
  Candidate, LlmItem, replaces, dedupe, chosen, llm_extract_candidates, extract_explicit,
  extract_stable_claims, extract_memory_candidates,
}

module _ {F : Type 0} where
  -- A candidate that is kept: a content of 1 to 500 characters in normal form, and a proper key.
  pub record IsFit (c : Candidate F) : Type 0 where
    pub solid : is_empty c.content ≡ false
    pub short : length c.content ≤ 500
    pub normal : normalize_memory c.content ≡ c.content
    pub key : IsKey c.memory_key

  abbrev pub DistinctKeys : List (Candidate F) → Type 0
  DistinctKeys [] = Unit
  DistinctKeys (c ∷ cs) = All (λ d. same d.memory_key c.memory_key ≡ false) cs × DistinctKeys cs

  DistinctKeys-take : (n : ℕ) (cs : List (Candidate F)) → DistinctKeys cs → DistinctKeys (take n cs)
  DistinctKeys-take zero cs h = tt
  DistinctKeys-take (suc n) [] h = tt
  DistinctKeys-take (suc n) (c ∷ cs) h = (All-take _ n cs h.0, DistinctKeys-take n cs h.1)

  -- The items of the dictionary stand under their own keys.
  abbrev IsOwn : Text × Candidate F → Type 0
  IsOwn item = item.0 ≡ item.1.memory_key

  UniqueKeys-DistinctKeys :
      (items : List (Text × Candidate F))
      → UniqueKeys items
      → All IsOwn items
      → DistinctKeys (map (λ (item : Text × Candidate F). item.1) items)
  UniqueKeys-DistinctKeys [] h own = tt
  UniqueKeys-DistinctKeys (i ∷ items) h own =
      (All-image _ _ items (apart items h.0 own.1), UniqueKeys-DistinctKeys items h.1 own.1)
    where
      apart :
          (is : List (Text × Candidate F))
          → All (λ item. same item.0 i.0 ≡ false) is
          → All IsOwn is
          → All (λ item. same item.1.memory_key i.1.memory_key ≡ false) is
      apart [] a b = tt
      apart (j ∷ is) a b = (
        subst (λ k. same k i.1.memory_key ≡ false) b.0 (subst (λ k. same j.0 k ≡ false) own.0 a.0),
        apart is a.1 b.1,
      )

  -- What the dictionary of the candidates satisfies.
  record IsTidy (items : List (Text × Candidate F)) : Type 0 where
    fit : All (λ item. IsFit item.1) items
    own : All IsOwn items
    unique : UniqueKeys items

  put-IsOwn :
      (b : Candidate F → Candidate F → Bool) (key : Text) (c : Candidate F)
      (items : List (Text × Candidate F))
      → key ≡ c.memory_key
      → All IsOwn items
      → All IsOwn (put b key c items)
  unfolding put
  put-IsOwn b key c [] e h = (e, tt)
  put-IsOwn b key c ((k, d) ∷ items) e h = elim (Bool-cases (same k key)) [
    | inl s ↦ elim (Bool-cases (b c d)) [
      | inl r ↦ rw (s, r) ((same_iff k key).0 s ∙ e, h.1)
      | inr r ↦ rw (s, r) h
    ]
    | inr s ↦ rw s (h.0, put-IsOwn b key c items e h.1)
  ]

pick :
    {A B : Type 0} (P : A → Type 0) (a b : Bool) (x y z : A × B)
    → P x.0
    → P y.0
    → P z.0
    → P (if a then x else (if b then y else z)).0
pick P true b x y z p q r = p
pick P false true x y z p q r = q
pick P false false x y z p q r = r

or_true : (b : Bool) → b || true ≡ true
or_true true = refl
or_true false = refl

module _ (floats : Floats) (lower : Text → Text) where
  open floats use {F}

  dedupe-IsTidy :
      (cs : List (Candidate F)) (kept : List (Text × Candidate F))
      → IsTidy kept
      → IsTidy (dedupe floats lower cs kept)
  unfolding dedupe
  dedupe-IsTidy [] kept h = h
  dedupe-IsTidy (c ∷ cs) kept h = dedupe-IsTidy cs _ (step _ refl)
    where
      content : Text
      content = normalize_memory c.content

      key : Text
      key = normalize_key lower (or_text c.memory_key (infer_memory_key c.category content))

      checked : Candidate F
      checked = record c { content = content; memory_key = key }

      put_checked :
          is_empty content || ltb 500 (length content) ≡ false
          → IsTidy (put (replaces floats lower) key checked kept)
      put_checked e = record {
        fit =
            put-All IsFit (replaces floats lower) key checked kept
              (record {
                solid = ground arith;
                short = ground arith;
                normal = normalize_memory-normalize_memory c.content;
                key =
                    normalize_key-IsKey lower
                      (or_text c.memory_key (infer_memory_key c.category content));
              })
              h.fit;
        own = put-IsOwn (replaces floats lower) key checked kept refl h.own;
        unique = put-UniqueKeys (replaces floats lower) key checked kept h.unique;
      }

      step :
          (bad : Bool)
          → bad ≡ is_empty content || ltb 500 (length content)
          → IsTidy (if bad then kept else put (replaces floats lower) key checked kept)
      step true e = h
      step false e = put_checked (sym e)

  -- What is said of the candidates that a list becomes.
  abbrev pub IsChosen : List (Candidate F) → Type 0
  IsChosen cs = All IsFit cs × DistinctKeys cs × (length cs ≤ 5)

  chosen-IsChosen :
      (loads : Text → Result (List (LlmItem F))) (llm : Log → Text → Result Text)
      (cs : List (Candidate F))
      → IsChosen (chosen floats lower loads llm cs)
  chosen-IsChosen loads llm cs =
      let h = dedupe-IsTidy cs [] (record { fit = tt; own = tt; unique = tt }) in
      let items = dedupe floats lower cs [] in
      (
        All-take _ 5 _ (All-image _ _ items h.fit),
        DistinctKeys-take 5 _ (UniqueKeys-DistinctKeys items h.unique h.own),
        omega (arith, length-take 5 (map (λ (item : Text × Candidate F). item.1) items)),
      )

  -- The candidates of a message, by the rules or by the model: whatever either says, there are at
  -- most five, each with a content of 1 to 500 characters, which normalizing does not change, and a
  -- proper key, and no two with the same key.
  pub extract_memory_candidates-IsChosen :
      (loads : Text → Result (List (LlmItem F))) (llm : Log → Text → Result Text) (text : Text)
      (log : Log)
      → IsChosen (extract_memory_candidates floats lower loads llm text log).0
  unfolding extract_memory_candidates
  extract_memory_candidates-IsChosen loads llm text log =
      let normalized = normalize_memory text in
      let rules =
        extract_explicit floats lower normalized ++ extract_stable_claims floats lower normalized in
      let second = llm_extract_candidates floats lower loads llm normalized log in
      pick IsChosen (is_empty normalized || looks_like_question lower normalized) (is_empty rules)
        ([], log) (chosen floats lower loads llm second.0, second.1)
        (chosen floats lower loads llm rules, log) (tt, tt, omega arith)
        (chosen-IsChosen loads llm second.0) (chosen-IsChosen loads llm rules)

  -- A question leaves nothing and asks no model.
  pub extract_memory_candidates-question :
      (loads : Text → Result (List (LlmItem F))) (llm : Log → Text → Result Text) (text : Text)
      (log : Log)
      → looks_like_question lower (normalize_memory text) ≡ true
      → extract_memory_candidates floats lower loads llm text log ≡ ([], log)
  unfolding extract_memory_candidates
  extract_memory_candidates-question loads llm text log h =
      rw (h, or_true (is_empty (normalize_memory text))) refl
