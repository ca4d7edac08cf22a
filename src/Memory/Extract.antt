-- ===== src/Memory/Extract.antt =====
-- What a message says for the memory: `extract_memory_candidates` of memory_service.py with the
-- rules and the model's second pass.
pub mod Laws
use flowxrag.Prelude.{
  ℕ, List, [], ◌∷◌, ◌++◌, Bool, true, false, not, ◌&&◌, ◌||◌, ◌==◌, ltb, leb, Option, none, some,
  if◌then◌else◌, is_empty, length, take, map, reverse,
}
use flowxrag.Text.{Text, codes, same, strip, is_space, contains, lstrip}
use flowxrag.Text.Match.{
  literal, or_next, one_of, optional, bind, search, line, take_while, after_colon,
}
use flowxrag.Float.{Floats}
use flowxrag.Effects.{Result, ok, raise, Log, M}
use flowxrag.Graph.Llm.{invoke_llm}
use flowxrag.Dict.{put}
use flowxrag.Memory.Keys.{
  normalize_memory, normalize_key, infer_memory_key, classify_memory, looks_like_question, or_text,
}

pub record Candidate (F : Type 0) : Type 0 where
  pub content : Text
  pub category : Text
  pub memory_key : Text
  pub source : Text
  pub confidence : F
  pub importance : F
  pub reason : Text

-- A dictionary in the model's answer, with the keys that it has.
pub record LlmItem (F : Type 0) : Type 0 where
  pub content : Option Text
  pub category : Option Text
  pub memory_key : Option Text
  pub confidence : Option F
  pub importance : Option F
  pub reason : Option Text

abbrev pub get {ℓ} : {A : Type ℓ} → Option A → A → A
get none default = default
get (some x) default = x

-- `([^\s，。,.!！?？]{1,40})` behind `\s*`
unfoldable pub is_delimiter : ℕ → Bool
unfolding is_space
is_delimiter c =
    is_space c
    || (c == 0xff0c
        || (c == 0x3002
            || (c == b','
                || (c == b'.' || (c == b'!' || (c == 0xff01 || (c == b'?' || c == 0xff1f)))))))

unfoldable pub short_name : Text → Option Text
unfolding is_delimiter lstrip
short_name t =
    let name = take 40 (take_while (λ c. not (is_delimiter c)) (lstrip t)) in
    if is_empty name then none else some name

-- The searches, on normal text. `(?:请)?` in front of the first changes nothing, since a match
-- without it is found one character later, with the same group.
unfoldable pub remember_match : Text → Option Text
unfolding search literal line
remember_match = search (λ t. bind (literal (codes "记住") t) (after_colon line))

unfoldable pub call_match : Text → Option Text
unfolding search literal one_of short_name
call_match = search (λ t. bind (literal (codes "以后") t) (λ rest.
    bind (one_of (map codes ("叫我" ∷ "称呼我" ∷ [])) (optional (codes "都") (optional (codes "请") rest)))
      (after_colon short_name)))

unfoldable pub forget_match : Text → Option Text
unfolding search one_of line
forget_match =
    search (λ t. bind (one_of (map codes ("忘记" ∷ "删除记忆" ∷ "别再记住" ∷ [])) t) (after_colon line))

unfoldable pub name_match : Text → Option Text
unfolding search one_of short_name
name_match = search (λ t. bind (one_of (map codes ("我是" ∷ "我叫" ∷ "本人是" ∷ [])) t) short_name)

unfoldable pub like_match : Text → Option Text
unfolding search literal one_of line
like_match = search (λ t.
    bind (literal (codes "我") t)
      (λ rest. bind (one_of (map codes ("喜欢" ∷ "偏好" ∷ [])) (optional (codes "更") rest)) line))

unfoldable pub dislike_match : Text → Option Text
unfolding search literal line
dislike_match = search (λ t. bind (literal (codes "我不喜欢") t) line)

unfoldable pub org_match : Text → Option Text
unfolding search literal one_of line
org_match = search (λ t. bind (literal (codes "我的") t) (λ rest.
    bind (one_of (map codes ("公司" ∷ "团队" ∷ "部门" ∷ "项目" ∷ [])) rest)
      (λ behind. bind (one_of (map codes ("是" ∷ "叫" ∷ "为" ∷ [])) behind) line)))

-- `re.search(r"\{.*\}", raw, flags=re.S)`: from the first opening brace to the last closing one.
unfoldable pub up_to_brace : Text → Option Text
up_to_brace [] = none
up_to_brace (c ∷ t) =
    let rest = up_to_brace t in
    elim rest [ some found ↦ some (c ∷ found) | none ↦ if c == 125 then some (c ∷ []) else none ]

unfoldable pub braces : Text → Option Text
unfolding up_to_brace
braces [] = none
braces (c ∷ t) = let rest = braces t in if c == 123 then up_to_brace (c ∷ t) else rest

module _ (floats : Floats) (lower : Text → Text) where
  open floats use {F, zero_f, of_ℕ, div, leq}

  -- A decimal fraction of the source, in hundredths.
  abbrev pub hundredths : ℕ → F
  hundredths n = div (of_ℕ n) (of_ℕ 100)

  -- `max(0.0, min(1.0, x))`
  abbrev pub clamp : F → F
  clamp x = let low = if leq (of_ℕ 1) x then of_ℕ 1 else x in if leq low zero_f then zero_f else low

  -- `_candidate`
  unfoldable pub make_candidate : Text → Text → Text → Text → F → F → Text → Candidate F
  unfolding normalize_memory normalize_key
  make_candidate content category memory_key source confidence importance reason = record {
    content = normalize_memory content;
    category = category;
    memory_key = normalize_key lower memory_key;
    source = source;
    confidence = clamp confidence;
    importance = clamp importance;
    reason = reason;
  }

  -- The candidate of a match, if there is one.
  abbrev pub found : Option Text → (Text → Candidate F) → List (Candidate F)
  found none make = []
  found (some t) make = make t ∷ []

  unfoldable pub extract_explicit : Text → List (Candidate F)
  unfolding make_candidate remember_match call_match forget_match classify_memory
  extract_explicit text =
      found (remember_match text) (λ content.
        let kind = classify_memory content in
        make_candidate content kind.0 kind.1 (codes "explicit") (hundredths 100) (hundredths 90)
          (codes "user asked to remember"))
      ++ (found (call_match text) (λ name.
            make_candidate (codes "用户希望被称呼为" ++ name) (codes "identity")
              (codes "identity.display_name") (codes "explicit") (hundredths 100) (hundredths 95)
              (codes "preferred name"))
          ++ found (forget_match text) (λ content.
            make_candidate content (codes "forget_request") (codes "control.forget")
              (codes "explicit") (hundredths 100) (hundredths 100) (codes "forget request")))

  unfoldable pub extract_stable_claims : Text → List (Candidate F)
  unfolding make_candidate name_match like_match dislike_match org_match looks_like_question
  extract_stable_claims text =
      let observed = codes "observed" in
      if looks_like_question lower text
      then []
      else found (name_match text) (λ name.
        make_candidate (codes "用户姓名或自称是" ++ name) (codes "identity") (codes "identity.display_name")
          observed (hundredths 90) (hundredths 90) (codes "self identification"))
        ++ (found (like_match text) (λ liked.
              make_candidate (codes "用户偏好：" ++ liked) (codes "preference")
                (codes "preference.general") observed (hundredths 75) (hundredths 65)
                (codes "stated preference"))
            ++ (found (dislike_match text) (λ disliked.
                  make_candidate (codes "用户不喜欢：" ++ disliked) (codes "preference")
                    (codes "preference.dislike") observed (hundredths 75) (hundredths 65)
                    (codes "stated dislike"))
                ++ found (org_match text) (λ org.
                  make_candidate (codes "用户组织信息：" ++ org) (codes "profile")
                    (codes "profile.organization") observed (hundredths 80) (hundredths 70)
                    (codes "organization profile"))))

  -- The dictionary of the last step, by the keys: an explicit candidate is not replaced by one that
  -- is not, any other is.
  abbrev pub replaces : Candidate F → Candidate F → Bool
  replaces new old = not (same old.source (codes "explicit")) || same new.source (codes "explicit")

  -- The loop over the candidates.
  unfoldable pub dedupe : List (Candidate F) → List (Text × Candidate F) → List (Text × Candidate F)
  unfolding put normalize_memory normalize_key infer_memory_key
  dedupe [] kept = kept
  dedupe (c ∷ candidates) kept =
      let content = normalize_memory c.content in
      let key = normalize_key lower (or_text c.memory_key (infer_memory_key c.category content)) in
      let checked = record c { content = content; memory_key = key } in
      dedupe candidates (
        if is_empty content || ltb 500 (length content)
        then kept
        else put replaces key checked kept)

  unfoldable pub extract_prompt : Text → Text
  extract_prompt text =
      codes "Extract durable user memories from the message. Return JSON only: "
      ++ (codes
            "{\"memories\":[{\"content\":\"...\",\"category\":\"identity|preference|profile|work_context|goal\","
          ++ (codes
                "\"memory_key\":\"stable dotted key\",\"confidence\":0.0,\"importance\":0.0,\"reason\":\"...\"}]}.\n"
              ++ (codes
                    "Only include stable, future-useful information. Exclude secrets, health, financial, legal, one-off, or temporary details.\n"
                  ++ (codes "Message: " ++ text))))

  abbrev pub llm_candidate : LlmItem F → Candidate F
  llm_candidate item =
      make_candidate (get item.content []) (get item.category (codes "preference"))
        (get item.memory_key []) (codes "observed") (get item.confidence (hundredths 65))
        (get item.importance (hundredths 55)) (get item.reason (codes "llm extracted"))

  -- `loads` reads the dictionaries in the list `memories` of a JSON text, or raises; `llm` is the
  -- remote model.
  module _ (loads : Text → Result (List (LlmItem F))) (llm : Log → Text → Result Text) where
    abbrev pub items_of : Option Text → Result (List (LlmItem F))
    items_of none = ok []
    items_of (some body) = loads body

    abbrev pub candidates_of : Result (List (LlmItem F)) → List (Candidate F)
    candidates_of (ok items) = map llm_candidate items
    candidates_of (raise e) = []

    abbrev pub answered : Result Text → List (Candidate F)
    answered (ok response) = candidates_of (items_of (braces (strip response)))
    answered (raise e) = []

    -- Any exception on the way leaves no candidates.
    unfoldable pub llm_extract_candidates : Text → Log → List (Candidate F) × Log
    unfolding invoke_llm braces strip make_candidate
    llm_extract_candidates text log =
        let (answer, log') = invoke_llm lower llm (extract_prompt text) log in
        (answered answer, log')

    -- What a list of candidates becomes at the end.
    abbrev pub chosen : List (Candidate F) → List (Candidate F)
    chosen candidates = take 5 (map (λ (item : Text × Candidate F). item.1) (dedupe candidates []))

    unfoldable pub extract_memory_candidates : Text → Log → List (Candidate F) × Log
    unfolding llm_extract_candidates extract_explicit extract_stable_claims dedupe normalize_memory
        looks_like_question
    extract_memory_candidates text log =
        let normalized = normalize_memory text in
        let rules = extract_explicit normalized ++ extract_stable_claims normalized in
        let second = llm_extract_candidates normalized log in
        if is_empty normalized || looks_like_question lower normalized
        then ([], log)
        else (if is_empty rules then (chosen second.0, second.1) else (chosen rules, log))
