-- ===== src/Retriever/Tokens.antt =====
-- The tokenizers and the query test of backend/retriever.py. `lower` is `str.lower`.
use flowxrag.Prelude.{
  ℕ, List, [], ◌∷◌, ◌++◌, Bool, false, not, ◌&&◌, ◌||◌, ◌==◌, leb, if◌then◌else◌, is_empty, length,
  take, keep, map,
}
use flowxrag.Text.{Text, codes, same, any_in, close_run, runs, split_class, contains}
use flowxrag.Retriever.Clean.{clean_text}

-- `[a-z0-9]`
pub is_alnum : ℕ → Bool
is_alnum c = (leb b'a' c && leb c b'z') || (leb b'0' c && leb c b'9')

-- `[-_./]`
pub is_joiner : ℕ → Bool
is_joiner c = c == b'-' || (c == b'_' || (c == b'.' || c == b'/'))

-- `[\u4e00-\u9fff]`
pub is_han : ℕ → Bool
is_han c = leb 0x4e00 c && leb c 0x9fff

abbrev pub starts_alnum : Text → Bool
starts_alnum [] = false
starts_alnum (c ∷ t) = is_alnum c

-- `re.findall` of `[a-z0-9]+(?:[-_./][a-z0-9]+)*%?`, with the characters of the match that is open:
-- a joiner goes on with the match where a letter or digit follows, and a percent sign ends it.
pub technical_from : Text → Text → List Text
unfolding is_alnum is_joiner
technical_from open_match [] = close_run open_match
technical_from open_match (c ∷ t) =
    let inside = not (is_empty open_match) in
    let goes_on = is_alnum c || (inside && (is_joiner c && starts_alnum t)) in
    let rest = technical_from (if goes_on then open_match ++ c ∷ [] else []) t in
    if goes_on
    then rest
    else (if inside && c == b'%' then open_match ++ c ∷ [] else open_match) ∷ rest

abbrev pub non_empty : List Text → List Text
non_empty = keep (λ t. not (is_empty t))

unfoldable pub technical_tokens : Text → List Text
unfolding technical_from
technical_tokens text = non_empty (technical_from [] text)

-- `phrase[index : index + size]` for each index at which so many characters are left
unfoldable pub windows : ℕ → Text → List Text
windows size [] = []
windows size (c ∷ t) =
    let rest = windows size t in if leb size (length (c ∷ t)) then take size (c ∷ t) ∷ rest else []

-- A short phrase is a token; a longer one counts by its pairs and triples.
unfoldable pub phrase_tokens : Text → List Text
unfolding windows
phrase_tokens phrase =
    if leb (length phrase) 2 then phrase ∷ [] else windows 2 phrase ++ windows 3 phrase

abbrev pub flat_map : (Text → List Text) → List Text → List Text
flat_map f [] = []
flat_map f (t ∷ ts) = f t ++ flat_map f ts

-- A technical token and the parts between its joiners.
unfoldable pub with_parts : Text → List Text
unfolding is_joiner split_class
with_parts token =
    token
    ∷ keep (λ part. not (is_empty part) && not (same part token)) (split_class is_joiner token)

abbrev pub overview_phrases : List Text
overview_phrases = map codes (
    "讲什么" ∷ "写什么" ∷ "写的什么" ∷ "写得什么" ∷ "说什么" ∷ "是啥" ∷ "干嘛" ∷ "主要内容" ∷ "核心内容" ∷ "总结" ∷ "概括" ∷ "概述"
    ∷ "摘要" ∷ "介绍一下" ∷ "这篇" ∷ "这份" ∷ "这个文档" ∷ "这篇论文" ∷ "这篇文章" ∷ "论文内容" ∷ "文档内容" ∷ "what is this"
    ∷ "summarize" ∷ "summary" ∷ "overview" ∷ [])

module _ (lower : Text → Text) where
  unfoldable pub bm25_tokenize : Text → List Text
  unfolding technical_tokens with_parts phrase_tokens runs is_han
  bm25_tokenize raw =
      let text = lower raw in
      flat_map with_parts (technical_tokens text) ++ flat_map phrase_tokens (runs is_han text)

  -- The tokenizer of the hashing fallback.
  unfoldable pub tokenize : Text → List Text
  unfolding phrase_tokens runs is_han is_alnum
  tokenize raw =
      let text = lower raw in
      runs (λ c. is_alnum c || c == b'_') text ++ flat_map phrase_tokens (runs is_han text)

  unfoldable pub is_document_overview_query : Text → Bool
  unfolding clean_text contains
  is_document_overview_query raw =
      let query = lower (clean_text raw) in
      if is_empty query then false else any_in overview_phrases query
