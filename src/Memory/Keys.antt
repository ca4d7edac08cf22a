-- ===== src/Memory/Keys.antt =====
-- The texts of memory_service.py: normal forms of contents and keys, and the tests on contents.
-- `lower` is `str.lower`.
pub mod Laws
pub mod Normal
use flowxrag.Prelude.{
  ℕ, List, [], ◌∷◌, ◌++◌, Bool, true, false, not, ◌&&◌, ◌||◌, ◌==◌, leb, if◌then◌else◌, is_empty,
  take, any, map,
}
use flowxrag.Text.{Text, codes, same, strip, is_space, collapse, any_in, contains, ends_with}

unfoldable pub normalize_memory : Text → Text
unfolding strip collapse is_space
normalize_memory text = collapse is_space 32 false (strip text)

-- `[a-zA-Z0-9_.-]`
unfoldable pub is_key_char : ℕ → Bool
is_key_char c =
    leb b'a' c && leb c b'z'
    || (leb b'A' c && leb c b'Z'
        || (leb b'0' c && leb c b'9' || (c == b'_' || (c == b'.' || c == b'-'))))

-- `text or default`
abbrev pub or_text : Text → Text → Text
or_text text default = if is_empty text then default else text

-- A value that is missing is passed as the empty text.
unfoldable pub normalize_key : (Text → Text) → Text → Text
unfolding strip collapse is_key_char
normalize_key lower value =
    let key = lower (strip (or_text value (codes "general"))) in
    or_text (take 120 (collapse (λ c. not (is_key_char c)) 95 false key)) (codes "general")

unfoldable pub infer_memory_key : Text → Text → Text
unfolding contains
infer_memory_key category content =
    if same category (codes "identity")
    then codes "identity.display_name"
    else (if same category (codes "profile")
        then codes "profile.general"
        else (if same category (codes "forget_request")
            then codes "control.forget"
            else (if contains (codes "不喜欢") content
                then codes "preference.dislike"
                else or_text category (codes "memory") ++ codes ".general")))

-- The category and the key of a content; the third test of the source gives the last pair too.
unfoldable pub classify_memory : Text → Text × Text
unfolding contains
classify_memory content =
    if any_in (map codes ("叫我" ∷ "称呼我" ∷ "我是" ∷ "我叫" ∷ "姓名" ∷ "名字" ∷ [])) content
    then (codes "identity", codes "identity.display_name")
    else (if any_in (map codes ("公司" ∷ "团队" ∷ "部门" ∷ "项目" ∷ [])) content
        then (codes "profile", codes "profile.organization")
        else (codes "preference", codes "preference.general"))

module _ (lower : Text → Text) where
  unfoldable pub looks_ephemeral : Text → Bool
  unfolding contains
  looks_ephemeral text =
      any_in
        (map codes
          ("今天" ∷ "明天" ∷ "刚才" ∷ "现在" ∷ "这次" ∷ "临时" ∷ "today" ∷ "tomorrow" ∷ "right now" ∷ []))
        (lower text)

  unfoldable pub is_sensitive : Text → Bool
  unfolding contains
  is_sensitive text =
      any_in (map codes ("密码" ∷ "api key" ∷ "secret" ∷ "身份证" ∷ "银行卡" ∷ "token" ∷ "私钥" ∷ []))
        (lower text)

  unfoldable pub looks_like_question : Text → Bool
  unfolding contains strip
  looks_like_question text =
      let lowered = strip (lower text) in
      any (λ m. ends_with m lowered)
        (map codes (
          "?" ∷ "？" ∷ "吗" ∷ "么" ∷ "谁" ∷ "什么" ∷ "如何" ∷ "怎么" ∷ "where" ∷ "what" ∷ "who" ∷ "how" ∷ []))
      || any_in (map codes ("我是谁" ∷ "你知道我是谁" ∷ [])) lowered
