-- ===== src/Graph/Web.antt =====
-- The Tavily search: `has_valid_tavily_key`, `search_web` and `normalize_tavily_results`.
use flowxrag.Prelude.{
  List, [], ◌∷◌, ◌++◌, Bool, not, ◌&&◌, Option, none, some, if◌then◌else◌, is_empty,
}
use flowxrag.Text.{Text, codes, strip, strip_char, starts_with, contains, join}
use flowxrag.Effects.{Result, ok, raise, web_called, M}
use flowxrag.Graph.{
  WebItem, ResultItem, dict, other, ToolResult, plain, answered, items, Source, from_web, Services,
}

unfoldable pub is_valid_tavily_key : Text → Bool
unfolding strip strip_char contains
is_valid_tavily_key raw =
    let key = strip_char 39 (strip_char 34 (strip raw)) in
    not (is_empty key)
    && (starts_with (codes "tvly-") key && not (contains (codes "your-tavily-api-key") key))

-- `d.get(key, default)`
abbrev pub get {ℓ} : {A : Type ℓ} → Option A → A → A
get none default = default
get (some a) default = a

-- `d.get(key) or rest`
abbrev pub get_or : Option Text → Text → Text
get_or none rest = rest
get_or (some t) rest = if is_empty t then rest else t

-- The first text block, where there is an answer.
abbrev pub answer_block : Text → List Text
answer_block answer = if is_empty answer then [] else answer ∷ []

module _ {F : Type 0} where
  unfoldable pub item_block : WebItem F → Text
  unfolding strip
  item_block item = strip (
      codes "- "
      ++ (get item.title (codes "Web result")
          ++ (codes "\n  URL: "
              ++ (get item.url []
                  ++ (codes "\n  Content: " ++ get_or item.content (get_or item.raw_content []))))))

  -- The loop over `items`: the text blocks and the sources.
  unfoldable pub read_items : List (ResultItem F) → List Text × List (Source F)
  unfolding item_block
  read_items [] = ([], [])
  read_items (other t ∷ rest) = let (blocks, sources) = read_items rest in (t ∷ blocks, sources)
  read_items (dict item ∷ rest) =
      let (blocks, sources) = read_items rest in
      (
        item_block item ∷ blocks,
        from_web (get item.title (codes "Web result")) (get item.url []) item.score ∷ sources,
      )

  abbrev pub joined : Text → List Text × List (Source F) → Text × List (Source F)
  joined answer (blocks, sources) =
      (strip (join (10 ∷ []) (answer_block answer ++ blocks)), sources)

  unfoldable pub normalize_tavily_results : ToolResult F → Text × List (Source F)
  unfolding read_items strip
  normalize_tavily_results (plain t) = (t, [])
  normalize_tavily_results (answered answer results self) =
      joined (get answer []) (read_items (get results (dict self ∷ [])))
  normalize_tavily_results (items xs) = joined [] (read_items xs)

module _ (sv : Services) where
  open sv use {floats, tavily_api_key, tavily}

  abbrev normalized : Result (ToolResult floats.F) → Result (Text × List (Source floats.F))
  normalized (ok results) = ok (normalize_tavily_results results)
  normalized (raise e) = raise e

  unfoldable pub search_web : Text → M (Text × List (Source floats.F))
  unfolding is_valid_tavily_key normalize_tavily_results
  search_web query log =
      if is_valid_tavily_key tavily_api_key
      then (normalized (tavily log query), log ++ web_called query ∷ [])
      else (raise (codes "TAVILY_API_KEY is not configured."), log)
