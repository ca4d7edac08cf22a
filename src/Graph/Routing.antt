-- ===== src/Graph/Routing.antt =====
-- The tests on the question that choose a route.
use flowxrag.Prelude.{List, [], ◌∷◌, ◌++◌, Bool, true, map, if◌then◌else◌, is_empty}
use flowxrag.Text.{Text, codes, any_in, strip, contains}
use flowxrag.Graph.{Route, auto, local, web, model}

abbrev pub web_markers : List Text
web_markers = map codes (
    "天气" ∷ "气温" ∷ "下雨" ∷ "降雨" ∷ "台风" ∷ "空气质量" ∷ "股价" ∷ "股票" ∷ "汇率" ∷ "币价" ∷ "价格" ∷ "赛事" ∷ "赛程"
    ∷ "联网" ∷ "网上" ∷ "全网" ∷ "搜索一下" ∷ "查一下最新" ∷ "最新" ∷ "今天" ∷ "实时" ∷ "新闻" ∷ "当前" ∷ "现在" ∷ "web"
    ∷ "internet" ∷ "latest" ∷ "today" ∷ "current" ∷ [])

abbrev pub document_markers : List Text
document_markers = map codes (
    "文档" ∷ "文件" ∷ "pdf" ∷ "附件" ∷ "知识库" ∷ "已上传" ∷ "入库" ∷ "这篇" ∷ "这份" ∷ "这本" ∷ "这个材料" ∷ "这篇文章"
    ∷ "这篇论文" ∷ "论文" ∷ "报告" ∷ "研报" ∷ "简历" ∷ "合同" ∷ "标书" ∷ "材料" ∷ "材料里" ∷ "文档里" ∷ "文件里" ∷ "报告里"
    ∷ "简历里" ∷ "合同里" ∷ "依据" ∷ "页码" ∷ "章节" ∷ "作者" ∷ "讲什么" ∷ "写什么" ∷ "写的什么" ∷ "写得什么" ∷ [])

abbrev pub casual_patterns : List Text
casual_patterns = map codes ("你好" ∷ "hello" ∷ "hi" ∷ "你是谁" ∷ "你能做什么" ∷ "介绍一下你" ∷ [])

abbrev pub writing_markers : List Text
writing_markers =
    map codes ("帮我写" ∷ "写一封" ∷ "润色" ∷ "翻译" ∷ "改写" ∷ "扩写" ∷ "起草" ∷ "生成一段" ∷ "写代码" ∷ "解释一下" ∷ [])

-- `lower` is `str.lower`.
module _ (lower : Text → Text) where
  unfoldable pub wants_web_search : Text → Bool
  unfolding contains
  wants_web_search question = any_in web_markers (lower question)

  unfoldable pub wants_document_search : Text → Bool
  unfolding contains
  wants_document_search question = any_in document_markers (lower question)

  unfoldable pub wants_direct_model : Text → Bool
  unfolding contains strip
  wants_direct_model raw =
      let question = strip (lower raw) in
      if is_empty question then true else any_in (casual_patterns ++ writing_markers) question

  unfoldable pub choose_route : Text → Route
  unfolding wants_document_search wants_web_search wants_direct_model
  choose_route question =
      if wants_document_search question
      then local
      else (if wants_web_search question
          then web
          else (if wants_direct_model question then model else auto))
