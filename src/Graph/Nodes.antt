-- ===== src/Graph/Nodes.antt =====
-- The nodes of the graph. Each takes the state and gives it back with the keys of its update.
-- `steps` and `reasoning_summary` grow in place, and every update returns them.
pub mod Prompts
pub mod Facts
use flowxrag.Prelude.{
  ℕ, String, List, [], ◌∷◌, ◌++◌, Bool, true, false, not, Option, none, some, map, length,
  if◌then◌else◌, is_empty,
}
use flowxrag.Text.{Text, codes, strip, starts_with, decimal, join}
use flowxrag.Effects.{Result, ok, raise, M, Log, pure, ◌>>=◌, attempt}
use flowxrag.Graph.{
  Route, auto, local, web, model, SearchResult, Source, from_tool, Document, GraphState, Services,
}
use flowxrag.Graph.Routing.{choose_route}
use flowxrag.Graph.Llm.{invoke_llm}
use flowxrag.Graph.Evidence.{
  search_result_to_source, search_result_to_document, local_results_confident,
}
use flowxrag.Graph.Web.{search_web}
use flowxrag.Graph.Nodes.Prompts.{
  route_label, grader_prompt, fallback_prompt, direct_prompt, generate_prompt,
}

module _ {F : Type 0} where
  -- `state["steps"].append(step)`
  abbrev pub add_step : String → GraphState F → GraphState F
  add_step step s = record s { steps = s.steps ++ codes step ∷ [] }

  abbrev pub add_reason : Text → GraphState F → GraphState F
  add_reason reason s = record s { reasoning_summary = s.reasoning_summary ++ reason ∷ [] }

module _ (sv : Services) where
  open sv use {floats, lower, search, llm}

  abbrev State : Type 0
  State = GraphState floats.F

  -- `invoke_llm` with the model of the services
  abbrev pub ask : Text → M Text
  ask = invoke_llm lower llm

  unfoldable pub route_question : State → M State
  unfolding choose_route
  route_question s =
      let route = choose_route lower s.question in
      let label = route_label route in
      pure (record s {
        route = route;
        steps = s.steps ++ (codes "自动选择：" ++ label) ∷ [];
        reasoning_summary =
            s.reasoning_summary ++ (codes "系统根据问题意图选择“" ++ (label ++ codes "”。")) ∷ [];
      })

  abbrev pub retrieved : State → List (SearchResult floats.F) → State
  retrieved s results = record s {
    documents = map search_result_to_document results;
    sources = map search_result_to_source results;
    steps = s.steps ++ codes "1. 本地检索：查询 FAISS 知识库" ∷ [];
    reasoning_summary =
        s.reasoning_summary
        ++ (if is_empty results
            then codes "本地知识库没有命中候选片段。"
            else codes "本地知识库命中 " ++ (decimal (length results) ++ codes " 个候选片段。"))
          ∷ [];
  }

  abbrev pub with_results : State → Result (List (SearchResult floats.F)) → M State
  with_results s (ok results) log = (ok (retrieved s results), log)
  with_results s (raise e) log = (raise e, log)

  unfoldable pub retrieve : State → M State
  unfolding search_result_to_document search_result_to_source decimal
  retrieve s = with_results s (search s.question 5)

  -- The loop of the relevance grader: the documents that the model answers with yes.
  unfoldable pub grade_each : Text → List (Document floats.F) → M (List (Document floats.F))
  unfolding strip
  grade_each question [] = pure []
  grade_each question (d ∷ documents) = do
    score ← ask (grader_prompt d.content question)
    rest ← grade_each question documents
    pure (if starts_with (codes "yes") (lower (strip score)) then d ∷ rest else rest)

  -- The end of `grade_documents`, behind the loop.
  abbrev graded : State → List (Document floats.F) → State
  graded s kept =
      if is_empty kept
      then add_reason (codes "本地知识库已有候选片段，未切换到联网兜底。") (
          add_step "评分未保留片段，降级使用本地检索 Top-K，避免答非所问"
            (record s { route = local; web_fallback = false }))
      else record s {
        route = local;
        web_fallback = false;
        documents = kept;
        sources = map (λ (d : Document floats.F). d.source_meta) kept;
        steps = s.steps ++ (codes "保留 " ++ (decimal (length kept) ++ codes " 个本地片段作为上下文")) ∷ [];
        reasoning_summary =
            s.reasoning_summary
            ++ (codes "本地检索结果通过评分，使用 " ++ (decimal (length kept) ++ codes " 个片段生成答案。")) ∷ [];
      }

  -- `grade_documents` where there is no document
  abbrev nothing_found : Route → State → State
  nothing_found local s = add_reason (codes "用户在问文档，但知识库没有命中可用内容。") (
      add_step "本地没有可用片段，返回缺少资料提示"
        (record s { route = local; documents = []; web_fallback = false }))
  nothing_found _ s = add_reason (codes "没有找到可靠本地证据，使用通用模型回答。") (
      add_step "本地没有高可信命中，交给模型直接回答"
        (record s { route = model; documents = []; web_fallback = false }))

  -- `grade_documents` where there are documents
  abbrev found : Route → State → M State
  found local s = pure (
      add_reason (codes "问题明确指向已入库文档，使用本地知识库。")
        (add_step "使用本地文档生成答案" (record s { route = local; web_fallback = false })))
  found auto s = pure (
      if local_results_confident sv s.question s.documents
      then add_reason (codes "本地检索命中较可信，使用本地知识库回答。")
          (add_step "自动判断为本地文档问题" (record s { route = local; web_fallback = false }))
      else add_reason (codes "未发现足够可靠的本地证据，避免硬套文档。") (
          add_step "本地命中不够可信，交给模型直接回答"
            (record s { route = model; documents = []; web_fallback = false; sources = [] })))
  found _ s = do kept ← grade_each s.question s.documents; pure (graded s kept)

  unfoldable pub grade_documents : State → M State
  unfolding grade_each local_results_confident decimal
  grade_documents s =
      let begun = add_step "2. 相关性评分：DeepSeek 判断本地片段是否能回答问题" s in
      if is_empty s.documents then pure (nothing_found s.route begun) else found s.route begun

  abbrev from_web_search : State → Text × List (Source floats.F) → State
  from_web_search s (context, found_sources) =
      add_reason (codes "使用 Tavily 获取联网资料，再交给 DeepSeek 综合。") (
        add_step "Tavily 搜索完成" (record s {
          route = web;
          web_fallback = true;
          documents =
              s.documents
              ++ record {
                content = context;
                source = codes "Tavily 全网搜索";
                source_meta = from_tool (codes "Tavily 全网搜索") web;
              }
                ∷ [];
          sources = s.sources ++ found_sources;
        }))

  abbrev from_model_knowledge : State → Text → Text → State
  from_model_knowledge s exc content =
      add_reason (codes "Tavily 调用失败，已降级为模型知识兜底：" ++ exc) (record s {
        route = web;
        web_fallback = true;
        documents =
            s.documents
            ++ record {
              content = content;
              source = codes "DeepSeek 模型知识兜底";
              source_meta = from_tool (codes "DeepSeek 模型知识兜底") model;
            }
              ∷ [];
        sources = s.sources ++ from_tool (codes "DeepSeek 模型知识兜底") model ∷ [];
      })

  unfoldable pub web_search : State → M State
  unfolding search_web invoke_llm
  web_search s =
      let begun = add_step "3. 联网兜底：Tavily 全网搜索" s in
      attempt (do found ← search_web sv s.question; pure (from_web_search begun found))
        λ exc. do
          content ← ask (fallback_prompt s.question)
          pure (from_model_knowledge (add_step "Tavily 不可用，降级为 DeepSeek 常识兜底" begun) exc content)

  unfoldable pub direct_answer : State → M State
  unfolding invoke_llm
  direct_answer s = do
    content ← ask (direct_prompt s.history_context s.memory_context s.question)
    pure (
        add_step "任务完成" (
          add_step "直接回答：使用通用模型能力" (record s {
            route = model;
            generation = content;
            web_fallback = false;
            documents = [];
            sources = [];
          })))

  unfoldable pub generate : State → M State
  unfolding invoke_llm
  generate s = do
    content ← ask (
        generate_prompt s.history_context s.memory_context s.reasoning_summary s.documents
          s.question)
    pure (
        add_step "任务完成" (add_step "4. 答案生成：DeepSeek 基于检索上下文回答" (record s { generation = content })))
