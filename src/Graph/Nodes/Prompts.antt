-- ===== src/Graph/Nodes/Prompts.antt =====
-- The prompts of the nodes.
use flowxrag.Prelude.{ℕ, ◌+◌, List, [], ◌∷◌, ◌++◌, map, if◌then◌else◌, is_empty}
use flowxrag.Text.{Text, codes, decimal, join}
use flowxrag.Graph.{Route, auto, local, web, model, Document}

abbrev pub route_label : Route → Text
route_label local = codes "文档问答"
route_label web = codes "联网搜索"
route_label model = codes "直接回答"
route_label auto = codes "自动判断"

-- Text and literal parts in a row.
unfoldable pub personalization_block : Text → Text → Text
personalization_block history_context memory_context =
    let memory =
      if is_empty memory_context
      then []
      else (codes "长期记忆（只用于个性化、偏好和称呼；不要把它当作事实证据）：\n" ++ memory_context) ∷ [] in
    let history =
      if is_empty history_context
      then []
      else (codes "最近会话（用于理解代词、省略和延续问题）：\n" ++ history_context) ∷ [] in
    let blocks = memory ++ history in
    if is_empty blocks
    then []
    else codes "记忆使用规则：当前用户消息优先级最高；如果当前消息与长期记忆冲突，以当前消息为准，并自然承认更新，不要被旧记忆误导。\n"
      ++ (join (codes "\n\n") blocks ++ codes "\n\n")

unfoldable pub grader_prompt : Text → Text → Text
grader_prompt document question =
    codes "你是 RAG 相关性评分器。判断文档是否能直接回答问题。只输出 yes 或 no。\n\n文档："
    ++ (document ++ (codes "\n问题：" ++ question))

unfoldable pub fallback_prompt : Text → Text
fallback_prompt question =
    codes "联网搜索暂时不可用。请基于通用知识为下面问题整理背景材料；如果问题涉及实时信息，请说明可能不是最新。\n\n问题：" ++ question

unfoldable pub direct_prompt : Text → Text → Text → Text
unfolding personalization_block
direct_prompt history_context memory_context question =
    codes
      "你是一个自然、可靠的中文助手。请直接回答用户问题。\n如果问题明显需要实时信息，但没有联网搜索结果，请提醒用户需要联网查询。\n回答要像 ChatGPT 一样自然，不要提及内部路由、工具链或调试过程。\n\n"
    ++ (personalization_block history_context memory_context ++ (codes "问题：" ++ question))

module _ {F : Type 0} where
  -- `enumerate(documents)`, from `index` on
  abbrev numbered : ℕ → List (Document F) → List Text
  numbered index [] = []
  numbered index (d ∷ documents) =
      (codes "[" ++ (decimal (index + 1) ++ (codes "] " ++ (d.source ++ (10 ∷ d.content)))))
      ∷ numbered (index + 1) documents

  unfoldable pub generate_prompt : Text → Text → List Text → List (Document F) → Text → Text
  unfolding personalization_block decimal
  generate_prompt history_context memory_context reasons documents question =
      codes
        "你是一个自然、可靠的中文助手。请基于上下文回答用户问题。\n要求：\n1. 先给直接答案，再给关键依据。\n2. 不要输出隐藏思维链，也不要提及内部路由、工具链或调试过程。\n3. 优先使用本地知识库；只有上下文里出现 Tavily 资料时，才说明来自联网检索。\n4. 中文回答，结构清晰。\n5. 除非用户明确要求“简短/一句话”，否则不要过短；请充分展开，至少包含：直接结论、关键依据、分点分析、可执行建议或注意事项。\n6. 如果用户问“这篇/这份文档讲什么、总结一下、主要内容”，请直接对本地文档做概览总结，不要回答成缺少论文内容。\n7. 如果上下文证据充足，回答应尽量完整；如果证据不足，要明确说明缺口，并给出下一步检索或补充材料建议。\n\n推理摘要：\n"
      ++ (join (10 ∷ []) (map (λ reason. codes "- " ++ reason) reasons)
          ++ (codes "\n\n"
              ++ (personalization_block history_context memory_context
                  ++ (codes "上下文：\n"
                      ++ (join (codes "\n\n") (numbered 0 documents)
                          ++ (codes "\n\n问题：" ++ question))))))
