-- ===== src/Chat/Service.antt =====
-- `run_chat` of backend/services/chat_service.py, with the history of the sessions. A session id is
-- that of a session that exists, as the foreign key of the table of histories demands, and the
-- database raises nothing.
pub mod Laws
use flowxrag.Prelude.{
  ℕ, zero, suc, ◌+◌, List, [], ◌∷◌, ◌++◌, Bool, true, false, not, ◌&&◌, ◌==◌, leb, Option, none,
  some, if◌then◌else◌, is_empty, map, take, keep, reverse,
}
use flowxrag.Prelude.Sort.{sort}
use flowxrag.Text.{Text, codes, join}
use flowxrag.Effects.{Result, ok, raise, Log}
use flowxrag.Models.{User, ChatSession, ChatHistory, UserMemory, Table, add_row}
use flowxrag.Graph.{Services, GraphState, Source}
use flowxrag.Graph.Workflow.{Node, initial_state, crag_app}
use flowxrag.Memory.Extract.{LlmItem}
use flowxrag.Memory.Turn.{recall, maybe_store_memories_from_turn}
use flowxrag.Chat.Cache.{Redis, Settings, Json, get_cached_answer, set_cached_answer}

-- The dictionary that a chat answers.
pub record Response (F : Type 0) : Type 0 where
  pub answer : Text
  pub agent_trace : List Text
  pub trigger_web_fallback : Bool
  pub sources : List (Source F)
  pub reasoning_summary : List Text
  pub cached : Bool
  pub duration_ms : ℕ

pub record Db (F : Type 0) : Type 0 where
  pub sessions : Table ChatSession
  pub histories : Table (ChatHistory F)
  pub memories : Table (UserMemory F)

-- What a chat reads and changes; `cache` and `db` are `none` where they are not configured.
pub record World (S F : Type 0) : Type 0 where
  pub cache : Option S
  pub db : Option (Db F)
  pub log : Log

-- What the chat takes from other code: the settings, MD5, JSON, and what the memory takes.
pub record Parts (sv : Services) : Type 0 where
  pub settings : Settings
  pub digest : Text → Text
  pub json : Json (Response (sv.floats.F))
  pub collates : Text → Text → Bool
  pub stamp : UserMemory (sv.floats.F) → UserMemory (sv.floats.F) → ℕ
  pub format2 : sv.floats.F → Text
  pub loads : Text → Result (List (LlmItem (sv.floats.F)))

abbrev pub is_some {ℓ} : {A : Type ℓ} → Option A → Bool
is_some none = false
is_some (some a) = true

abbrev pub one_more : ℕ → ℕ → ChatSession → ChatSession
one_more session_id now s =
    if s.id == session_id
    then record s { message_count = s.message_count + 1; updated_at = now }
    else s

module _ {F : Type 0} where
  abbrev pub history_line : ChatHistory F → Text
  history_line h = codes "用户：" ++ (take 300 h.question ++ (codes "\n助手：" ++ take 600 h.answer))

  -- `_format_history_context`: the last eight turns, the oldest first.
  unfoldable pub format_history_context : ℕ → List (ChatHistory F) → Text
  unfolding sort
  format_history_context session_id rows =
      let recent = take 8 (
        sort (λ x y. leb y.created_at x.created_at)
          (keep (λ h. h.session_id == session_id) rows)) in
      join (codes "\n\n") (map history_line (reverse recent))

  -- `if db is not None and session_id`
  abbrev pub history_of : Option ℕ → Option (Db F) → Text
  history_of none db = []
  history_of (some zero) db = []
  history_of (some (suc n)) none = []
  history_of (some (suc n)) (some d) = format_history_context (suc n) d.histories.rows

  abbrev pub turn_row : ℕ → Text → Response F → GraphState F → ℕ → ℕ → ChatHistory F
  turn_row session_id question response result now id = record {
    id = id;
    session_id = session_id;
    question = question;
    answer = response.answer;
    route = result.route;
    sources = response.sources;
    agent_trace = response.agent_trace;
    duration_ms = response.duration_ms;
    web_fallback = response.trigger_web_fallback;
    cached = response.cached;
    created_at = now;
  }

  -- `_save_history`, with the id of the new row
  unfoldable pub save_history : ℕ → Text → Response F → GraphState F → ℕ → Db F → ℕ × Db F
  save_history session_id question response result now d = (
    d.histories.ids,
    record d {
      histories = add_row (turn_row session_id question response result now) d.histories;
      sessions = record (d.sessions) { rows = map (one_more session_id now) d.sessions.rows };
    },
  )

  abbrev pub saved : Option ℕ → Text → Response F → GraphState F → ℕ → Db F → Option ℕ × Db F
  saved none question response result now d = (none, d)
  saved (some session_id) question response result now d =
      let (id, d') = save_history session_id question response result now d in (some id, d')

  -- The answer where the graph, or what it is given, raises.
  abbrev pub failed_response : Text → Response F
  failed_response e = record {
    answer = codes "后端处理失败：" ++ e;
    agent_trace = codes "后端异常，请检查 API Key、余额或网络代理。" ∷ [];
    trigger_web_fallback = false;
    sources = [];
    reasoning_summary = [];
    cached = false;
    duration_ms = 0;
  }

  abbrev pub response_of : GraphState F → ℕ → Response F
  response_of result duration_ms = record {
    answer = result.generation;
    agent_trace = result.steps;
    trigger_web_fallback = result.web_fallback;
    sources = result.sources;
    reasoning_summary = result.reasoning_summary;
    cached = false;
    duration_ms = duration_ms;
  }

module _ (sv : Services) (redis : Redis) (parts : Parts sv) where
  open sv use {floats, lower, llm}
  open redis use {Server}
  open parts use {settings, digest, json, collates, stamp, format2, loads}

  abbrev pub St : Type 0
  St = World Server (floats.F)

  abbrev pub Res : Type 0
  Res = Response (floats.F)

  -- The flag is `use_personal_context`.
  abbrev pub looked_up : Bool → Text → Option Server → Option Res
  looked_up true question cache = none
  looked_up false question none = none
  looked_up false question (some s) = get_cached_answer redis settings digest lower json question s

  abbrev pub cached_in : Bool → Text → Res → Option Server → Option Server
  cached_in personal question response none = none
  cached_in personal question response (some s) =
      if not (is_empty response.answer) && not personal
      then some (set_cached_answer redis settings digest lower json question response s)
      else some s

  abbrev pub remembered : Option User → ℕ → Option (Db (floats.F)) → Text × Option (Db (floats.F))
  remembered user now none = ([], none)
  remembered user now (some d) =
      let (text, t) = recall floats lower collates stamp format2 user 12 now d.memories in
      (text, some (record d { memories = t }))

  -- What the turn leaves in the database, and in the log of the model's calls.
  abbrev pub kept_turn :
      Text
      → Option ℕ
      → Option User
      → ℕ
      → Res
      → GraphState (floats.F)
      → Option (Db (floats.F))
      → Log
      → Option (Db (floats.F)) × Log
  kept_turn question session_id user now response result none log = (none, log)
  kept_turn question session_id user now response result (some d) log =
      let (message_id, d') = saved session_id question response result now d in
      let (rows, t, log') =
        maybe_store_memories_from_turn floats lower collates stamp format2 loads llm user question
          session_id message_id now d'.memories log in
      (some (record d' { memories = t }), log')

  -- The part behind the run of the graph; `elapsed` is what it took.
  abbrev pub finished :
      Text
      → Option ℕ
      → Option User
      → ℕ
      → ℕ
      → Bool
      → Option Server
      → Option (Db (floats.F))
      → Result (GraphState (floats.F) × List Node)
      → Log
      → Res × St
  finished question session_id user now elapsed personal cache db (raise e) log =
      (failed_response e, record { cache = cache; db = db; log = log })
  finished question session_id user now elapsed personal cache db (ok (result, visited)) log =
      let response = response_of result elapsed in
      let kept = kept_turn question session_id user now response result db log in
      (
        response,
        record { cache = cached_in personal question response cache; db = kept.0; log = kept.1 },
      )

  abbrev pub answered : Text → Option ℕ → Option User → ℕ → ℕ → Bool → St → Option Res → Res × St
  answered question session_id user now elapsed personal w (some response) =
      (record response { cached = true; duration_ms = 0 }, w)
  answered question session_id user now elapsed personal w none =
      let memory = remembered user now w.db in
      let run = crag_app sv (initial_state question (history_of session_id w.db) memory.0) w.log in
      finished question session_id user now elapsed personal w.cache memory.1 run.0 run.1

  unfoldable pub run_chat : Text → Option ℕ → Option User → ℕ → ℕ → St → Res × St
  unfolding get_cached_answer set_cached_answer recall crag_app initial_state format_history_context
      save_history maybe_store_memories_from_turn
  run_chat question session_id user now elapsed w =
      let personal = is_some w.db && is_some session_id in
      answered question session_id user now elapsed personal w (looked_up personal question w.cache)
