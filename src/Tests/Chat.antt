-- ===== src/Tests/Chat.antt =====
-- Runs of the chat, over a Redis that keeps its values, counters and locks in functions.
use flowxrag.Prelude.{
  ℕ, suc, ◌+◌, ◌<◌, ◌≤◌, ◌==◌, ltb, ◌-◌, List, [], ◌∷◌, Bool, true, false, not, Option, none, some,
  ◌≡◌, refl, if◌then◌else◌, length, keep, min, OnSome, is_empty, arith,
}
use flowxrag.Text.{Text, codes, same, same_refl, strip}
use flowxrag.Effects.{Result, ok, raise}
use flowxrag.Graph.{GraphState}
use flowxrag.Graph.Llm.{is_transient}
use flowxrag.Graph.Nodes
use flowxrag.Graph.Workflow.{Node, initial_state, crag_app}
use flowxrag.Chat.Cache.{Redis, Settings, rate_key, get_cached_answer, check_rate_limit}
use flowxrag.Chat.Cache.Laws.{IsRedis, requests, requests-count}
use flowxrag.Chat.Service.{Db, Parts, St, run_chat, response_of, history_of}
use flowxrag.Chat.Service.Laws.{run_chat-personal, run_chat-again, seconds_later}
use flowxrag.Chat.Sessions.{create_session}
use flowxrag.Chat.Sessions.Laws.{IsCounted, Exists}
use flowxrag.Chat.Changes.{asked, opened, no_more, change_first, Changes-IsCounted}
use flowxrag.Tests.Values.{services, ascii_lower, anna, collates, stamp, two_digits, no_items}

abbrev changed {ℓ} : {A : Type ℓ} → (Text → A) → Text → A → Text → A
changed f key a other = if same other key then a else f other

changed_same {ℓ} : {A : Type ℓ} (f : Text → A) (key : Text) (a : A) → changed f key a key ≡ a
changed_same f key a = rw (same_refl key) refl

-- The seconds since the start, and the values with the second at which they expire.
pub record Memo : Type 0 where
  pub clock : ℕ
  pub values : Text → Option (ℕ × Text)
  pub counts : Text → ℕ
  pub locks : Text → Bool

abbrev alive : ℕ → Option (ℕ × Text) → Option Text
alive clock none = none
alive clock (some (end, value)) = if ltb clock end then some value else none

abbrev set_for : Text → ℕ → Text → Memo → Result (Unit {0}) × Memo
set_for key ttl value s =
    if ttl == 0
    then (raise (codes "invalid expire time in 'setex' command"), s)
    else (ok tt, record s { values = changed s.values key (some (s.clock + ttl, value)) })

abbrev pub memo : Redis
memo = record {
  Server = Memo;
  tick = λ n s. record s { clock = s.clock + n };
  get = λ key s. ok (alive s.clock (s.values key));
  setex = set_for;
  incr = λ key s.
      (ok (suc (s.counts key)), record s { counts = changed s.counts key (suc (s.counts key)) });
  expire = λ key n s. (ok tt, s);
  set_nx = λ key value n s. (ok (not (s.locks key)), record s { locks = changed s.locks key true });
  delete = λ key s.
      (ok tt, record s { values = changed s.values key none; locks = changed s.locks key false });
}

found_in_time :
    (key value : Text) (ttl n : ℕ) (s : Memo)
    → n < ttl
    → memo.get key (memo.tick n (memo.setex key ttl value s).1) ≡ ok (some value)
found_in_time key value ttl n s h =
    rw (positive, changed_same s.values key (some (s.clock + ttl, value)), in_time) refl
  where
    positive : ttl == 0 ≡ false
    positive = ground arith

    in_time : ltb (s.clock + n) (s.clock + ttl) ≡ true
    in_time = ground arith

gone_when_late :
    (key value : Text) (ttl n : ℕ) (s : Memo)
    → 0 < ttl
    → ttl ≤ n
    → memo.get key (memo.tick n (memo.setex key ttl value s).1) ≡ ok none
gone_when_late key value ttl n s h late =
    rw (positive, changed_same s.values key (some (s.clock + ttl, value)), too_late) refl
  where
    positive : ttl == 0 ≡ false
    positive = ground arith

    too_late : ltb (s.clock + n) (s.clock + ttl) ≡ false
    too_late = ground arith

pub memo-IsRedis : IsRedis memo
memo-IsRedis = record {
  set_get = found_in_time;
  set_expires = gone_when_late;
  count = λ key s. s.counts key;
  incr_result = λ key s. refl;
  incr_count = λ key s. changed_same s.counts key (suc (s.counts key));
  expire_result = λ key n s. refl;
  expire_count = λ key n s. refl;
}

abbrev pub empty_memo : Memo
empty_memo = record { clock = 0; values = λ key. none; counts = λ key. 0; locks = λ key. false }

abbrev pub settings : Settings
settings = record { cache_enabled = true; cache_ttl_seconds = 3600; rate_limit_per_minute = 2 }

abbrev pub no_digest : Text → Text
no_digest t = t

-- The graph's result on a greeting.
abbrev state_in : Result (GraphState ℕ × List Node) → GraphState ℕ
state_in (ok (s, path)) = s
state_in (raise e) = initial_state [] [] []

abbrev greeted : GraphState ℕ
greeted = state_in (crag_app services (initial_state (codes "Hello") [] []) []).0

-- JSON for one answer.
abbrev parts : Parts services
parts = record {
  settings = settings;
  digest = no_digest;
  json = record { loads = λ t. ok (response_of greeted 5); dumps = λ r. codes "{}" };
  collates = collates;
  stamp = stamp;
  format2 = two_digits;
  loads = no_items;
}

-- The third request within a minute is refused.
limited :
    requests memo settings no_digest ascii_lower (codes "10.0.0.1") 3 empty_memo
    ≡ true ∷ true ∷ false ∷ []
unfolding check_rate_limit
limited = refl

requests-count_example :
    length
      (keep (λ b. b) (requests memo settings no_digest ascii_lower (codes "10.0.0.1") 3 empty_memo))
    ≡ min 3 (
        2
        - memo-IsRedis.count
            (rate_key memo settings no_digest ascii_lower (codes "10.0.0.1"))
            empty_memo)
requests-count_example =
    requests-count memo settings no_digest ascii_lower (codes "10.0.0.1") 3 empty_memo memo-IsRedis

abbrev alone : St services memo parts
alone = record { cache = some empty_memo; db = none; log = [] }

abbrev empty_db : Db ℕ
empty_db = record {
  sessions = record { rows = []; ids = 1 };
  histories = record { rows = []; ids = 1 };
  memories = record { rows = []; ids = 1 };
}

abbrev ready : St services memo parts
ready = record { cache = some empty_memo; db = some empty_db; log = [] }

missed :
    get_cached_answer memo settings no_digest ascii_lower parts.json (codes "Hello") empty_memo
    ≡ none
unfolding get_cached_answer
missed = refl

ran :
    (crag_app services (initial_state (codes "Hello") (history_of {F = ℕ} none none) []) []).0
    ≡ ok (greeted, Node.route_question ∷ Node.direct_answer ∷ [])
unfolding crag_app initial_state is_transient Nodes.route_question Nodes.direct_answer
ran = refl

spoken : is_empty greeted.generation ≡ false
unfolding crag_app initial_state is_transient Nodes.route_question Nodes.direct_answer
spoken = refl

same_question : ascii_lower (strip (codes " HELLO")) ≡ ascii_lower (strip (codes "Hello"))
unfolding strip
same_question = refl

abbrev heard : St services memo parts
heard = (run_chat services memo parts (codes "Hello") none none 1 5 alone).1

run_chat-again_example :
    (60 < 3600
      → run_chat services memo parts
          (codes " HELLO")
          none
          none
          9
          9
          (seconds_later services memo parts 60 heard)
        ≡ (
          record (response_of greeted 5) { cached = true; duration_ms = 0 },
          seconds_later services memo parts 60 heard,
        ))
    × (3600 ≤ 60
        → (run_chat services memo parts
            (codes " HELLO")
            none
            none
            9
            9
            (seconds_later services memo parts 60 heard)).0.cached
          ≡ false)
run_chat-again_example =
    run_chat-again services memo parts (codes "Hello") (codes " HELLO") none none 1 5 9 9 60
      empty_memo [] greeted (Node.route_question ∷ Node.direct_answer ∷ []) memo-IsRedis refl refl
      refl (omega arith) missed ran spoken same_question

run_chat-personal_example :
    run_chat services memo parts (codes "Hello") (some 1) (some anna) 1 5 ready ≡ (
      (run_chat services memo parts
          (codes "Hello")
          (some 1)
          (some anna)
          1
          5
          (record ready { cache = none })).0,
      record ((run_chat services memo parts
          (codes "Hello")
          (some 1)
          (some anna)
          1
          5
          (record ready { cache = none })).1) { cache = some empty_memo },
    )
run_chat-personal_example =
    run_chat-personal services memo parts (codes "Hello") 1 (some anna) 1 5 (some empty_memo) none
      empty_db []

abbrev begun : St services memo parts
begun = record ready { db = (create_session (some anna) (codes "New") 3 (some empty_db)).1 }

abbrev talked : St services memo parts
talked = (run_chat services memo parts (codes "Hello") (some 1) (some anna) 4 5 begun).1

opened-Exists : Exists (some 1) begun.db
unfolding create_session
opened-Exists = omega arith

Changes-IsCounted_example : OnSome IsCounted talked.db
Changes-IsCounted_example =
    Changes-IsCounted services memo parts ready talked
      (change_first ready begun talked (opened (some anna) (codes "New") 3 ready) (
        change_first begun talked talked
          (asked (codes "Hello") (some 1) (some anna) 4 5 begun opened-Exists) (no_more talked)))
      (record { counts = tt; older = tt })
