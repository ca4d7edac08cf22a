-- ===== src/Chat/Service/Laws.antt =====
-- What a chat reads of the cache.
use flowxrag.Prelude.{
  ℕ, List, [], Bool, true, false, not, ◌&&◌, Option, none, some, ◌≡◌, ◌<◌, ◌≤◌, refl, is_empty,
}
use flowxrag.Text.{Text, strip}
use flowxrag.Effects.{Result, ok, raise, Log}
use flowxrag.Models.{User}
use flowxrag.Graph.{Services, GraphState}
use flowxrag.Graph.Workflow.{Node, initial_state, crag_app}
use flowxrag.Chat.Cache.{Redis, get_cached_answer, set_cached_answer}
use flowxrag.Chat.Cache.Laws.{
  IsRedis, get_cached_answer-set_cached_answer, set_cached_answer-expires,
}
use flowxrag.Chat.Service.{
  Db, Parts, run_chat, finished, response_of, St, history_of, remembered, looked_up, is_some,
}

and_false : (b : Bool) → b && false ≡ false
and_false true = refl
and_false false = refl

module _ (sv : Services) (redis : Redis) (parts : Parts sv) where
  open sv use {floats, lower, llm}
  open redis use {Server}
  open parts use {settings, digest, json}

  finished-cache :
      (question : Text) (session_id : Option ℕ) (user : Option User) (now elapsed : ℕ)
      (a b : Option Server) (db : Option (Db (floats.F)))
      (r : Result (GraphState (floats.F) × List Node)) (log : Log)
      → finished sv redis parts question session_id user now elapsed true a db r log ≡ (
        (finished sv redis parts question session_id user now elapsed true b db r log).0,
        record ((finished sv redis parts question session_id user now elapsed true b db r log).1) {
          cache = a;
        },
      )
  finished-cache question session_id user now elapsed none b db (raise e) log = refl
  finished-cache question session_id user now elapsed none b db (ok (result, visited)) log = refl
  finished-cache question session_id user now elapsed (some a) b db (raise e) log = refl
  finished-cache question session_id user now elapsed (some a) b db (ok (result, visited)) log =
      rw (and_false (not (is_empty result.generation))) refl

  -- With a database and a session, a chat neither reads nor writes the cache: with another cache,
  -- the response and everything that is left are the same, and the cache is left as it is.
  pub run_chat-personal :
      (question : Text) (session_id : ℕ) (user : Option User) (now elapsed : ℕ)
      (a b : Option Server) (d : Db (floats.F)) (log : Log)
      → run_chat sv redis parts question
          (some session_id)
          user
          now
          elapsed
          (record { cache = a; db = some d; log = log })
        ≡ (
          (run_chat sv redis parts question
              (some session_id)
              user
              now
              elapsed
              (record { cache = b; db = some d; log = log })).0,
          record ((run_chat sv redis parts question
              (some session_id)
              user
              now
              elapsed
              (record { cache = b; db = some d; log = log })).1) { cache = a },
        )
  unfolding run_chat
  run_chat-personal question session_id user now elapsed a b d log =
      let memory = remembered sv redis parts user now (some d) in
      let run =
        crag_app sv (initial_state question (history_of (some session_id) (some d)) memory.0) log in
      finished-cache question (some session_id) user now elapsed a b memory.1 run.0 run.1

  run_chat-first :
      (question : Text) (session_id : Option ℕ) (user : Option User) (now elapsed : ℕ) (s : Server)
      (log : Log) (result : GraphState (floats.F)) (visited : List Node)
      → get_cached_answer redis settings digest lower json question s ≡ none
      → (crag_app sv (initial_state question (history_of {F = floats.F} session_id none) []) log).0
        ≡ ok (result, visited)
      → is_empty result.generation ≡ false
      → run_chat sv redis parts question session_id user now elapsed
          (record { cache = some s; db = none; log = log })
        ≡ (
          response_of result elapsed,
          record {
            cache = some (
                set_cached_answer redis settings digest lower json question
                  (response_of result elapsed)
                  s);
            db = none;
            log =
                (crag_app sv
                  (initial_state question (history_of {F = floats.F} session_id none) [])
                  log).1;
          },
        )
  unfolding run_chat
  run_chat-first question session_id user now elapsed s log result visited miss ran solid =
      rw (miss, ran, solid) refl

  abbrev pub ticked : ℕ → Option Server → Option Server
  ticked n none = none
  ticked n (some s) = some (redis.tick n s)

  -- The world some seconds later.
  abbrev pub seconds_later : ℕ → St sv redis parts → St sv redis parts
  seconds_later n w = record w { cache = ticked n w.cache }

  -- What is not found in the cache is not marked as cached.
  uncached :
      (question : Text) (session_id : Option ℕ) (user : Option User) (now elapsed : ℕ)
      (personal : Bool) (cache : Option Server) (db : Option (Db (floats.F)))
      (r : Result (GraphState (floats.F) × List Node)) (log : Log)
      → (finished sv redis parts question session_id user now elapsed personal cache db r
          log).0.cached
        ≡ false
  uncached question session_id user now elapsed personal cache db (ok (result, visited)) log = refl
  uncached question session_id user now elapsed personal cache db (raise e) log = refl

  not_found-cached :
      (question : Text) (session_id : Option ℕ) (user : Option User) (now elapsed : ℕ)
      (w : St sv redis parts)
      → looked_up sv redis parts (is_some w.db && is_some session_id) question w.cache ≡ none
      → (run_chat sv redis parts question session_id user now elapsed w).0.cached ≡ false
  unfolding run_chat
  not_found-cached question session_id user now elapsed w miss =
      let memory = remembered sv redis parts user now w.db in
      let run = crag_app sv (initial_state question (history_of session_id w.db) memory.0) w.log in
      rw miss (
        uncached question session_id user now elapsed (is_some w.db && is_some session_id) w.cache
          memory.1 run.0 run.1)

  -- With the cache enabled and `cache_ttl_seconds` above 0, over a Redis that does what it documents
  -- and JSON that reads the answer back: a question that was not in the cache and that the graph has
  -- answered with a text that is not empty, asked again n seconds later without a database, up to
  -- letter case and surrounding white space. Within `cache_ttl_seconds` the answer is the same, now
  -- marked as cached, and the second chat changes nothing and calls no model; from then on the
  -- answer is not one of the cache.
  pub run_chat-again :
      (question again : Text) (session_id : Option ℕ) (user : Option User)
      (now elapsed later longer n : ℕ) (s : Server) (log : Log) (result : GraphState (floats.F))
      (visited : List Node)
      → IsRedis redis
      → json.loads (json.dumps (response_of result elapsed)) ≡ ok (response_of result elapsed)
      → is_empty (json.dumps (response_of result elapsed)) ≡ false
      → settings.cache_enabled ≡ true
      → 0 < settings.cache_ttl_seconds
      → get_cached_answer redis settings digest lower json question s ≡ none
      → (crag_app sv (initial_state question (history_of {F = floats.F} session_id none) []) log).0
        ≡ ok (result, visited)
      → is_empty result.generation ≡ false
      → lower (strip again) ≡ lower (strip question)
      → (let w =
            seconds_later n
              (run_chat sv redis parts question session_id user now elapsed
                (record { cache = some s; db = none; log = log })).1 in
          (n < settings.cache_ttl_seconds
            → run_chat sv redis parts again session_id user later longer w
              ≡ (record (response_of result elapsed) { cached = true; duration_ms = 0 }, w))
          × (settings.cache_ttl_seconds ≤ n
              → (run_chat sv redis parts again session_id user later longer w).0.cached ≡ false))
  unfolding run_chat
  run_chat-again question again session_id user now elapsed later longer n s log result visited h l
        e on lasts miss ran solid same_key =
      let first =
        run_chat-first question session_id user now elapsed s log result visited miss ran solid in
      let response = response_of result elapsed in
      (
        λ in_time.
            rw
              (
                first,
                get_cached_answer-set_cached_answer redis settings digest lower json question again
                    response n s h l e on same_key in_time,
              )
              refl,
        λ late.
            not_found-cached again session_id user later longer
              (seconds_later n
                (run_chat sv redis parts question session_id user now elapsed
                  (record { cache = some s; db = none; log = log })).1)
              (rw first (
                set_cached_answer-expires redis settings digest lower json question again response n
                  s h on same_key lasts late)),
      )
