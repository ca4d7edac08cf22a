-- ===== src/Chat/Sessions/Laws.antt =====
-- The counters of the sessions, through chats, new sessions and deletions.
use flowxrag.Prelude.{
  ℕ, suc, ◌+◌, ◌<◌, List, [], ◌∷◌, ◌++◌, Bool, true, false, not, ◌&&◌, ◌==◌, Option, none, some,
  ◌≡◌, refl, sym, ap, ◌∙◌, subst, arith, Bool-cases, inl, inr, keep, length, length-append,
  keep-append, All, All-map, All-both, All-keep, All-keep_self, All-append, All-image, OnSome,
}
use flowxrag.Text.{Text}
use flowxrag.Effects.{Result, ok, raise, Log}
use flowxrag.Models.{User, ChatSession, ChatHistory}
use flowxrag.Graph.{Services, GraphState}
use flowxrag.Graph.Workflow.{Node, initial_state, crag_app}
use flowxrag.Chat.Cache.{Redis}
use flowxrag.Chat.Service.{
  Db, Parts, Response, St, Res, run_chat, answered, finished, saved, save_history, remembered,
  looked_up, one_more, turn_row, is_some, history_of,
}
use flowxrag.Chat.Sessions.{create_session, delete_session, find_session, removing, without_session}

module _ {F : Type 0} where
  abbrev turns : ℕ → List (ChatHistory F) → ℕ
  turns id rows = length (keep (λ h. h.session_id == id) rows)

  -- Every session counts its turns, and every turn is of a session that there has been.
  pub record IsCounted (d : Db F) : Type 0 where
    pub counts : All (λ s. s.message_count ≡ turns s.id d.histories.rows) d.sessions.rows
    pub older : All (λ h. h.session_id < d.sessions.ids) d.histories.rows

  turns-append :
      (id : ℕ) (rows : List (ChatHistory F)) (h : ChatHistory F)
      → turns id (rows ++ h ∷ []) ≡ turns id rows + turns id (h ∷ [])
  turns-append id rows h =
      ap length (keep-append _ rows (h ∷ []))
      ∙ length-append (keep (λ x. x.session_id == id) rows)
          (keep (λ x. x.session_id == id) (h ∷ []))

  one_more-count :
      (session_id now : ℕ) (h : ChatHistory F) (rows : List (ChatHistory F)) (s : ChatSession)
      → h.session_id ≡ session_id
      → s.message_count ≡ turns s.id rows
      → (one_more session_id now s).message_count
        ≡ turns (one_more session_id now s).id (rows ++ h ∷ [])
  one_more-count session_id now h rows s e c = elim (Bool-cases (s.id == session_id)) [
    | inl k ↦ rw k (
        omega (
          arith,
          c,
          turns-append s.id rows h,
          here (subst (λ n. n == s.id ≡ true) (sym e) (same_way k)),
        ))
    | inr k ↦ rw k (
        omega (
          arith,
          c,
          turns-append s.id rows h,
          away (subst (λ n. n == s.id ≡ false) (sym e) (other_way k)),
        ))
  ]
    where
      same_way : s.id == session_id ≡ true → session_id == s.id ≡ true
      same_way k = ground arith

      other_way : s.id == session_id ≡ false → session_id == s.id ≡ false
      other_way k = ground arith

      here : h.session_id == s.id ≡ true → turns s.id (h ∷ []) ≡ 1
      here k = rw k refl

      away : h.session_id == s.id ≡ false → turns s.id (h ∷ []) ≡ 0
      away k = rw k refl

  saved-IsCounted :
      (session_id : Option ℕ) (question : Text) (response : Response F) (result : GraphState F)
      (now : ℕ) (d : Db F)
      → OnSome (λ i. i < d.sessions.ids) session_id
      → IsCounted d
      → IsCounted (saved session_id question response result now d).1
  unfolding save_history
  saved-IsCounted none question response result now d i h = h
  saved-IsCounted (some id) question response result now d i h = record {
    counts = All-image _ (one_more id now) d.sessions.rows (
        All-map d.sessions.rows
          (λ s c.
            one_more-count id now (turn_row id question response result now d.histories.ids)
              d.histories.rows s refl c)
          h.counts);
    older = All-append _ d.histories.rows _ h.older (i, tt);
  }

  no_turns :
      (id : ℕ) (rows : List (ChatHistory F)) → All (λ h. h.session_id < id) rows → turns id rows ≡ 0
  no_turns id [] h = refl
  no_turns id (x ∷ rows) h = rw (below x.session_id h.0) (no_turns id rows h.1)
    where
      below : (n : ℕ) → n < id → n == id ≡ false
      below n k = ground arith

  pub create_session-IsCounted :
      (user : Option User) (title : Text) (now : ℕ) (db : Option (Db F))
      → OnSome IsCounted db
      → OnSome IsCounted (create_session user title now db).1
  unfolding create_session
  create_session-IsCounted user title now none h = tt
  create_session-IsCounted user title now (some d) h = record {
    counts =
        All-append _ d.sessions.rows _ h.counts
          (sym (no_turns d.sessions.ids d.histories.rows h.older), tt);
    older = All-map d.histories.rows (λ x k. omega arith) h.older;
  }

  turns-keep :
      (gone id : ℕ) (rows : List (ChatHistory F))
      → id == gone ≡ false
      → turns id (keep (λ h. not (h.session_id == gone)) rows) ≡ turns id rows
  turns-keep gone id [] h = refl
  turns-keep gone id (x ∷ rows) h = elim (Bool-cases (x.session_id == gone)) [
    | inl e ↦ rw (e, apart e) (turns-keep gone id rows h)
    | inr e ↦ elim (Bool-cases (x.session_id == id)) [
      | inl k ↦ rw (e, k) (ap suc (turns-keep gone id rows h))
      | inr k ↦ rw (e, k) (turns-keep gone id rows h)
    ]
  ]
    where
      apart : x.session_id == gone ≡ true → x.session_id == id ≡ false
      apart e = ground arith

  without_session-IsCounted : (id : ℕ) (d : Db F) → IsCounted d → IsCounted (without_session id d)
  without_session-IsCounted id d h =
      let stays : ChatSession → Bool = λ s. not (s.id == id) in
      record {
        counts =
            All-map (keep stays d.sessions.rows)
              (λ s k. k.0 ∙ sym (turns-keep id s.id d.histories.rows (flip (s.id == id) k.1)))
              (All-both _ _ (keep stays d.sessions.rows) (All-keep _ stays d.sessions.rows h.counts)
                (All-keep_self stays d.sessions.rows));
        older = All-keep _ _ d.histories.rows h.older;
      }
    where
      flip : (b : Bool) → not b ≡ true → b ≡ false
      flip true k = sym k
      flip false k = refl

  pub delete_session-IsCounted :
      (id : ℕ) (user : Option User) (db : Option (Db F))
      → OnSome IsCounted db
      → OnSome IsCounted (delete_session id user db).1
  unfolding delete_session
  delete_session-IsCounted id user none h = tt
  delete_session-IsCounted id user (some d) h = removed (find_session id d.sessions.rows)
    where
      removed : (o : Option ChatSession) → OnSome IsCounted (removing id d o).1
      removed none = h
      removed (some s) = without_session-IsCounted id d h

  -- The session that is asked for is one that there has been.
  abbrev pub Exists : Option ℕ → Option (Db F) → Type 0
  Exists session_id none = Unit
  Exists session_id (some d) = OnSome (λ i. i < d.sessions.ids) session_id

module _ (sv : Services) (redis : Redis) (parts : Parts sv) where
  open sv use {floats}
  open redis use {Server}

  remembered-IsCounted :
      (user : Option User) (now : ℕ) (db : Option (Db (floats.F)))
      → OnSome IsCounted db
      → OnSome IsCounted (remembered sv redis parts user now db).1
  remembered-IsCounted user now none h = tt
  remembered-IsCounted user now (some d) h = record { counts = h.counts; older = h.older }

  finished-IsCounted :
      (question : Text) (session_id : Option ℕ) (user : Option User) (now elapsed : ℕ)
      (personal : Bool) (cache : Option Server) (db : Option (Db (floats.F)))
      (r : Result (GraphState (floats.F) × List Node)) (log : Log)
      → Exists session_id db
      → OnSome IsCounted db
      → OnSome IsCounted
          (finished sv redis parts question session_id user now elapsed personal cache db r
            log).1.db
  finished-IsCounted question session_id user now elapsed personal cache db (raise e) log i h = h
  finished-IsCounted question session_id user now elapsed personal cache none (ok (result, visited))
        log i h =
      tt
  finished-IsCounted question session_id user now elapsed personal cache (some d)
        (ok (result, visited)) log i h =
      let k = saved-IsCounted session_id question _ result now d i h in
      record { counts = k.counts; older = k.older }

  pub run_chat-IsCounted :
      (question : Text) (session_id : Option ℕ) (user : Option User) (now elapsed : ℕ)
      (w : St sv redis parts)
      → Exists session_id w.db
      → OnSome IsCounted w.db
      → OnSome IsCounted (run_chat sv redis parts question session_id user now elapsed w).1.db
  unfolding run_chat
  run_chat-IsCounted question session_id user now elapsed w i h =
      by_lookup (looked_up sv redis parts (is_some w.db && is_some session_id) question w.cache)
    where
      exists :
          (db : Option (Db (floats.F)))
          → Exists session_id db
          → Exists session_id (remembered sv redis parts user now db).1
      exists none e = e
      exists (some d) e = e

      by_lookup :
          (o : Option (Res sv redis parts))
          → OnSome IsCounted
              (answered sv redis parts question session_id user now elapsed
                (is_some w.db && is_some session_id)
                w
                o).1.db
      by_lookup (some r) = h
      by_lookup none =
          let memory = remembered sv redis parts user now w.db in
          let run =
            crag_app sv (initial_state question (history_of session_id w.db) memory.0) w.log in
          finished-IsCounted question session_id user now elapsed
            (is_some w.db && is_some session_id) w.cache memory.1 run.0 run.1 (exists w.db i)
            (remembered-IsCounted user now w.db h)
