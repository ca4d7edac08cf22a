-- ===== src/Chat/Changes.antt =====
-- The life of the sessions: questions, new sessions and deletions, one behind the other.
use flowxrag.Prelude.{ℕ, Option, OnSome}
use flowxrag.Text.{Text}
use flowxrag.Models.{User}
use flowxrag.Graph.{Services}
use flowxrag.Chat.Cache.{Redis}
use flowxrag.Chat.Service.{Parts, St, run_chat}
use flowxrag.Chat.Sessions.{create_session, delete_session}
use flowxrag.Chat.Sessions.Laws.{
  IsCounted, Exists, run_chat-IsCounted, create_session-IsCounted, delete_session-IsCounted,
}

module _ (sv : Services) (redis : Redis) (parts : Parts sv) where
  -- What happens to the sessions: a question, in a session that exists if it names one, a new
  -- session, or the deletion of one.
  pub data Change : St sv redis parts → St sv redis parts → Type 0 where
    asked :
        (question : Text) (session_id : Option ℕ) (user : Option User) (now elapsed : ℕ)
        (w : St sv redis parts)
        → Exists session_id w.db
        → Change w (run_chat sv redis parts question session_id user now elapsed w).1
    opened :
        (user : Option User) (title : Text) (now : ℕ) (w : St sv redis parts)
        → Change w (record w { db = (create_session user title now w.db).1 })
    closed :
        (id : ℕ) (user : Option User) (w : St sv redis parts)
        → Change w (record w { db = (delete_session id user w.db).1 })

  pub data Changes : St sv redis parts → St sv redis parts → Type 0 where
    no_more : (w : St sv redis parts) → Changes w w
    change_first : (u v w : St sv redis parts) → Change u v → Changes v w → Changes u w

  Change-IsCounted :
      (u v : St sv redis parts) → Change u v → OnSome IsCounted u.db → OnSome IsCounted v.db
  Change-IsCounted u _ (asked question session_id user now elapsed _ e) h =
      run_chat-IsCounted sv redis parts question session_id user now elapsed u e h
  Change-IsCounted u _ (opened user title now _) h = create_session-IsCounted user title now u.db h
  Change-IsCounted u _ (closed id user _) h = delete_session-IsCounted id user u.db h

  -- Through any questions, new sessions and deletions, where every question that names a session
  -- names one that there has been: the counter of each session is the number of its turns.
  pub Changes-IsCounted :
      (u v : St sv redis parts) → Changes u v → OnSome IsCounted u.db → OnSome IsCounted v.db
  Changes-IsCounted u _ (no_more _) h = h
  Changes-IsCounted u _ (change_first _ v w c rest) h =
      Changes-IsCounted v w rest (Change-IsCounted u v c h)
