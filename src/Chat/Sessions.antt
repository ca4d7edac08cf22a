-- ===== src/Chat/Sessions.antt =====
-- The sessions of backend/api/v1/sessions.py, and the route `/chat` of backend/api/v1/chat.py.
pub mod Laws
use flowxrag.Prelude.{
  ℕ, zero, suc, ◌+◌, List, [], ◌∷◌, ◌++◌, Bool, true, false, not, ◌&&◌, ◌==◌, leb, Option, none,
  some, if◌then◌else◌, take, keep,
}
use flowxrag.Prelude.Sort.{sort}
use flowxrag.Text.{Text, codes, same, decimal}
use flowxrag.Effects.{Log}
use flowxrag.Api.{
  Reply, done, app_error, session_not_found, session_forbidden, internal_error, rate_limited,
}
use flowxrag.Models.{User, UserRole, ChatSession, ChatHistory, Table, add_row, last_row}
use flowxrag.Graph.{Services}
use flowxrag.Memory.Store.{head, is_owner}
use flowxrag.Chat.Cache.{Redis, Settings, Json, check_rate_limit}
use flowxrag.Chat.Service.{Db, World, Parts, St, Res, run_chat}

abbrev pub no_database {ℓ} : {A : Type ℓ} → Reply A
no_database = app_error internal_error (codes "数据库未配置") 503

abbrev pub user_id_of : Option User → Option ℕ
user_id_of none = none
user_id_of (some u) = some u.id

abbrev pub missing_session {ℓ} : {A : Type ℓ} → ℕ → Reply A
missing_session session_id =
    app_error session_not_found (codes "会话 " ++ (decimal session_id ++ codes " 不存在")) 404

-- `db.get(ChatSession, session_id)`
unfoldable pub find_session : ℕ → List ChatSession → Option ChatSession
find_session session_id rows = head (keep (λ s. s.id == session_id) rows)

-- `session.user_id and session.user_id != current_user.id`
abbrev pub is_foreign : Option ℕ → User → Bool
is_foreign none u = false
is_foreign (some zero) u = false
is_foreign (some (suc n)) u = not (suc n == u.id)

abbrev pub is_admin : UserRole → Bool
is_admin UserRole.user = false
is_admin UserRole.admin = true

abbrev pub may_see : Option User → ChatSession → Bool
may_see none s = true
may_see (some u) s = not (is_foreign s.user_id u && not (is_admin u.role))

abbrev pub new_session : Option User → Text → ℕ → ℕ → ChatSession
new_session user title now id = record {
  id = id;
  user_id = user_id_of user;
  title = title;
  message_count = 0;
  updated_at = now;
}

module _ {F : Type 0} where
  -- `ChatSession.user_id == None` is `IS NULL`.
  unfoldable pub list_sessions : Option User → Option (Db F) → Reply (List ChatSession)
  unfolding sort
  list_sessions user none = no_database
  list_sessions user (some d) = done (
      take 50 (
        sort (λ x y. leb y.updated_at x.updated_at)
          (keep (λ s. is_owner (user_id_of user) s.user_id) d.sessions.rows)))

  unfoldable pub create_session :
      Option User → Text → ℕ → Option (Db F) → Reply ChatSession × Option (Db F)
  create_session user title now none = (no_database, none)
  create_session user title now (some d) = (
    done (last_row (new_session user title now) d.sessions),
    some (record d { sessions = add_row (new_session user title now) d.sessions }),
  )

  -- The session with its turns, the oldest first.
  abbrev pub detail_of :
      ℕ → Option User → Db F → Option ChatSession → Reply (ChatSession × List (ChatHistory F))
  detail_of session_id user d none = missing_session session_id
  detail_of session_id user d (some s) =
      let turns =
        sort (λ x y. leb x.created_at y.created_at)
          (keep (λ h. h.session_id == s.id) d.histories.rows) in
      if may_see user s then done (s, turns) else app_error session_forbidden (codes "无权访问此会话") 403

  unfoldable pub get_session :
      ℕ → Option User → Option (Db F) → Reply (ChatSession × List (ChatHistory F))
  unfolding find_session sort
  get_session session_id user none = no_database
  get_session session_id user (some d) =
      detail_of session_id user d (find_session session_id d.sessions.rows)

  -- The rows of a session go with it.
  abbrev pub without_session : ℕ → Db F → Db F
  without_session session_id d = record d {
    sessions = record (d.sessions) { rows = keep (λ s. not (s.id == session_id)) d.sessions.rows };
    histories = record (d.histories) {
      rows = keep (λ h. not (h.session_id == session_id)) d.histories.rows;
    };
  }

  abbrev pub removing : ℕ → Db F → Option ChatSession → Reply (Unit {0}) × Option (Db F)
  removing session_id d none = (missing_session session_id, some d)
  removing session_id d (some s) = (done tt, some (without_session session_id d))

  -- The user that is passed is not looked at.
  unfoldable pub delete_session : ℕ → Option User → Option (Db F) → Reply (Unit {0}) × Option (Db F)
  unfolding find_session
  delete_session session_id user none = (no_database, none)
  delete_session session_id user (some d) =
      removing session_id d (find_session session_id d.sessions.rows)

module _ (sv : Services) (redis : Redis) (parts : Parts sv) where
  open sv use {lower}
  open redis use {Server}
  open parts use {settings, digest}

  abbrev pub limited : Text → Option Server → Bool × Option Server
  limited client_ip none = (true, none)
  limited client_ip (some s) =
      let (allowed, s') = check_rate_limit redis settings digest lower client_ip s in
      (allowed, some s')

  -- The route `/chat`; `client_ip` is `unknown` where the request has no client.
  unfoldable pub chat :
      Text
      → Text
      → Option ℕ
      → Option User
      → ℕ
      → ℕ
      → St sv redis parts
      → Reply (Res sv redis parts) × St sv redis parts
  unfolding check_rate_limit run_chat
  chat client_ip question session_id user now elapsed w =
      let (allowed, cache) = limited client_ip w.cache in
      let w' = record w { cache = cache } in
      let (response, left) = run_chat sv redis parts question session_id user now elapsed w' in
      if allowed
      then (done response, left)
      else (app_error rate_limited (codes "请求过于频繁，请稍后再试") 429, w')
