-- ===== src/Models.antt =====
-- The tables of backend/models, as lists of rows in the order of insertion. An instant is a number;
-- `ids` is the next number that the sequence of a table's primary key gives.
use flowxrag.Prelude.{ℕ, ◌+◌, Bool, Option, List, [], ◌∷◌, ◌++◌}
use flowxrag.Text.{Text}
use flowxrag.Graph.{Route, Source}

pub data UserRole : Type 0 where
  user admin : UserRole

pub record User : Type 0 where
  pub id : ℕ
  pub email : Text
  pub username : Text
  pub hashed_password : Text
  pub role : UserRole
  pub is_active : Bool

pub record ChatSession : Type 0 where
  pub id : ℕ
  pub user_id : Option ℕ
  pub title : Text
  pub message_count : ℕ
  pub updated_at : ℕ

pub record ChatHistory (F : Type 0) : Type 0 where
  pub id : ℕ
  pub session_id : ℕ
  pub question : Text
  pub answer : Text
  pub route : Route
  pub sources : List (Source F)
  pub agent_trace : List Text
  pub duration_ms : ℕ
  pub web_fallback : Bool
  pub cached : Bool
  pub created_at : ℕ

pub record UserMemory (F : Type 0) : Type 0 where
  pub id : ℕ
  pub user_id : Option ℕ
  pub scope_key : Text
  pub memory_key : Text
  pub category : Text
  pub content : Text
  pub status : Text
  pub source : Text
  pub source_session_id : Option ℕ
  pub source_message_id : Option ℕ
  pub confidence : F
  pub importance : F
  pub use_count : ℕ
  pub last_used_at : Option ℕ
  pub is_sensitive : Bool
  pub is_active : Bool
  pub reason : Option Text
  pub updated_at : ℕ

pub record DocumentRecord : Type 0 where
  pub id : ℕ
  pub filename : Text
  pub pages : ℕ
  pub chunks : ℕ
  pub status : Text
  pub uploaded_by : Option ℕ
  pub error_message : Option Text
  pub created_at : ℕ

-- A table with the sequence of its ids.
pub record Table (A : Type 0) : Type 0 where
  pub rows : List A
  pub ids : ℕ

-- `db.add(row)` and `db.flush()`, for a row that takes its id.
abbrev pub add_row : {A : Type 0} → (ℕ → A) → Table A → Table A
add_row make t = record { rows = t.rows ++ make t.ids ∷ []; ids = t.ids + 1 }

abbrev pub last_row : {A : Type 0} → (ℕ → A) → Table A → A
last_row make t = make t.ids
