-- ===== src/Accounts/Service.antt =====
-- Registration and login: `register_user` and `login_user`, and the routes of backend/api/v1/auth.py
-- over them. `db` is `none` where no database is configured.
use flowxrag.Prelude.{
  ℕ, ◌*◌, List, [], ◌∷◌, ◌++◌, Bool, true, not, ◌==◌, Option, none, some, if◌then◌else◌,
}
use flowxrag.Text.{Text, codes, same}
use flowxrag.Api.{
  Reply, done, app_error, ◌>>=◌, auth_user_exists, auth_invalid_creds, auth_forbidden,
  internal_error,
}
use flowxrag.Models.{User, UserRole, Table, add_row, last_row}
use flowxrag.Accounts.Passwords.{Bcrypt, hash_password, verify_password}
use flowxrag.Accounts.Tokens.{Jwt, create_access_token, role_value}

pub record RegisterRequest : Type 0 where
  pub email : Text
  pub username : Text
  pub password : Text

pub record LoginRequest : Type 0 where
  pub email : Text
  pub password : Text

pub record TokenResponse : Type 0 where
  pub access_token : Text
  pub expires_in : ℕ

-- What a response shows of a user: not the hash of the password.
pub record UserResponse : Type 0 where
  pub id : ℕ
  pub email : Text
  pub username : Text
  pub role : Text
  pub is_active : Bool

abbrev pub user_response : User → UserResponse
user_response u = record {
  id = u.id;
  email = u.email;
  username = u.username;
  role = role_value u.role;
  is_active = u.is_active;
}

-- `select(User).where(User.email == email)`; the column is unique.
unfoldable pub by_email : Text → List User → Option User
by_email email [] = none
by_email email (u ∷ users) =
    let rest = by_email email users in if same u.email email then some u else rest

-- `get_user_by_id`
unfoldable pub get_user_by_id : ℕ → List User → Option User
get_user_by_id user_id [] = none
get_user_by_id user_id (u ∷ users) =
    let rest = get_user_by_id user_id users in if u.id == user_id then some u else rest

module _ (bcrypt : Bcrypt) (jwt : Jwt) (jwt_expire_minutes : ℕ) where
  abbrev pub new_user : Text → RegisterRequest → ℕ → User
  new_user salt req id = record {
    id = id;
    email = req.email;
    username = req.username;
    hashed_password = hash_password bcrypt salt req.password;
    role = UserRole.user;
    is_active = true;
  }

  abbrev pub registering :
      Text → RegisterRequest → Table User → Option User → Reply User × Table User
  registering salt req users (some existing) =
      (app_error auth_user_exists (codes "邮箱 " ++ (req.email ++ codes " 已被注册")) 409, users)
  registering salt req users none =
      (done (last_row (new_user salt req) users), add_row (new_user salt req) users)

  unfoldable pub register_user : Text → RegisterRequest → Table User → Reply User × Table User
  unfolding by_email
  register_user salt req users = registering salt req users (by_email req.email users.rows)

  abbrev pub logging_in : ℕ → LoginRequest → Option User → Reply (User × Text)
  logging_in now req none = app_error auth_invalid_creds (codes "邮箱或密码错误") 401
  logging_in now req (some u) =
      if not (verify_password bcrypt req.password u.hashed_password)
      then app_error auth_invalid_creds (codes "邮箱或密码错误") 401
      else (if not u.is_active
          then app_error auth_forbidden (codes "账号已被禁用") 403
          else done (u, create_access_token jwt jwt_expire_minutes now u.id u.role))

  unfoldable pub login_user : ℕ → LoginRequest → Table User → Reply (User × Text)
  unfolding by_email
  login_user now req users = logging_in now req (by_email req.email users.rows)

  -- The routes `/auth/register` and `/auth/login`.
  unfoldable pub register :
      Text → RegisterRequest → Option (Table User) → Reply UserResponse × Option (Table User)
  unfolding register_user
  register salt req none = (app_error internal_error (codes "数据库未配置，无法注册") 503, none)
  register salt req (some users) =
      let (reply, users') = register_user salt req users in
      (reply >>= λ u. done (user_response u), some users')

  unfoldable pub login : ℕ → LoginRequest → Option (Table User) → Reply TokenResponse
  unfolding login_user
  login now req none = app_error internal_error (codes "数据库未配置，无法登录") 503
  login now req (some users) = login_user now req users >>= λ r.
      done (record { access_token = r.1; expires_in = jwt_expire_minutes * 60 })
