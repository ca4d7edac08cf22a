-- ===== src/Accounts/Access.antt =====
-- Who makes a request: `get_current_user` and `require_admin` of backend/api/deps.py, and the route
-- `/auth/me`.
use flowxrag.Prelude.{
  ℕ, [], ◌∷◌, Bool, true, not, ◌||◌, ◌==◌, Option, none, some, if◌then◌else◌, is_empty,
}
use flowxrag.Text.{Text, codes, same, int_of}
use flowxrag.Api.{
  Reply, done, crashed, app_error, ◌>>=◌, auth_unauthorized, auth_invalid_token, auth_forbidden,
}
use flowxrag.Models.{User, UserRole, Table}
use flowxrag.Accounts.Tokens.{Jwt, Claims, decode_token}
use flowxrag.Accounts.Service.{get_user_by_id, UserResponse, user_response}

-- `text.partition(" ")` without its middle part
unfoldable pub partition_space : Text → Text × Text
partition_space [] = ([], [])
partition_space (c ∷ t) =
    let rest = partition_space t in if c == 32 then ([], t) else (c ∷ rest.0, rest.1)

abbrev pub get_or : Option Text → Text → Text
get_or none default = default
get_or (some t) default = t

-- `UserRole(value)`
abbrev pub role_of : Text → Reply UserRole
role_of value =
    if same value (codes "user")
    then done UserRole.user
    else (if same value (codes "admin") then done UserRole.admin else crashed value)

-- `_mock_user_from_payload`; the object has no password.
unfoldable pub mock_user_from_payload : Claims → ℕ → Reply User
mock_user_from_payload c user_id = role_of (get_or c.role (codes "user")) >>= λ role. done (record {
  id = user_id;
  email = get_or c.email [];
  username = get_or c.username (codes "user");
  hashed_password = [];
  role = role;
  is_active = true;
})

abbrev pub number_of : Text → Option ℕ → Reply ℕ
number_of t (some n) = done n
number_of t none = crashed t

-- `int(payload.get("sub", 0))`
abbrev pub subject : Option Text → Reply ℕ
subject none = done 0
subject (some t) = number_of t (int_of t)

-- A user as the database has it.
abbrev pub known_user : Option User → Reply User
known_user none = app_error auth_invalid_token (codes "用户不存在") 401
known_user (some u) =
    if not u.is_active then app_error auth_forbidden (codes "账号已被禁用") 403 else done u

abbrev pub identified : Option (Table User) → Claims → ℕ → Reply User
identified none c user_id = mock_user_from_payload c user_id
identified (some users) c user_id = known_user (get_user_by_id user_id users.rows)

-- `lower` is `str.lower`, and `require_auth` a setting.
module _ (jwt : Jwt) (lower : Text → Text) (require_auth : Bool) where
  -- The part behind the tests of the header.
  unfoldable pub user_of_token : ℕ → Option (Table User) → Text → Reply User
  unfolding get_user_by_id mock_user_from_payload int_of
  user_of_token now db token = do
    c ← decode_token jwt now token
    user_id ← subject c.sub
    identified db c user_id

  unfoldable pub get_current_user : ℕ → Option (Table User) → Option Text → Reply (Option User)
  unfolding user_of_token partition_space
  get_current_user now db authorization =
      let header = get_or authorization [] in
      let (scheme, token) = partition_space header in
      let bad = not (same (lower scheme) (codes "bearer")) || is_empty token in
      if is_empty header
      then (if require_auth then app_error auth_unauthorized (codes "请先登录") 401 else done none)
      else (if bad
          then app_error auth_invalid_token (codes "Authorization 格式应为 Bearer <token>") 401
          else user_of_token now db token >>= λ u. done (some u))

  abbrev pub by_role : User → UserRole → Reply User
  by_role u UserRole.admin = done u
  by_role u UserRole.user = app_error auth_forbidden (codes "需要管理员权限") 403

  abbrev pub admin_only : Option User → Reply User
  admin_only none = app_error auth_unauthorized (codes "请先登录") 401
  admin_only (some u) = by_role u u.role

  -- `require_admin` behind `get_current_user`, as a route depends on it.
  unfoldable pub require_admin : ℕ → Option (Table User) → Option Text → Reply User
  unfolding get_current_user
  require_admin now db authorization = get_current_user now db authorization >>= admin_only

  abbrev pub me_of : Option User → Reply UserResponse
  me_of none = app_error auth_unauthorized (codes "请先登录") 401
  me_of (some u) = done (user_response u)

  unfoldable pub me : ℕ → Option (Table User) → Option Text → Reply UserResponse
  unfolding get_current_user
  me now db authorization = get_current_user now db authorization >>= me_of
