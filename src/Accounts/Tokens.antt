-- ===== src/Accounts/Tokens.antt =====
-- The tokens of backend/services/auth_service.py. `encode` and `decode` are those of the library
-- for JSON Web Tokens with the secret of the settings, and an instant is a number of seconds.
use flowxrag.Prelude.{ℕ, ◌+◌, ◌*◌, ◌<◌, ◌≤◌, false, Option, none, some, ◌≡◌, is_empty}
use flowxrag.Text.{Text, codes, decimal}
use flowxrag.Api.{Reply, done, app_error, auth_expired_token, auth_invalid_token}
use flowxrag.Models.{UserRole}

-- The keys of a payload that the program reads or writes.
pub record Claims : Type 0 where
  pub sub : Option Text
  pub role : Option Text
  pub email : Option Text
  pub username : Option Text
  pub exp : Option ℕ
  pub iat : Option ℕ

pub data Decoded : Type 0 where
  payload : Claims → Decoded
  expired invalid : Decoded

pub record Jwt : Type 0 where
  pub encode : Claims → Text
  pub decode : ℕ → Text → Decoded

-- A token that was made here is not empty, is read as its claims before it expires, and not after.
pub record IsJwt (jwt : Jwt) : Type 0 where
  pub solid : (c : Claims) → is_empty (jwt.encode c) ≡ false
  pub before :
      (c : Claims) (now exp : ℕ)
      → c.exp ≡ some exp
      → now < exp
      → jwt.decode now (jwt.encode c) ≡ payload c
  pub after :
      (c : Claims) (now exp : ℕ)
      → c.exp ≡ some exp
      → exp ≤ now
      → jwt.decode now (jwt.encode c) ≡ expired

-- `UserRole.value`
abbrev pub role_value : UserRole → Text
role_value UserRole.user = codes "user"
role_value UserRole.admin = codes "admin"

-- The claims of `create_access_token`.
abbrev pub access_claims : ℕ → ℕ → ℕ → UserRole → Claims
access_claims expire_minutes now user_id role = record {
  sub = some (decimal user_id);
  role = some (role_value role);
  email = none;
  username = none;
  exp = some (now + expire_minutes * 60);
  iat = some now;
}

module _ (jwt : Jwt) where
  unfoldable pub create_access_token : ℕ → ℕ → ℕ → UserRole → Text
  create_access_token expire_minutes now user_id role =
      jwt.encode (access_claims expire_minutes now user_id role)

  abbrev pub read : Decoded → Reply Claims
  read (payload c) = done c
  read expired = app_error auth_expired_token (codes "Token 已过期，请重新登录") 401
  read invalid = app_error auth_invalid_token (codes "无效的 Token") 401

  unfoldable pub decode_token : ℕ → Text → Reply Claims
  decode_token now token = read (jwt.decode now token)
