-- ===== src/Accounts/Passwords.antt =====
-- The passwords of backend/services/auth_service.py. `hashpw` and `checkpw` are those of the
-- library bcrypt, on bytes; `checkpw` is `none` where it raises `ValueError`.
use flowxrag.Prelude.{
  ℕ, ◌+◌, ◌/◌, ◌%◌, List, [], ◌∷◌, ◌++◌, Bool, true, false, Option, none, some, ltb, if◌then◌else◌,
  take, ◌≡◌, ap,
}
use flowxrag.Text.{Text}

-- The bytes of one character in UTF-8.
unfoldable pub utf8_char : ℕ → List ℕ
utf8_char c =
    if ltb c 0x80
    then c ∷ []
    else (if ltb c 0x800
        then (0xc0 + c / 64) ∷ (0x80 + c % 64) ∷ []
        else (if ltb c 0x10000
            then (0xe0 + c / 4096) ∷ (0x80 + c / 64 % 64) ∷ (0x80 + c % 64) ∷ []
            else (0xf0 + c / 262144)
              ∷ (0x80 + c / 4096 % 64)
              ∷ (0x80 + c / 64 % 64)
              ∷ (0x80 + c % 64)
              ∷ []))

-- `text.encode("utf-8")`
unfoldable pub utf8 : Text → List ℕ
unfolding utf8_char
utf8 [] = []
utf8 (c ∷ t) = utf8_char c ++ utf8 t

-- bcrypt reads 72 bytes at most.
unfoldable pub truncate : Text → List ℕ
unfolding utf8
truncate password = take 72 (utf8 password)

pub record Bcrypt : Type 0 where
  pub hashpw : List ℕ → Text → Text
  pub checkpw : List ℕ → Text → Option Bool

-- A password is accepted against its own hash, whatever the salt.
pub record IsBcrypt (b : Bcrypt) : Type 0 where
  pub accepts : (bytes : List ℕ) (salt : Text) → b.checkpw bytes (b.hashpw bytes salt) ≡ some true

module _ (bcrypt : Bcrypt) where
  open bcrypt use {hashpw, checkpw}

  -- `salt` is the result of `bcrypt.gensalt()`.
  unfoldable pub hash_password : Text → Text → Text
  unfolding truncate
  hash_password salt password = hashpw (truncate password) salt

  abbrev checked : Option Bool → Bool
  checked (some matches) = matches
  checked none = false

  unfoldable pub verify_password : Text → Text → Bool
  unfolding truncate
  verify_password plain hashed = checked (checkpw (truncate plain) hashed)

  pub verify_password-hash_password :
      IsBcrypt bcrypt
      → (salt password : Text) → verify_password password (hash_password salt password) ≡ true
  unfolding verify_password hash_password
  verify_password-hash_password law salt password =
      ap checked (law.accepts (truncate password) salt)
