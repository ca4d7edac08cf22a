-- ===== src/Accounts/RoundTrip.antt =====
-- From registration over login to a request: the user stays the same.
use flowxrag.Prelude.{
  ℕ, ◌+◌, ◌*◌, ◌<◌, [], ◌∷◌, ◌++◌, Bool, true, Option, none, some, ◌≡◌, refl, ap, ◌∙◌, Option-cases,
  inl, inr,
}
use flowxrag.Text.{Text, codes, same_refl, decimal}
use flowxrag.Text.Scan.Laws.{int_of-decimal}
use flowxrag.Api.{Reply, done, ◌>>=◌}
use flowxrag.Models.{User, UserRole, Table, add_row}
use flowxrag.Accounts.Passwords.{Bcrypt, IsBcrypt, verify_password-hash_password}
use flowxrag.Accounts.Tokens.{Jwt, IsJwt, Claims, access_claims, create_access_token, decode_token}
use flowxrag.Accounts.Service.{
  RegisterRequest, LoginRequest, by_email, get_user_by_id, new_user, logging_in, register_user,
  login_user,
}
use flowxrag.Accounts.Access.{
  get_current_user, user_of_token, identified, partition_space, subject, number_of,
}
use flowxrag.Accounts.Laws.{IsSound, NoneWith-by_email, by_email-append, get_user_by_id-append}

subject-decimal : (n : ℕ) → subject (some (decimal n)) ≡ done n
subject-decimal n = ap (number_of (decimal n)) (int_of-decimal n)

module _ (bcrypt : Bcrypt) (jwt : Jwt) (jwt_expire_minutes : ℕ) where
  abbrev pub credentials : RegisterRequest → LoginRequest
  credentials req = record { email = req.email; password = req.password }

  login_user_found :
      (now : ℕ) (req : LoginRequest) (users : Table User) (u : User)
      → by_email req.email users.rows ≡ some u
      → login_user bcrypt jwt jwt_expire_minutes now req users
        ≡ logging_in bcrypt jwt jwt_expire_minutes now req (some u)
  unfolding login_user
  login_user_found now req users u e = ap (logging_in bcrypt jwt jwt_expire_minutes now req) e

  login_new :
      (salt : Text) (req : RegisterRequest) (id now : ℕ)
      → IsBcrypt bcrypt
      → logging_in bcrypt jwt jwt_expire_minutes now
          (credentials req)
          (some (new_user bcrypt jwt jwt_expire_minutes salt req id))
        ≡ done (
          new_user bcrypt jwt jwt_expire_minutes salt req id,
          create_access_token jwt jwt_expire_minutes now id UserRole.user,
        )
  login_new salt req id now law =
      rw (verify_password-hash_password bcrypt law salt req.password) refl

  -- What a registered user finds: the login returns the user and a token, and the token names the
  -- user, active, until it expires.
  abbrev pub Welcomes : RegisterRequest → (Text → Text) → Bool → Reply User × Table User → Type 0
  Welcomes req lower require_auth (done u, users) =
      (now : ℕ)
      → (login_user bcrypt jwt jwt_expire_minutes now (credentials req) users
          ≡ done (u, create_access_token jwt jwt_expire_minutes now u.id u.role))
        × ((later : ℕ)
            → later < now + jwt_expire_minutes * 60
            → get_current_user jwt lower require_auth later (some users) (
                some
                  (codes "Bearer " ++ create_access_token jwt jwt_expire_minutes now u.id u.role))
              ≡ done (some u))
  Welcomes req lower require_auth (_, users) = Unit

  module _ (lower : Text → Text) (require_auth : Bool) where
    -- The token of a user that the database has, and that is active, names this user.
    user_of_token-access :
        IsJwt jwt
        → (now later : ℕ) (users : Table User) (u : User) → later < now + jwt_expire_minutes * 60
        → get_user_by_id u.id users.rows ≡ some u
        → u.is_active ≡ true
        → user_of_token jwt lower require_auth later
            (some users)
            (create_access_token jwt jwt_expire_minutes now u.id u.role)
          ≡ done u
    unfolding user_of_token create_access_token decode_token
    user_of_token-access law now later users u h e a =
        let c = access_claims jwt_expire_minutes now u.id u.role in
        rw (law.before c later (now + jwt_expire_minutes * 60) refl h) (
          ap (λ r. r >>= λ user_id. identified (some users) c user_id) (subject-decimal u.id)
          ∙ known_at c u.id (some u) e a)
      where
        known_at :
            (c : Claims) (id : ℕ) (o : Option User)
            → get_user_by_id id users.rows ≡ some u
            → u.is_active ≡ true
            → identified (some users) c id ≡ done u
        known_at c id o e a = rw (e, a) refl

    get_current_user-bearer :
        IsJwt jwt
        → lower (codes "Bearer") ≡ codes "bearer"
        → (now : ℕ) (db : Option (Table User)) (c : Claims)
        → get_current_user jwt lower require_auth now db (some (codes "Bearer " ++ jwt.encode c))
          ≡ (user_of_token jwt lower require_auth now db (jwt.encode c) >>= λ u. done (some u))
    unfolding get_current_user partition_space
    get_current_user-bearer law l now db c = rw (l, law.solid c) refl

    -- A user that registers can log in with the same password, and the token of the login is taken
    -- for this user by every later request until it expires. For a table whose emails differ and
    -- whose ids come before the next one, a library bcrypt that accepts a password against its own
    -- hash, one for tokens that reads back what it wrote, and a `str.lower` that is right on the
    -- word Bearer.
    pub register_user-Welcomes :
        (salt : Text) (req : RegisterRequest) (users : Table User)
        → IsSound users
        → IsBcrypt bcrypt
        → IsJwt jwt
        → lower (codes "Bearer") ≡ codes "bearer"
        → Welcomes req lower require_auth
            (register_user bcrypt jwt jwt_expire_minutes salt req users)
    unfolding register_user create_access_token
    register_user-Welcomes salt req users h bl jl l =
        elim (Option-cases (by_email req.email users.rows)) [
          | inl e ↦ rw e (welcome e)
          | inr (v, e) ↦ rw e tt
        ]
      where
        u : User
        u = new_user bcrypt jwt jwt_expire_minutes salt req users.ids

        found :
            by_email req.email users.rows ≡ none
            → by_email req.email (users.rows ++ u ∷ []) ≡ some u
        found e =
            by_email-append req.email users.rows u (NoneWith-by_email req.email users.rows e)
              (same_refl req.email)

        welcome :
            by_email req.email users.rows ≡ none
            → Welcomes req lower require_auth
                (done u, add_row (new_user bcrypt jwt jwt_expire_minutes salt req) users)
        welcome e now = (
          login_user_found now (credentials req) _ u (found e)
              ∙ login_new salt req users.ids now bl,
          λ later k.
              get_current_user-bearer jl l later (some _)
                (access_claims jwt_expire_minutes now u.id u.role)
              ∙ ap (λ r. r >>= λ v. done (some v))
                  (user_of_token-access jl now later _ u k
                    (get_user_by_id-append u.id users.rows u h.older refl) refl),
        )
