-- ===== src/Accounts/Guard.antt =====
-- Whom the access checks let pass.
use flowxrag.Prelude.{
  ℕ, suc, List, [], ◌∷◌, Bool, true, false, not, ◌||◌, ◌==◌, Option, none, some, ◌≡◌, refl,
  Bool-cases, inl, inr, if◌then◌else◌, is_empty, get_elem?, OnSome,
}
use flowxrag.Text.{Text, codes, same}
use flowxrag.Api.{Reply, done, refused, crashed, Returns, ◌>>=◌, app_error, auth_forbidden}
use flowxrag.Models.{User, UserRole, Table}
use flowxrag.Accounts.Tokens.{Jwt, decode_token}
use flowxrag.Accounts.Service.{get_user_by_id}
use flowxrag.Accounts.Access.{
  get_current_user, require_admin, user_of_token, admin_only, by_role, known_user, partition_space,
  subject, get_or,
}

-- The user stands in the table, and is active.
pub record IsMember (users : List User) (u : User) : Type 0 where
  pub place : ℕ
  pub stands : get_elem? users place ≡ some u
  pub is_active : u.is_active ≡ true

abbrev Stands : List User → User → Type 0
Stands users u = (i : ℕ) × (get_elem? users i ≡ some u)

Stands-later :
    (v : User) (users : List User) (o : Option User)
    → OnSome (Stands users) o
    → OnSome (Stands (v ∷ users)) o
Stands-later v users none h = tt
Stands-later v users (some u) h = (suc h.0, h.1)

get_user_by_id-Stands :
    (id : ℕ) (users : List User) → OnSome (Stands users) (get_user_by_id id users)
unfolding get_user_by_id
get_user_by_id-Stands id [] = tt
get_user_by_id-Stands id (u ∷ users) = elim (Bool-cases (u.id == id)) [
  | inl e ↦ rw e (0, refl)
  | inr e ↦ rw e (Stands-later u users (get_user_by_id id users) (get_user_by_id-Stands id users))
]

known_user-IsMember :
    (users : List User) (o : Option User)
    → OnSome (Stands users) o
    → Returns (IsMember users) (known_user o)
known_user-IsMember users none h = tt
known_user-IsMember users (some u) h = by_activity u.is_active refl
  where
    by_activity :
        (b : Bool)
        → u.is_active ≡ b
        → Returns
            (IsMember users)
            (if not b then app_error auth_forbidden (codes "账号已被禁用") 403 else done u)
    by_activity true e = record { place = h.0; stands = h.1; is_active = e }
    by_activity false e = tt

Returns-bind :
    {A B : Type 0} (Q : B → Type 0) (r : Reply A) (f : A → Reply B)
    → ((a : A) → Returns Q (f a))
    → Returns Q (r >>= f)
Returns-bind Q (done a) f h = h a
Returns-bind Q (refused e) f h = tt
Returns-bind Q (crashed e) f h = tt

Returns-map :
    {A B : Type 0} (P : A → Type 0) (Q : B → Type 0) (r : Reply A) (f : A → Reply B)
    → Returns P r
    → ((a : A) → P a → Returns Q (f a))
    → Returns Q (r >>= f)
Returns-map P Q (done a) f p h = h a p
Returns-map P Q (refused e) f p h = tt
Returns-map P Q (crashed e) f p h = tt

module _ (jwt : Jwt) (lower : Text → Text) (require_auth : Bool) where
  -- Nobody is known only where the settings ask for nobody, and who is known is an active user of
  -- the table.
  abbrev pub IsKnown : List User → Option User → Type 0
  IsKnown users none = require_auth ≡ false
  IsKnown users (some u) = IsMember users u

  user_of_token-IsMember :
      (now : ℕ) (users : Table User) (token : Text)
      → Returns (IsMember users.rows) (user_of_token jwt lower require_auth now (some users) token)
  unfolding user_of_token
  user_of_token-IsMember now users token =
      Returns-bind (IsMember users.rows) (decode_token jwt now token) _ λ c.
        Returns-bind (IsMember users.rows) (subject c.sub) _
          λ id. known_user-IsMember users.rows _ (get_user_by_id-Stands id users.rows)

  -- With a database, a request passes as nobody only where `require_auth` is not set, and as a user
  -- only where the table has the user and the user is active.
  pub get_current_user-IsKnown :
      (now : ℕ) (users : Table User) (authorization : Option Text)
      → Returns
          (IsKnown users.rows)
          (get_current_user jwt lower require_auth now (some users) authorization)
  unfolding get_current_user
  get_current_user-IsKnown now users authorization =
      let header = get_or authorization [] in
      let parts = partition_space header in
      elim (Bool-cases (is_empty header)) [
        | inl e ↦ elim (Bool-cases require_auth) [ inl d ↦ rw (e, d) tt | inr d ↦ rw (e, d) refl ]
        | inr e ↦
            elim (Bool-cases (not (same (lower parts.0) (codes "bearer")) || is_empty parts.1)) [
              | inl d ↦ rw (e, d) tt
              | inr d ↦
                  rw (e, d)
                    (Returns-map (IsMember users.rows) (IsKnown users.rows)
                      (user_of_token jwt lower require_auth now (some users) parts.1) _
                      (user_of_token-IsMember now users parts.1) (λ u h. h))
            ]
      ]

  admin_only-IsAdmin :
      (users : List User) (o : Option User)
      → IsKnown users o
      → Returns
          (λ u. IsMember users u × (u.role ≡ UserRole.admin))
          (admin_only jwt lower require_auth o)
  admin_only-IsAdmin users none h = tt
  admin_only-IsAdmin users (some u) h = by_its_role u.role refl
    where
      by_its_role :
          (r : UserRole)
          → u.role ≡ r
          → Returns
              (λ u. IsMember users u × (u.role ≡ UserRole.admin))
              (by_role jwt lower require_auth u r)
      by_its_role UserRole.admin e = (h, e)
      by_its_role UserRole.user e = tt

  -- With a database, an administrator's route is passed only by an active administrator of the
  -- table.
  pub require_admin-IsAdmin :
      (now : ℕ) (users : Table User) (authorization : Option Text)
      → Returns
          (λ u. IsMember users.rows u × (u.role ≡ UserRole.admin))
          (require_admin jwt lower require_auth now (some users) authorization)
  unfolding require_admin
  require_admin-IsAdmin now users authorization =
      Returns-map (IsKnown users.rows) _
        (get_current_user jwt lower require_auth now (some users) authorization) _
        (get_current_user-IsKnown now users authorization)
        (λ o h. admin_only-IsAdmin users.rows o h)
