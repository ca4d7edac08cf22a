-- ===== src/Accounts/Laws.antt =====
-- The table of users: what registration keeps.
use flowxrag.Prelude.{
  ℕ, ◌+◌, ◌<◌, List, [], ◌∷◌, ◌++◌, true, false, ◌==◌, none, some, ◌≡◌, refl, sym, ◌∙◌, arith,
  Bool-cases, Option-cases, inl, inr, All, All-append, All-map, ==_iff,
}
use flowxrag.Text.{same_comm, Text, same}
use flowxrag.Models.{User, Table}
use flowxrag.Accounts.Passwords.{Bcrypt}
use flowxrag.Accounts.Tokens.{Jwt}
use flowxrag.Accounts.Service.{RegisterRequest, by_email, get_user_by_id, register_user}

-- No user of the list has the email.
abbrev pub NoneWith : Text → List User → Type 0
NoneWith email = All (λ u. same u.email email ≡ false)

abbrev pub UniqueEmails : List User → Type 0
UniqueEmails [] = Unit
UniqueEmails (u ∷ users) = NoneWith u.email users × UniqueEmails users

-- The emails of the users differ, and their ids come before the next one.
pub record IsSound (users : Table User) : Type 0 where
  pub emails : UniqueEmails users.rows
  pub older : All (λ u. u.id < users.ids) users.rows

pub NoneWith-by_email :
    (email : Text) (users : List User) → by_email email users ≡ none → NoneWith email users
unfolding by_email
NoneWith-by_email email [] h = tt
NoneWith-by_email email (u ∷ users) h = elim (Bool-cases (same u.email email)) [
  | inl e ↦ absurd (some_none u (sym (taken e) ∙ h))
  | inr e ↦ (e, NoneWith-by_email email users (sym (passed e) ∙ h))
]
  where
    some_none : (u : User) → some u ≡ none → ⊥
    some_none u e = cc

    taken : same u.email email ≡ true → by_email email (u ∷ users) ≡ some u
    taken e = rw e refl

    passed : same u.email email ≡ false → by_email email (u ∷ users) ≡ by_email email users
    passed e = rw e refl

-- A new row at the end is the one that is found, if no other has its email.
pub by_email-append :
    (email : Text) (users : List User) (u : User)
    → NoneWith email users
    → same u.email email ≡ true
    → by_email email (users ++ u ∷ []) ≡ some u
unfolding by_email
by_email-append email [] u h e = rw e refl
by_email-append email (v ∷ users) u h e = rw h.0 (by_email-append email users u h.1 e)

pub get_user_by_id-append :
    (id : ℕ) (users : List User) (u : User)
    → All (λ v. v.id < id) users
    → u.id ≡ id
    → get_user_by_id id (users ++ u ∷ []) ≡ some u
unfolding get_user_by_id
get_user_by_id-append id [] u h e = rw ((==_iff u.id id).1 e) refl
get_user_by_id-append id (v ∷ users) u h e =
    rw (below v.id h.0) (get_user_by_id-append id users u h.1 e)
  where
    below : (n : ℕ) → n < id → n == id ≡ false
    below n k = ground arith

UniqueEmails-append :
    (users : List User) (u : User)
    → UniqueEmails users
    → NoneWith u.email users
    → UniqueEmails (users ++ u ∷ [])
UniqueEmails-append [] u h k = (tt, tt)
UniqueEmails-append (v ∷ users) u h k = (
  All-append (λ w. same w.email v.email ≡ false) users (u ∷ []) h.0
      (same_comm v.email u.email k.0, tt),
  UniqueEmails-append users u h.1 k.1,
)

module _ (bcrypt : Bcrypt) (jwt : Jwt) (jwt_expire_minutes : ℕ) where
  -- A registration, whether it succeeds or is refused, keeps the emails of the users different and
  -- their ids before the next one.
  pub register_user-IsSound :
      (salt : Text) (req : RegisterRequest) (users : Table User)
      → IsSound users
      → IsSound (register_user bcrypt jwt jwt_expire_minutes salt req users).1
  unfolding register_user
  register_user-IsSound salt req users h = elim (Option-cases (by_email req.email users.rows)) [
    | inl e ↦ rw e (record {
      emails = UniqueEmails-append users.rows _ h.emails (NoneWith-by_email req.email users.rows e);
      older =
          All-append (λ u. u.id < users.ids + 1) users.rows _
            (All-map users.rows (λ u k. omega arith) h.older) (omega arith, tt);
    })
    | inr (u, e) ↦ rw e h
  ]
