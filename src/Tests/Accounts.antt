-- ===== src/Tests/Accounts.antt =====
-- Runs of the accounts, with a token that is the list of its claims and a password that is its own
-- hash.
use flowxrag.Prelude.{
  ℕ, zero, suc, ◌<◌, ◌≤◌, [], ◌∷◌, ◌++◌, true, false, Option, none, some, ◌≡◌, refl, ap, ◌∙◌, leb,
  take, drop, length, if◌then◌else◌, is_empty, arith,
}
use flowxrag.Text.{Text, codes, same, same_refl}
use flowxrag.Api.{Returns}
use flowxrag.Models.{User, UserRole, Table}
use flowxrag.Accounts.Passwords.{Bcrypt, IsBcrypt}
use flowxrag.Accounts.Tokens.{Jwt, IsJwt, Claims, Decoded, payload, expired}
use flowxrag.Accounts.Service.{RegisterRequest, register_user}
use flowxrag.Accounts.Access.{get_current_user, require_admin}
use flowxrag.Accounts.Laws.{IsSound, register_user-IsSound}
use flowxrag.Accounts.RoundTrip.{Welcomes, register_user-Welcomes}
use flowxrag.Accounts.Guard.{IsKnown, IsMember, get_current_user-IsKnown, require_admin-IsAdmin}
use flowxrag.Tests.Values.{ascii_lower}

abbrev plain_bcrypt : Bcrypt
plain_bcrypt = record {
  hashpw = λ bytes salt. bytes;
  checkpw = λ bytes hash. some (same bytes hash);
}

plain_bcrypt-IsBcrypt : IsBcrypt plain_bcrypt
plain_bcrypt-IsBcrypt = record { accepts = λ bytes salt. ap some (same_refl bytes) }

abbrev write : Option Text → Text → Text
write none rest = 0 ∷ rest
write (some t) rest = suc (length t) ∷ (t ++ rest)

abbrev scan : Text → Option Text × Text
scan [] = (none, [])
scan (zero ∷ rest) = (none, rest)
scan (suc n ∷ rest) = (some (take n rest), drop n rest)

take-append : (t rest : Text) → take (length t) (t ++ rest) ≡ t
take-append [] rest = refl
take-append (c ∷ t) rest = ap (◌∷◌ c) (take-append t rest)

drop-append : (t rest : Text) → drop (length t) (t ++ rest) ≡ rest
drop-append [] rest = refl
drop-append (c ∷ t) rest = drop-append t rest

scan-write : (o : Option Text) (rest : Text) → scan (write o rest) ≡ (o, rest)
scan-write none rest = refl
scan-write (some t) rest = rw (take-append t rest, drop-append t rest) refl

abbrev write_number : Option ℕ → Text → Text
write_number none rest = 0 ∷ rest
write_number (some n) rest = suc n ∷ rest

abbrev scan_number : Text → Option ℕ × Text
scan_number [] = (none, [])
scan_number (zero ∷ rest) = (none, rest)
scan_number (suc n ∷ rest) = (some n, rest)

scan_number-write_number :
    (o : Option ℕ) (rest : Text) → scan_number (write_number o rest) ≡ (o, rest)
scan_number-write_number none rest = refl
scan_number-write_number (some n) rest = refl

abbrev encode : Claims → Text
encode c =
    write c.sub
      (write c.role (write c.email (write c.username (write_number c.exp (write_number c.iat [])))))

abbrev parse : Text → Claims
parse t =
    let a = scan t in
    let b = scan a.1 in
    let c = scan b.1 in
    let d = scan c.1 in
    let e = scan_number d.1 in
    record {
      sub = a.0;
      role = b.0;
      email = c.0;
      username = d.0;
      exp = e.0;
      iat = (scan_number e.1).0;
    }

parse-encode : (c : Claims) → parse (encode c) ≡ c
parse-encode c =
    rw
      (
        scan-write c.sub _,
        scan-write c.role _,
        scan-write c.email _,
        scan-write c.username _,
        scan_number-write_number c.exp _,
        scan_number-write_number c.iat [],
      )
      refl

abbrev dated : Option ℕ → ℕ → Claims → Decoded
dated none now c = payload c
dated (some exp) now c = if leb exp now then expired else payload c

abbrev list_jwt : Jwt
list_jwt = record { encode = encode; decode = λ now t. let c = parse t in dated c.exp now c }

list_jwt-IsJwt : IsJwt list_jwt
list_jwt-IsJwt = record {
  solid = λ c. first c.sub _;
  before = λ c now exp e l. back c now ∙ in_time c.exp exp now c e l;
  after = λ c now exp e l. back c now ∙ too_late c.exp exp now c e l;
}
  where
    first : (o : Option Text) (rest : Text) → is_empty (write o rest) ≡ false
    first none rest = refl
    first (some t) rest = refl

    back : (c : Claims) (now : ℕ) → list_jwt.decode now (encode c) ≡ dated c.exp now c
    back c now = ap (λ (d : Claims). dated d.exp now d) (parse-encode c)

    in_time :
        (o : Option ℕ) (exp now : ℕ) (c : Claims)
        → o ≡ some exp
        → now < exp
        → dated o now c ≡ payload c
    in_time o exp now c e l = let later : leb exp now ≡ false = ground arith in rw (e, later) refl

    too_late :
        (o : Option ℕ) (exp now : ℕ) (c : Claims)
        → o ≡ some exp
        → exp ≤ now
        → dated o now c ≡ expired
    too_late o exp now c e l = let over : leb exp now ≡ true = ground arith in rw (e, over) refl

abbrev anna : RegisterRequest
anna = record {
  email = codes "anna@example.org";
  username = codes "Anna";
  password = codes "correct horse";
}

abbrev root : User
root = record {
  id = 1;
  email = codes "root@example.org";
  username = codes "root";
  hashed_password = codes "secret";
  role = UserRole.admin;
  is_active = true;
}

abbrev staff : Table User
staff = record { rows = root ∷ []; ids = 2 }

staff-IsSound : IsSound staff
staff-IsSound = record { emails = (tt, tt); older = (omega arith, tt) }

register_user-IsSound_example :
    IsSound (register_user plain_bcrypt list_jwt 30 (codes "salt") anna staff).1
register_user-IsSound_example =
    register_user-IsSound plain_bcrypt list_jwt 30 (codes "salt") anna staff staff-IsSound

register_user-Welcomes_example :
    Welcomes plain_bcrypt list_jwt 30 anna ascii_lower true
      (register_user plain_bcrypt list_jwt 30 (codes "salt") anna staff)
register_user-Welcomes_example =
    register_user-Welcomes plain_bcrypt list_jwt 30 ascii_lower true (codes "salt") anna staff
      staff-IsSound plain_bcrypt-IsBcrypt list_jwt-IsJwt refl

get_current_user-IsKnown_example :
    Returns
      (IsKnown list_jwt ascii_lower true staff.rows)
      (get_current_user list_jwt ascii_lower true 0 (some staff) (some (codes "Bearer x")))
get_current_user-IsKnown_example =
    get_current_user-IsKnown list_jwt ascii_lower true 0 staff (some (codes "Bearer x"))

require_admin-IsAdmin_example :
    Returns
      (λ u. IsMember staff.rows u × (u.role ≡ UserRole.admin))
      (require_admin list_jwt ascii_lower true 0 (some staff) (some (codes "Bearer x")))
require_admin-IsAdmin_example =
    require_admin-IsAdmin list_jwt ascii_lower true 0 staff (some (codes "Bearer x"))
