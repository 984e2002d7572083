-- ===== src/Auth/Passwords/Login.antt =====
-- From the request of a reset link to the log-in with the new password.
use open_city_planner.Base.{
  find, List, update, All, ◌≡◌, Text, Time, some, ◌==◌, Token, arith, ◌∷◌, [], true, sym, Uuid, ap,
  ◌∙◌, refl, All_find,
}
use open_city_planner.Auth.Store.{User, Db, ok}
use open_city_planner.Auth.Accounts.{Passwords, has_email, get_user_by_email, put_user}
use open_city_planner.Auth.Jwt.{Crypto}
use open_city_planner.Auth.Passwords.Reset.{reset_password_steps, for_user_facts}
use open_city_planner.Auth.Issue.{ensure_user_can_authenticate, get_user_by_id}
use open_city_planner.Auth.Passwords.{reset_password, authenticate}

-- The primary key: a row with the user's key is the user's.
abbrev pub IsKeyOf : User → List User → Type 0
IsKeyOf u = All (λ x. x.id ≡ u.id → x ≡ u)

-- A user found by e-mail is found by it after a change that keeps the address.
found_by_email :
    (email : Text) (u v : User) (rows : List User)
    → find (has_email email) rows ≡ some u
    → IsKeyOf u rows
    → v.id ≡ u.id
    → v.email ≡ u.email
    → find (has_email email) (update (λ x. x.id == v.id) (λ _. v) rows) ≡ some v
unfolding find update has_email
found_by_email email u v [] e k i m = absurd (ground arith)
found_by_email email u v (x ∷ rows) e k i m = ground (arith, k.0, found_by_email email u v rows)

same_by_key :
    (db : Db) (id : Uuid) (row old : User)
    → IsKeyOf old db.users
    → get_user_by_id db id ≡ some row
    → row.id ≡ old.id
    → row ≡ old
unfolding get_user_by_id
same_by_key db id row old key e same =
    All_find (λ x. x.id ≡ old.id → x ≡ old) (λ x. x.id == id) db.users row key e same

by_email_after :
    (db db' : Db) (email : Text) (old u : User)
    → db'.users ≡ (put_user u db).users
    → get_user_by_email db email ≡ some old
    → IsKeyOf old db.users
    → u.id ≡ old.id
    → u.email ≡ old.email
    → get_user_by_email db' email ≡ some u
unfolding get_user_by_email put_user
by_email_after db db' email old u users e key same mail =
    ap (find (has_email email)) users ∙ found_by_email email old u db.users e key same mail

module _ (pw : Passwords) (c : Crypto) where
  logs_in :
      (db : Db) (now : Time) (password email : Text) (u : User)
      → get_user_by_email db email ≡ some u
      → u.password_hash ≡ some (pw.hash password)
      → u.is_active ≡ true
      → pw.verify password (pw.hash password) ≡ true
      → (authenticate pw db now email password).0 ≡ ok (record u { last_login_at = some now })
  unfolding authenticate ensure_user_can_authenticate
  logs_in db now password email u e h a v = ground arith

  -- Who has reset the password logs in with the new one, where the account is active and pwdlib
  -- accepts the password that it hashed.
  pub authenticate-reset_password :
      (db : Db) (now later : Time) (token : Token) (password email : Text) (old u : User) (db' : Db)
      → reset_password pw c db now token password ≡ (ok u, db')
      → get_user_by_email db email ≡ some old
      → IsKeyOf old db.users
      → u.id ≡ old.id
      → old.is_active ≡ true
      → pw.verify password (pw.hash password) ≡ true
      → (authenticate pw db' later email password).0 ≡ ok (record u { last_login_at = some later })
  authenticate-reset_password db now later token password email old u db' e by_email key same active
        v =
      let (r, row, found, there, _, _, _, done) =
        reset_password_steps pw c db now token password u db' e in
      let (same_row, _, _, users, made) = for_user_facts pw c db now r row u password db' done in
      let same_user : row ≡ old =
        same_by_key db r.user_id row old key there (sym same_row ∙ same) in
      let owner : u ≡ record old { password_hash = some (pw.hash password); updated_at = now } =
        rw (← same_user) made in
      logs_in db' later password email u
        (by_email_after db db' email old u users by_email key same (rw owner refl)) (rw owner refl)
        (rw owner active) v
