-- ===== src/Auth/Examples/Accounts.antt =====
-- The theorems on links and passwords at the tables of `alice`.
use open_city_planner.Auth.Passwords.Reset.{IsSingleOpen, reset_password_once}
use open_city_planner.Auth.Passwords.Login.{IsKeyOf, authenticate-reset_password}
use open_city_planner.Auth.Store.{Db, User, raise, ok, invalid_reset_token}
use open_city_planner.Auth.Accounts.{
  get_user_by_email, is_valid_password, verify_email, verify_user, has_email,
}
use open_city_planner.Auth.Passwords.{
  authenticate, reset_password, reset_with, open_for, forgot_password, reset_for_user, is_open,
}
use open_city_planner.Auth.Examples.{
  alice, jwt, long_password, passwords, tables, settings, request,
}
use open_city_planner.Auth.Issue.{get_user_by_id}
use open_city_planner.Auth.Sessions.{live_of}
use open_city_planner.Auth.Accounts.Verify.{verify_email_twice}
use open_city_planner.Auth.Passwords.Links.{links-IsSingleOpen}
use open_city_planner.Base.{
  count, find, some, ◌≡◌, ◌∷◌, [], true, Uuid, false, ◌≤◌, refl, arith, text_eq, lower,
}

abbrev verified : Db
verified = (verify_email jwt tables 2000 31).1

verified_first : verify_email jwt tables 2000 31 ≡ (ok (true, 1), verified)
unfolding verify_email verify_user find get_user_by_id
verified_first = refl

verify_email_twice_example : verify_email jwt verified 9000 31 ≡ (ok (false, 1), verified)
verify_email_twice_example = verify_email_twice jwt tables 2000 9000 31 1 verified verified_first

abbrev reset : Db
reset = (reset_password passwords jwt tables 2000 41 long_password).1

abbrev alice_after : User
alice_after = record alice { password_hash = some 12; updated_at = 2000 }

reset_first : reset_password passwords jwt tables 2000 41 long_password ≡ (ok alice_after, reset)
unfolding reset_password reset_with reset_for_user is_valid_password find get_user_by_id
reset_first = refl

long_enough : is_valid_password long_password ≡ true
unfolding is_valid_password
long_enough = refl

reset_password_once_example :
    (reset_password passwords jwt reset 2001 41 long_password ≡ (raise invalid_reset_token, reset))
    × (count (open_for 1) reset.reset_tokens ≡ 0)
    × (count (live_of 1) reset.sessions ≡ 0)
reset_password_once_example =
    reset_password_once passwords jwt tables 2000 2001 41 long_password long_password alice_after
      reset reset_first long_enough

single_open : (id : Uuid) → count (open_for id) tables.reset_tokens ≤ 1
unfolding count open_for is_open
single_open id = ground arith

links-IsSingleOpen_example :
    IsSingleOpen (forgot_password jwt settings tables 2000 (b'A' ∷ []) request 2 42)
links-IsSingleOpen_example =
    (links-IsSingleOpen jwt settings passwords tables 2000 single_open).0 (b'A' ∷ []) request 2 42

by_email : get_user_by_email tables (b'A' ∷ []) ≡ some alice
unfolding get_user_by_email find has_email text_eq lower
by_email = refl

only_alice : IsKeyOf alice tables.users
only_alice = (λ _. refl, tt)

authenticate-reset_password_example :
    (authenticate passwords reset 3000 (b'A' ∷ []) long_password).0
    ≡ ok (record alice_after { last_login_at = some 3000 })
authenticate-reset_password_example =
    authenticate-reset_password passwords jwt tables 2000 3000 41 long_password (b'A' ∷ []) alice
      alice_after reset reset_first by_email only_alice refl refl refl
