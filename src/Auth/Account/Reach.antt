-- ===== src/Auth/Account/Reach.antt =====
-- What holds of the tables over every sequence of log-ins with other services, links, unlinks,
-- deactivations and deletions.
use open_city_planner.Auth.Oauth.{
  AccountDb, OauthIdentity, log_own, authenticate_oauth_identity, link_oauth_account,
  unlink_oauth_account,
}
use open_city_planner.Auth.Store.{User}
use open_city_planner.Auth.Account.{
  deactivate_own_account, delete_own_account, deactivate_user, erase, erase_auth, deactivated,
}
use open_city_planner.Auth.Oauth.Keeps.{
  IsSoundDb, authenticate-IsSoundDb, link-IsSoundDb, unlink-IsSoundDb,
}
use open_city_planner.Base.{Time, ◌≡◌, Uuid, Text, count, Option, ◌==◌, ℕ, some, refl}
use open_city_planner.Auth.Accounts.{put_user, Passwords}
use open_city_planner.Auth.Account.Cases.{deactivate_cases, delete_cases, lock_lem}
use open_city_planner.Auth.Oauth.Sound.{get_by_id, is_own, user-IsSound, erase-IsSound, IsSound}

-- One call; the ids of new rows are new, and a user who links or unlinks is one of the table.
pub data Step (db : AccountDb) : AccountDb → Type 0 where
  log_in :
      (now : Time) (identity : OauthIdentity) (placeholder : Text) (user_id account_id : Uuid)
      → count (λ x. x.id == user_id) db.auth.users ≡ 0
      → count (λ x. x.id == account_id) db.accounts ≡ 0
      → count (is_own user_id) db.accounts ≡ 0
      → Step db (authenticate_oauth_identity db now identity placeholder user_id account_id).1
  link :
      (now : Time) (identity : OauthIdentity) (u : User) (id account_id : Uuid)
      → count (λ x. x.id == account_id) db.accounts ≡ 0
      → get_by_id db.auth.users id ≡ some u
      → Step db (link_oauth_account db now u identity account_id).1
  unlink :
      (u : User) (id : Uuid) (provider : Text)
      → get_by_id db.auth.users id ≡ some u
      → Step db (unlink_oauth_account db u provider).1
  deactivate : (now : Time) (id : Uuid) → Step db (deactivate_own_account db now id).1
  delete :
      (pw : Passwords) (now : Time) (id : Uuid) (confirmation : Text) (password : Option Text)
      (authenticated_at : Option Time) (recent : ℕ)
      → Step db (delete_own_account pw db now id confirmation password authenticated_at recent).1

pub data Reach (db : AccountDb) : AccountDb → Type 0 where
  init : Reach db db
  next : {db' db'' : AccountDb} → Reach db db' → Step db' db'' → Reach db db''

deactivate-IsSoundDb :
    (db : AccountDb) (now : Time) (id : Uuid)
    → IsSoundDb db
    → IsSoundDb (deactivate_own_account db now id).1
unfolding deactivate_user put_user deactivated log_own
deactivate-IsSoundDb db now id sound = deactivate_cases IsSound db sound now id (λ u h.
    user-IsSound db.auth.users db.accounts sound id u (deactivated u) (lock_lem db.auth id u h).0
      refl refl refl)

delete-IsSoundDb :
    (pw : Passwords) (db : AccountDb) (now : Time) (id : Uuid) (confirmation : Text)
    (password : Option Text) (at : Option Time) (recent : ℕ)
    → IsSoundDb db
    → IsSoundDb (delete_own_account pw db now id confirmation password at recent).1
unfolding erase erase_auth
delete-IsSoundDb pw db now id confirmation password at recent sound =
    delete_cases IsSound db sound pw now id confirmation password at recent
      (λ u h. erase-IsSound db.auth.users db.accounts sound u.id)

pub Step-IsSoundDb : {db db' : AccountDb} → Step db db' → IsSoundDb db → IsSoundDb db'
Step-IsSoundDb {db} (log_in now identity placeholder user_id account_id a b c) sound =
    authenticate-IsSoundDb now identity db placeholder user_id account_id a b c sound
Step-IsSoundDb {db} (link now identity u id account_id a b) sound =
    link-IsSoundDb now identity db u id account_id a b sound
Step-IsSoundDb {db} (unlink u id provider a) sound = unlink-IsSoundDb db u id provider a sound
Step-IsSoundDb {db} (deactivate now id) sound = deactivate-IsSoundDb db now id sound
Step-IsSoundDb {db} (delete pw now id confirmation password at recent) sound =
    delete-IsSoundDb pw db now id confirmation password at recent sound

-- Over any sequence of the five operations: a user and a linked account have a key of their own, no
-- two users have the same address but for the case of its letters, no identity of another service is linked twice, no user has two accounts of one service, and
-- no user is left without a password and without a linked account, if all this held before.
pub Reach-IsSoundDb : {db db' : AccountDb} → Reach db db' → IsSoundDb db → IsSoundDb db'
Reach-IsSoundDb init sound = sound
Reach-IsSoundDb (next r s) sound = Step-IsSoundDb s (Reach-IsSoundDb r sound)
