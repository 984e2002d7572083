-- ===== src/Auth/Oauth.antt =====
-- backend/app/services/oauth_account_service.py: the accounts of other services that log a user in.
-- Calls are atomic. Of the indexes only the one on the users' addresses can refuse a row that the checks
-- before it let through, at the flush of a new user; the theorems show that the rows satisfy all of them.
pub mod Sound
pub mod Unlinked
pub mod Cases
pub mod Keeps
use open_city_planner.Auth.Issue.{get_user_by_id, ensure_user_can_authenticate}
use open_city_planner.Base.{
  Option, Text, Time, Uuid, filter, update, ◌++◌, lower, ◌∷◌, not, Bool, get_or, List, find, none,
  some, ◌==◌, strip, [], if◌then◌else◌, true, ◌&&◌, text_eq, false, is_some, is_none, count,
}
use open_city_planner.Auth.Store.{
  Db, User, Action, Result, ok, raise, oauth_account_linked, oauth_login_success,
  oauth_account_not_linked, account_disabled, oauth_account_already_linked, oauth_email_conflict,
  integrity_error, last_auth_method, oauth_account_unlinked,
}
use open_city_planner.Auth.Accounts.{get_user_by_email, put_user, enqueue_welcome_email}

-- The columns that no operation decides on, the user name and the two addresses, are left out.
pub record OauthAccount : Type 0 where
  pub id : Uuid
  pub user_id : Uuid
  pub provider : Text
  pub provider_instance : Option Text
  pub provider_subject : Text
  pub provider_email : Option Text
  pub updated_at : Time
  pub last_login_at : Option Time

-- What a provider says of the person who has logged in there.
pub record OauthIdentity : Type 0 where
  pub provider : Text
  pub subject : Text
  pub provider_instance : Option Text
  pub email : Option Text
  pub email_verified : Bool

-- The references of a polygon to its creator and to its last editor.
pub record Authorship : Type 0 where
  pub created_by_user_id : Option Uuid
  pub updated_by_user_id : Option Uuid

-- The tables of the account services with those that refer to a user: the linked accounts, the
-- users of the started flows, and the references of polygons, city metrics and publishing settings.
pub record AccountDb : Type 0 where
  pub auth : Db
  pub accounts : List OauthAccount
  pub grants : List (Option Uuid)
  pub polygons : List Authorship
  pub metrics : List (Option Uuid)
  pub social_settings : List (Option Uuid)

unfoldable pub normalize_provider : Text → Text
normalize_provider provider = lower (strip provider)

-- `provider_instance == …`, and `IS NULL` where there is none
abbrev pub same_instance : Option Text → Option Text → Bool
same_instance none none = true
same_instance (some a) (some b) = text_eq a b
same_instance _ _ = false

unfoldable pub is_identity : Text → Text → Option Text → OauthAccount → Bool
is_identity provider subject instance_name a =
    text_eq a.provider provider
    && (text_eq a.provider_subject subject && same_instance a.provider_instance instance_name)

unfoldable pub is_of : Uuid → Text → OauthAccount → Bool
is_of user_id provider a = a.user_id == user_id && text_eq a.provider provider

unfoldable pub get_by_provider_subject : AccountDb → Text → Text → Option Text → Option OauthAccount
unfolding is_identity
get_by_provider_subject db provider subject instance_name =
    find (is_identity provider subject instance_name) db.accounts

unfoldable pub get_for_user_provider : AccountDb → Uuid → Text → Option OauthAccount
unfolding is_of
get_for_user_provider db user_id provider = find (is_of user_id provider) db.accounts

unfoldable pub new_account : Uuid → User → OauthIdentity → Time → OauthAccount
new_account id u identity now = record {
  id = id;
  user_id = u.id;
  provider = normalize_provider identity.provider;
  provider_instance = identity.provider_instance;
  provider_subject = identity.subject;
  provider_email = identity.email;
  updated_at = now;
  last_login_at = some now;
}

-- `update_oauth_account`, then `touch_last_login` of the row
unfoldable pub update_account : OauthIdentity → Time → OauthAccount → OauthAccount
update_account identity now a = record a {
  provider_instance = identity.provider_instance;
  provider_email = identity.email;
  updated_at = now;
  last_login_at = some now;
}

-- `casefold` is that of the ASCII characters
unfoldable pub verify_matching_provider_email : OauthIdentity → User → User
verify_matching_provider_email identity u = elim identity.email [
  | none ↦ u
  | some email ↦
      if identity.email_verified && text_eq (lower (strip u.email)) (lower (strip email))
      then record u { is_verified = true }
      else u
]

unfoldable pub put_account : OauthAccount → (OauthAccount → OauthAccount) → AccountDb → AccountDb
put_account a f db = record db { accounts = update (λ x. x.id == a.id) f db.accounts }

unfoldable pub add_account : OauthAccount → AccountDb → AccountDb
add_account a db = record db { accounts = db.accounts ++ a ∷ [] }

unfoldable pub log_own : Uuid → Action → AccountDb → AccountDb
log_own user_id action db = record db {
  auth = record db.auth {
    audit =
        db.auth.audit
        ++ record {
          actor_user_id = some user_id;
          target_user_id = some user_id;
          action = action;
          resource_id = some user_id;
        }
          ∷ [];
  };
}

-- the row of the user after the log-in, and the welcome mail of one who was not verified before
unfoldable pub welcome_user : User → User → Time → Db → Db
unfolding put_user enqueue_welcome_email
welcome_user before u now db =
    let touched = put_user (record u { last_login_at = some now }) db in
    if not before.is_verified && u.is_verified then enqueue_welcome_email u touched else touched

-- what a log-in does to the rows of the account and of its user
unfoldable pub refresh_account : OauthIdentity → Time → OauthAccount → User → AccountDb → AccountDb
unfolding put_account update_account verify_matching_provider_email welcome_user
refresh_account identity now a u db =
    let rows = put_account a (update_account identity now) db in
    record rows { auth = welcome_user u (verify_matching_provider_email identity u) now db.auth }

unfoldable pub login_existing :
    AccountDb → Time → OauthIdentity → OauthAccount → User → Result Uuid × AccountDb
unfolding refresh_account log_own
login_existing db now identity a u =
    let (error, auth') = ensure_user_can_authenticate db.auth u true in
    elim error [
      | some e ↦ (raise e, record db { auth = auth' })
      | none ↦ (ok u.id, log_own u.id oauth_login_success (refresh_account identity now a u db))
    ]

-- The row of a user who logs in for the first time; `placeholder` is the address made of a digest.
unfoldable pub oauth_user : OauthIdentity → Text → Uuid → Time → User
oauth_user identity placeholder id now = record {
  id = id;
  email = get_or identity.email placeholder;
  password_hash = none;
  is_active = true;
  is_verified = is_some identity.email && identity.email_verified;
  is_superuser = false;
  email_pending = is_none identity.email;
  deactivation_reason = none;
  welcome_email_sent_at = none;
  last_login_at = some now;
  updated_at = now;
}

-- `if user.is_verified: enqueue_welcome_email(…)`
unfoldable pub enter_user : User → Db → Db
unfolding enqueue_welcome_email
enter_user u db = enqueue_welcome_email u (record db { users = db.users ++ u ∷ [] })

-- `func.lower(email)`, the column of `uq_users_email_lower`
unfoldable pub has_lower_email : Text → User → Bool
has_lower_email email u = text_eq (lower u.email) email

-- The flush of the new user is outside the `try` statement.
unfoldable pub create_oauth_user :
    AccountDb → Time → OauthIdentity → Text → Uuid → Uuid → Result Uuid × AccountDb
unfolding oauth_user enter_user new_account add_account log_own has_lower_email
create_oauth_user db now identity placeholder user_id account_id =
    let u = oauth_user identity placeholder user_id now in
    if is_some (find (has_lower_email (lower u.email)) db.auth.users)
    then (raise integrity_error, db)
    else (
      ok user_id,
      log_own user_id oauth_login_success (
          add_account (new_account account_id u identity now)
            (record db { auth = enter_user u db.auth })),
    )

-- `identity.email` belongs to an account
unfoldable pub has_account : Db → Option Text → Bool
has_account db none = false
has_account db (some email) = is_some (get_user_by_email db email)

-- The user's id, of an account that exists or of a new one with the given ids.
unfoldable pub authenticate_oauth_identity :
    AccountDb → Time → OauthIdentity → Text → Uuid → Uuid → Result Uuid × AccountDb
unfolding login_existing create_oauth_user has_account get_by_provider_subject
authenticate_oauth_identity db now identity placeholder user_id account_id =
    elim (get_by_provider_subject db (normalize_provider identity.provider) identity.subject
      identity.provider_instance) [
        | some a ↦ elim (get_user_by_id db.auth a.user_id) [
          | none ↦ (raise account_disabled, db)
          | some u ↦ login_existing db now identity a u
        ]
        | none ↦
            if has_account db.auth identity.email
            then (raise oauth_email_conflict, db)
            else create_oauth_user db now identity placeholder user_id account_id
      ]

-- the link of a row that exists
unfoldable pub link_existing :
    AccountDb → Time → User → OauthIdentity → OauthAccount → Result Uuid × AccountDb
unfolding refresh_account log_own
link_existing db now u identity a =
    (ok a.id, log_own u.id oauth_account_linked (refresh_account identity now a u db))

-- The account's id, of the row that exists or of a new one with the given id.
unfoldable pub link_oauth_account :
    AccountDb → Time → User → OauthIdentity → Uuid → Result Uuid × AccountDb
unfolding link_existing get_by_provider_subject get_for_user_provider new_account add_account
link_oauth_account db now u identity account_id =
    let provider = normalize_provider identity.provider in
    let own = get_for_user_provider db u.id provider in
    let fresh = new_account account_id u identity now in
    elim (get_by_provider_subject db provider identity.subject identity.provider_instance) [
      | some a ↦
          if not (a.user_id == u.id) then (raise oauth_account_already_linked, db) else elim own [
            | none ↦ link_existing db now u identity a
            | some b ↦
                if not (b.id == a.id)
                then (raise oauth_account_already_linked, db)
                else link_existing db now u identity a
          ]
      | none ↦ elim own [
        | some b ↦ (raise oauth_account_already_linked, db)
        | none ↦ link_existing (add_account fresh db) now u identity fresh
      ]
    ]

-- `user_id == … AND provider != …`
unfoldable pub is_other : Uuid → Text → OauthAccount → Bool
is_other user_id provider a = a.user_id == user_id && not (text_eq a.provider provider)

unfoldable pub remove_account : OauthAccount → AccountDb → AccountDb
remove_account a db = record db { accounts = filter (λ x. not (x.id == a.id)) db.accounts }

unfoldable pub unlink_oauth_account : AccountDb → User → Text → Result (Unit {0}) × AccountDb
unfolding get_for_user_provider is_other remove_account log_own
unlink_oauth_account db u provider =
    elim (get_for_user_provider db u.id (normalize_provider provider)) [
      | none ↦ (raise oauth_account_not_linked, db)
      | some a ↦
          if is_none u.password_hash
            && count (is_other u.id (normalize_provider provider)) db.accounts == 0
          then (raise last_auth_method, db)
          else (ok tt, log_own u.id oauth_account_unlinked (remove_account a db))
    ]
