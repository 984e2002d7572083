-- ===== src/Auth/Oauth/Cases.antt =====
-- The paths of the three operations on linked accounts, for what is said of the tables of users and
-- linked accounts: on every other path they stay as they are.
use open_city_planner.Auth.Accounts.{enqueue_welcome_email, put_user}
use open_city_planner.Auth.Issue.{ensure_user_can_authenticate, get_user_by_id}
use open_city_planner.Auth.Oauth.{
  welcome_user, OauthAccount, AccountDb, unlink_oauth_account, login_existing, OauthIdentity,
  authenticate_oauth_identity, get_for_user_provider, log_own, link_oauth_account, is_identity,
  normalize_provider, get_by_provider_subject, refresh_account, link_existing, is_of, new_account,
  create_oauth_user, add_account, is_other, has_account, remove_account,
}
use open_city_planner.Auth.Store.{
  Db, User, Result, raise, last_auth_method, oauth_email_conflict, ok, oauth_account_unlinked,
}
use open_city_planner.Auth.Oauth.Sound.{get_by_id}
use open_city_planner.Base.{
  none, List, ◌≡◌, Time, Bool, if_cases, arith, update, not, ◌==◌, some, Text, ◌||◌, is_some, ◌&&◌,
  Option-cases, find, ◌++◌, refl, true, Uuid, ◌∷◌, is_none, inr, [], count, subst, Bool-cases, sym,
  inl, false,
}

pub users-enqueue : (u : User) (db : Db) → (enqueue_welcome_email u db).users ≡ db.users
unfolding enqueue_welcome_email
users-enqueue u db =
    if_cases (λ (x : Db). x.users ≡ db.users) (not u.is_verified || is_some u.welcome_email_sent_at)
      db (record db { welcome_outbox = db.welcome_outbox ++ u.id ∷ [] }) (λ h. refl) (λ h. refl)

pub users-welcome_user :
    (before u : User) (now : Time) (db : Db)
    → (welcome_user before u now db).users
      ≡ update (λ x. x.id == u.id) (λ _. record u { last_login_at = some now }) db.users
unfolding welcome_user put_user
users-welcome_user before u now db =
    let touched : Db = put_user (record u { last_login_at = some now }) db in
    if_cases (λ (x : Db). x.users ≡ touched.users) (not before.is_verified && u.is_verified)
      (enqueue_welcome_email u touched) touched (λ h. users-enqueue u touched) (λ h. refl)

pub users-ensure :
    (db : Db) (u : User) (b : Bool) → (ensure_user_can_authenticate db u b).1.users ≡ db.users
unfolding ensure_user_can_authenticate
users-ensure db u b = ground arith

module _ (P : List User → List OauthAccount → Type 0) (db : AccountDb)
    (before : P db.auth.users db.accounts) where
  abbrev On : AccountDb → Type 0
  On db' = P db'.auth.users db'.accounts

  login_cases :
      (now : Time) (identity : OauthIdentity) (a : OauthAccount) (u : User)
      → On (refresh_account identity now a u db)
      → On (login_existing db now identity a u).1
  unfolding login_existing log_own
  login_cases now identity a u done =
      elim (Option-cases (ensure_user_can_authenticate db.auth u true).0) [
        | inr (e, r) ↦
            rw (r, login_existing)
              (subst (λ us. P us db.accounts) (sym (users-ensure db.auth u true)) before)
        | inl r ↦ rw (r, login_existing) done
      ]

  module _ (now : Time) (identity : OauthIdentity) where
    abbrev provider : Text
    provider = normalize_provider identity.provider

    abbrev is_this : OauthAccount → Bool
    is_this = is_identity provider identity.subject identity.provider_instance

    pub authenticate_cases :
        (placeholder : Text) (user_id account_id : Uuid)
        → ((a : OauthAccount) (u : User)
            → find is_this db.accounts ≡ some a
            → get_by_id db.auth.users a.user_id ≡ some u
            → On (refresh_account identity now a u db))
        → (find is_this db.accounts ≡ none
            → On (create_oauth_user db now identity placeholder user_id account_id).1)
        → On (authenticate_oauth_identity db now identity placeholder user_id account_id).1
    unfolding authenticate_oauth_identity get_by_provider_subject get_user_by_id
    authenticate_cases placeholder user_id account_id known fresh =
        elim (Option-cases (find is_this db.accounts)) [
          | inr (a, h) ↦ elim (Option-cases (get_by_id db.auth.users a.user_id)) [
            | inl k ↦ rw (h, k, authenticate_oauth_identity) before
            | inr (u, k) ↦
                rw (h, k, authenticate_oauth_identity)
                  (login_cases now identity a u (known a u h k))
          ]
          | inl h ↦
              rw (h, authenticate_oauth_identity)
                (if_cases (λ (r : Result Uuid × AccountDb). On r.1)
                  (has_account db.auth identity.email) (raise oauth_email_conflict, db)
                  (create_oauth_user db now identity placeholder user_id account_id) (λ y. before)
                  (λ n. fresh h))
        ]

    pub link_cases :
        (u : User) (account_id : Uuid)
        → ((a : OauthAccount)
            → find is_this db.accounts ≡ some a
            → On (refresh_account identity now a u db))
        → (let row = new_account account_id u identity now in
            find is_this db.accounts ≡ none
            → find (is_of u.id provider) db.accounts ≡ none
            → On (refresh_account identity now row u (add_account row db)))
        → On (link_oauth_account db now u identity account_id).1
    unfolding link_oauth_account get_by_provider_subject get_for_user_provider link_existing log_own
    link_cases u account_id known fresh = elim (Option-cases (find is_this db.accounts)) [
      | inr (a, h) ↦ elim (Bool-cases (a.user_id == u.id)) [
        | inr n ↦ rw (h, n, link_oauth_account) before
        | inl y ↦ elim (Option-cases (find (is_of u.id provider) db.accounts)) [
          | inl own ↦ rw (h, y, own, link_oauth_account) (known a h)
          | inr (b, own) ↦ elim (Bool-cases (b.id == a.id)) [
            | inr n ↦ rw (h, y, own, n, link_oauth_account) before
            | inl i ↦ rw (h, y, own, i, link_oauth_account) (known a h)
          ]
        ]
      ]
      | inl h ↦ elim (Option-cases (find (is_of u.id provider) db.accounts)) [
        | inr (b, own) ↦ rw (h, own, link_oauth_account) before
        | inl own ↦ rw (h, own, link_oauth_account) (fresh h own)
      ]
    ]

  -- the user keeps a password or an account of another service
  pub unlink_cases :
      (u : User) (provider : Text)
      → (let name = normalize_provider provider in
          (a : OauthAccount)
          → find (is_of u.id name) db.accounts ≡ some a
          → (is_none u.password_hash && count (is_other u.id name) db.accounts == 0) ≡ false
          → On (remove_account a db))
      → On (unlink_oauth_account db u provider).1
  unfolding unlink_oauth_account get_for_user_provider log_own
  unlink_cases u provider done =
      let name : Text = normalize_provider provider in
      elim (Option-cases (find (is_of u.id name) db.accounts)) [
        | inl h ↦ rw (h, unlink_oauth_account) before
        | inr (a, h) ↦
            rw (h, unlink_oauth_account)
              (if_cases (λ (r : Result (Unit {0}) × AccountDb). On r.1)
                (is_none u.password_hash && count (is_other u.id name) db.accounts == 0)
                (raise last_auth_method, db)
                (ok tt, log_own u.id oauth_account_unlinked (remove_account a db)) (λ y. before)
                (λ n. done a h n))
      ]
