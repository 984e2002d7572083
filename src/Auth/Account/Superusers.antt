-- ===== src/Auth/Account/Superusers.antt =====
-- The active superusers over the same sequences.
use open_city_planner.Auth.Oauth.{
  AccountDb, verify_matching_provider_email, OauthIdentity, remove_account, log_own,
  refresh_account, create_oauth_user, enter_user, OauthAccount, add_account, oauth_user,
  new_account, welcome_user, has_lower_email,
}
use open_city_planner.Auth.Account.{
  deactivate_user, erase, erase_auth, is_active_superuser, deactivated,
}
use open_city_planner.Auth.Store.{User, Db}
use open_city_planner.Auth.Account.Reach.{
  Reach, Step, log_in, next, link, Reach-IsSoundDb, init, unlink, deactivate, delete,
}
use open_city_planner.Auth.Oauth.Keeps.{IsSoundDb, core-verify}
use open_city_planner.Auth.Accounts.{put_user}
use open_city_planner.Auth.Oauth.Sound.{get_by_id}
use open_city_planner.Auth.Oauth.Cases.{
  authenticate_cases, link_cases, unlink_cases, users-enqueue, users-welcome_user,
}
use open_city_planner.Auth.Account.Cases.{deactivate_cases, delete_cases, lock_lem}
use open_city_planner.Base.{
  List, Time, ◌≤◌, Uuid, count, Text, ◌≡◌, ◌==◌, Option-cases, inl, some, inr, false, IsOnlyOf,
  update, ◌⊎◌, find-IsOnlyOf, if_cases, subst, true, arith, sym, ◌&&◌, filter, count-update-drop,
  count-write, text_eq, not, lower, ◌++◌, refl, count-delete, ◌∷◌, strip, count-delete-drop, [],
  count-append, find,
}

-- There is an active superuser.
abbrev HasSuperuser : AccountDb → Type 0
HasSuperuser db = 1 ≤ count is_active_superuser db.auth.users

module _ (users : List User) (id : Uuid) (u : User)
    (keys : (i : Uuid) → count (λ x. x.id == i) users ≤ 1)
    (found : get_by_id users id ≡ some u) where
  only_user : IsOnlyOf (λ (x : User). x.id) u users
  only_user = find-IsOnlyOf (λ (x : User). x.id) (λ x. x.id == id) u users (keys u.id) found

  count-written :
      (u' : User)
      → u'.id ≡ u.id
      → is_active_superuser u' ≡ is_active_superuser u
      → count is_active_superuser (update (λ x. x.id == u'.id) (λ _. u') users)
        ≡ count is_active_superuser users
  count-written u' same h =
      subst
        (λ i.
          count is_active_superuser (update (λ x. x.id == i) (λ _. u') users)
          ≡ count is_active_superuser users)
        (sym same)
        (count-write (λ (x : User). x.id) is_active_superuser u (λ _. u') users only_user h)

  -- a protected user is deactivated or deleted
  module _ (free : (u.is_superuser ≡ false) ⊎ (2 ≤ count is_active_superuser users))
      (has : 1 ≤ count is_active_superuser users) where
    superuser_after_update :
        (u' : User)
        → u'.id ≡ u.id
        → is_active_superuser u' ≡ false
        → 1 ≤ count is_active_superuser (update (λ x. x.id == u'.id) (λ _. u') users)
    superuser_after_update u' same h = elim free [
      | inl plain ↦ rw (count-written u' same (ground arith)) has
      | inr many ↦ omega (
        arith,
        many,
        keys u'.id,
        count-update-drop (λ (x : User). x.id) is_active_superuser u'.id (λ _. u') users,
      )
    ]

    superuser_after_delete : 1 ≤ count is_active_superuser (filter (λ x. not (x.id == u.id)) users)
    superuser_after_delete = elim free [
      | inl plain ↦
          rw
            (count-delete (λ (x : User). x.id) is_active_superuser u users only_user (ground arith))
            has
      | inr many ↦ omega (
        arith,
        many,
        keys u.id,
        count-delete-drop (λ (x : User). x.id) is_active_superuser u.id users,
      )
    ]

verify-superuser :
    (identity : OauthIdentity) (u : User)
    → is_active_superuser (verify_matching_provider_email identity u) ≡ is_active_superuser u
unfolding verify_matching_provider_email
verify-superuser identity u = elim (Option-cases identity.email) [
  | inl h ↦ rw (h, verify_matching_provider_email) refl
  | inr (email, h) ↦
      rw (h, verify_matching_provider_email)
        (if_cases (λ (x : User). is_active_superuser x ≡ is_active_superuser u)
          (identity.email_verified && text_eq (lower (strip u.email)) (lower (strip email)))
          (record u { is_verified = true }) u (λ k. refl) (λ k. refl))
]

module _ (now : Time) (identity : OauthIdentity) (db : AccountDb) (sound : IsSoundDb db)
    (has : HasSuperuser db) where
  refresh-HasSuperuser :
      (rows : AccountDb) (a : OauthAccount) (u : User) (id : Uuid)
      → rows.auth ≡ db.auth
      → get_by_id db.auth.users id ≡ some u
      → HasSuperuser (refresh_account identity now a u rows)
  unfolding refresh_account
  refresh-HasSuperuser rows a u id same h =
      let v : User = verify_matching_provider_email identity u in
      let v' : User = record v { last_login_at = some now } in
      let written =
        count-written db.auth.users id u sound.user_keys h v' (core-verify identity u).0
          (verify-superuser identity u) in
      subst (λ (x : Db). 1 ≤ count is_active_superuser (welcome_user u v now x).users) (sym same)
        (subst (λ us. 1 ≤ count is_active_superuser us) (sym (users-welcome_user u v now db.auth))
          (rw written has))

  create-HasSuperuser :
      (placeholder : Text) (user_id account_id : Uuid)
      → HasSuperuser (create_oauth_user db now identity placeholder user_id account_id).1
  unfolding create_oauth_user enter_user add_account log_own
  create-HasSuperuser placeholder user_id account_id =
      let u : User = oauth_user identity placeholder user_id now in
      elim (Option-cases (find (has_lower_email (lower u.email)) db.auth.users)) [
        | inr (taken, h) ↦ rw (h, create_oauth_user) has
        | inl free ↦
            rw (free, create_oauth_user)
              (subst (λ us. 1 ≤ count is_active_superuser us)
                (sym (users-enqueue u (record db.auth { users = db.auth.users ++ u ∷ [] })))
                (omega (arith, has, count-append is_active_superuser db.auth.users (u ∷ []))))
      ]

-- the active superusers, whatever the linked accounts
abbrev Superusers : List User → List OauthAccount → Type 0
Superusers users accounts = 1 ≤ count is_active_superuser users

Step-HasSuperuser :
    {db db' : AccountDb} → Step db db' → IsSoundDb db → HasSuperuser db → HasSuperuser db'
unfolding deactivate_user put_user deactivated log_own erase erase_auth remove_account add_account
Step-HasSuperuser {db} (log_in now identity placeholder user_id account_id x y z) sound has =
    authenticate_cases Superusers db has now identity placeholder user_id account_id
      (λ a u h k. refresh-HasSuperuser now identity db sound has db a u a.user_id refl k)
      (λ h. create-HasSuperuser now identity db sound has placeholder user_id account_id)
Step-HasSuperuser {db} (link now identity u id account_id x y) sound has =
    let fresh : OauthAccount = new_account account_id u identity now in
    link_cases Superusers db has now identity u account_id
      (λ a h. refresh-HasSuperuser now identity db sound has db a u id refl y)
      (λ h own.
        refresh-HasSuperuser now identity db sound has (add_account fresh db) fresh u id refl y)
Step-HasSuperuser {db} (unlink u id provider x) sound has =
    unlink_cases Superusers db has u provider (λ a h n. has)
Step-HasSuperuser {db} (deactivate now id) sound has =
    deactivate_cases Superusers db has now id (λ u h.
      let (found, free) = lock_lem db.auth id u h in
      superuser_after_update db.auth.users id u sound.user_keys found free has (deactivated u) refl
        (ground arith))
Step-HasSuperuser {db} (delete pw now id confirmation password at recent) sound has =
    delete_cases Superusers db has pw now id confirmation password at recent (λ u h.
      let (found, free) = lock_lem db.auth id u h in
      superuser_after_delete db.auth.users id u sound.user_keys found free has)

-- Over any sequence of the five operations an active superuser remains, if there was one and the
-- tables were sound.
pub Reach-HasSuperuser :
    {db db' : AccountDb}
    → Reach db db'
    → IsSoundDb db
    → 1 ≤ count is_active_superuser db.auth.users
    → 1 ≤ count is_active_superuser db'.auth.users
Reach-HasSuperuser init sound has = has
Reach-HasSuperuser (next r s) sound has =
    Step-HasSuperuser s (Reach-IsSoundDb r sound) (Reach-HasSuperuser r sound has)
