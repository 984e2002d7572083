-- ===== src/Auth/Oauth/Keeps.antt =====
-- The three operations on linked accounts keep the tables sound.
use open_city_planner.Auth.Oauth.{
  AccountDb, verify_matching_provider_email, OauthIdentity, refresh_account, OauthAccount,
  normalize_provider, put_account, is_identity, update_account, create_oauth_user, new_account,
  authenticate_oauth_identity, log_own, enter_user, add_account, is_of, oauth_user,
  link_oauth_account, unlink_oauth_account, remove_account, same_instance, is_other,
  has_lower_email,
}
use open_city_planner.Base.{
  Time, ◌≡◌, Text, Bool, update, arith, Option-cases, if_cases, inl, ◌==◌, Uuid, some, inr, find,
  is_some, ◌&&◌, refl, text_eq, ◌++◌, lower, ◌∷◌, [], strip, true, count, find_holds, subst, none,
  List, sym, ap, count-eq-zero_of_find, Option, find-append_none, ◌∙◌, Digest, text_eq_refl,
  text_eq_lem, ◌≤◌, is_none, ℕ, count-append, false, count-le-count, ◌⊎◌, count-alone, find-alone,
}
use open_city_planner.Auth.Store.{User}
use open_city_planner.Auth.Oauth.Cases.{
  authenticate_cases, link_cases, unlink_cases, users-enqueue, users-welcome_user,
}
use open_city_planner.Auth.Oauth.Sound.{
  IsSound, get_by_id, is_identity_lem, is_own, write-IsSound, add-IsSound, user-IsSound,
  new_user-IsSound,
}
use open_city_planner.Auth.Oauth.Unlinked.{remove-IsSound}

abbrev pub IsSoundDb : AccountDb → Type 0
IsSoundDb db = IsSound db.auth.users db.accounts

-- what the check of the e-mail address leaves
pub core-verify :
    (identity : OauthIdentity) (u : User)
    → ((verify_matching_provider_email identity u).id ≡ u.id)
      × ((verify_matching_provider_email identity u).password_hash ≡ u.password_hash)
      × ((verify_matching_provider_email identity u).email ≡ u.email)
unfolding verify_matching_provider_email
core-verify identity u = elim (Option-cases identity.email) [
  | inl h ↦ rw (h, verify_matching_provider_email) (refl, refl, refl)
  | inr (email, h) ↦
      rw (h, verify_matching_provider_email)
        (if_cases
          (λ (x : User). (x.id ≡ u.id) × (x.password_hash ≡ u.password_hash) × (x.email ≡ u.email))
          (identity.email_verified && text_eq (lower (strip u.email)) (lower (strip email)))
          (record u { is_verified = true }) u (λ k. (refl, refl, refl)) (λ k. (refl, refl, refl)))
]

same_instance_refl : (i : Option Text) → same_instance i i ≡ true
same_instance_refl none = refl
same_instance_refl (some a) = text_eq_refl a

module _ (now : Time) (identity : OauthIdentity) where
  abbrev provider : Text
  provider = normalize_provider identity.provider

  abbrev is_this : OauthAccount → Bool
  is_this = is_identity provider identity.subject identity.provider_instance

  refresh-IsSoundDb :
      (db : AccountDb) (a : OauthAccount) (u : User) (id : Uuid)
      → find is_this db.accounts ≡ some a
      → get_by_id db.auth.users id ≡ some u
      → IsSoundDb db
      → IsSoundDb (refresh_account identity now a u db)
  unfolding refresh_account put_account update_account
  refresh-IsSoundDb db a u id h k sound =
      let v : User = verify_matching_provider_email identity u in
      let v' : User = record v { last_login_at = some now } in
      let (same_id, same_hash, same_email) = core-verify identity u in
      let (e1, e2, e3) =
        is_identity_lem provider identity.subject identity.provider_instance a
          (find_holds is_this db.accounts a h) in
      let rows : List OauthAccount =
        update (λ x. x.id == a.id) (update_account identity now) db.accounts in
      let written : IsSound db.auth.users rows =
        write-IsSound db.auth.users db.accounts sound is_this (update_account identity now) a h (
          ap (λ (i : Option Text). (a.id, a.user_id, a.provider, a.provider_subject, i))
            (sym e3)) in
      subst (λ us. IsSound us rows) (sym (users-welcome_user u v now db.auth))
        (user-IsSound db.auth.users rows written id u v' k same_id same_hash same_email)

  new_account-IsSound :
      (db : AccountDb) (u : User) (account_id : Uuid)
      → count (λ x. x.id == account_id) db.accounts ≡ 0
      → find is_this db.accounts ≡ none
      → count (is_of u.id provider) db.accounts ≡ 0
      → IsSoundDb db
      → IsSound db.auth.users (db.accounts ++ new_account account_id u identity now ∷ [])
  unfolding new_account
  new_account-IsSound db u account_id k1 k2 k3 sound =
      add-IsSound db.auth.users db.accounts sound (new_account account_id u identity now) k1
        (count-eq-zero_of_find is_this db.accounts k2) k3

  create-IsSoundDb :
      (db : AccountDb) (placeholder : Text) (user_id account_id : Uuid)
      → count (λ x. x.id == user_id) db.auth.users ≡ 0
      → count (λ x. x.id == account_id) db.accounts ≡ 0
      → count (is_own user_id) db.accounts ≡ 0
      → find is_this db.accounts ≡ none
      → IsSoundDb db
      → IsSoundDb (create_oauth_user db now identity placeholder user_id account_id).1
  unfolding create_oauth_user enter_user add_account log_own oauth_user new_account is_of
  create-IsSoundDb db placeholder user_id account_id k1 k2 k3 k4 sound =
      let u : User = oauth_user identity placeholder user_id now in
      let rows : List OauthAccount = db.accounts ++ new_account account_id u identity now ∷ [] in
      let own : 1 ≤ count (is_own user_id) rows = omega (
        arith,
        count-append (is_own user_id) db.accounts (new_account account_id u identity now ∷ []),
        count-alone (is_own user_id) (new_account account_id u identity now) (ground arith),
      ) in
      let unlinked : count (is_of user_id provider) db.accounts ≡ 0 = ground (
        arith,
        count-le-count (is_of user_id provider) (is_own user_id) db.accounts (λ x y. ground arith),
      ) in
      elim (Option-cases (find (has_lower_email (lower u.email)) db.auth.users)) [
        | inr (taken, h) ↦ rw (h, create_oauth_user) sound
        | inl free ↦
            rw (free, create_oauth_user)
              (subst (λ us. IsSound us rows)
                (sym (users-enqueue u (record db.auth { users = db.auth.users ++ u ∷ [] })))
                (new_user-IsSound db.auth.users rows
                  (new_account-IsSound db u account_id k2 k4 unlinked sound) u k1 own free))
      ]

  pub authenticate-IsSoundDb :
      (db : AccountDb) (placeholder : Text) (user_id account_id : Uuid)
      → count (λ x. x.id == user_id) db.auth.users ≡ 0
      → count (λ x. x.id == account_id) db.accounts ≡ 0
      → count (is_own user_id) db.accounts ≡ 0
      → IsSoundDb db
      → IsSoundDb (authenticate_oauth_identity db now identity placeholder user_id account_id).1
  authenticate-IsSoundDb db placeholder user_id account_id k1 k2 k3 sound =
      authenticate_cases IsSound db sound now identity placeholder user_id account_id
        (λ a u h k. refresh-IsSoundDb db a u a.user_id h k sound)
        (λ h. create-IsSoundDb db placeholder user_id account_id k1 k2 k3 h sound)

  pub link-IsSoundDb :
      (db : AccountDb) (u : User) (id account_id : Uuid)
      → count (λ x. x.id == account_id) db.accounts ≡ 0
      → get_by_id db.auth.users id ≡ some u
      → IsSoundDb db
      → IsSoundDb (link_oauth_account db now u identity account_id).1
  unfolding is_identity add_account new_account
  link-IsSoundDb db u id account_id k1 k sound =
      let fresh : OauthAccount = new_account account_id u identity now in
      let hit : is_this fresh ≡ true = ground (
        arith,
        text_eq_refl provider,
        text_eq_refl identity.subject,
        same_instance_refl identity.provider_instance,
      ) in
      link_cases IsSound db sound now identity u account_id
        (λ a h. refresh-IsSoundDb db a u id h k sound)
        (λ h own.
          refresh-IsSoundDb (add_account fresh db) fresh u id
            (find-append_none is_this db.accounts (fresh ∷ []) h ∙ find-alone is_this fresh hit) k
            (new_account-IsSound db u account_id k1 h
              (count-eq-zero_of_find (is_of u.id provider) db.accounts own) sound))

has_other :
    (hash : Option Digest) (n : ℕ)
    → (is_none hash && n == 0) ≡ false
    → (is_some hash ≡ true) ⊎ (1 ≤ n)
has_other none n h = inr (ground arith)
has_other (some d) n h = inl refl

pub unlink-IsSoundDb :
    (db : AccountDb) (u : User) (id : Uuid) (provider : Text)
    → get_by_id db.auth.users id ≡ some u
    → IsSoundDb db
    → IsSoundDb (unlink_oauth_account db u provider).1
unfolding is_of remove_account
unlink-IsSoundDb db u id provider k sound =
    let name : Text = normalize_provider provider in
    unlink_cases IsSound db sound u provider (λ a h n.
      let held = find_holds (is_of u.id name) db.accounts a h in
      let same : a.provider ≡ name = text_eq_lem a.provider name (ground arith) in
      let owner : id ≡ a.user_id = ground (arith, find_holds (λ x. x.id == id) db.auth.users u k) in
      remove-IsSound db.auth.users db.accounts sound (is_of u.id name) a u h
        (subst (λ i. get_by_id db.auth.users i ≡ some u) owner k)
        (subst (λ p. (is_some u.password_hash ≡ true) ⊎ (1 ≤ count (is_other u.id p) db.accounts))
          (sym same) (has_other u.password_hash (count (is_other u.id name) db.accounts) n)))
