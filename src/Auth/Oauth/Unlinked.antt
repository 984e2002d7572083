-- ===== src/Auth/Oauth/Unlinked.antt =====
-- An unlink keeps the tables sound: its user is not locked out.
use open_city_planner.Base.{
  some, List, Bool, is_some, ◌==◌, find, ◌≡◌, count, ◌≤◌, true, some, ◌⊎◌, arith, IsOnlyOf,
  find-IsOnlyOf, filter, subst, not, All-map, inl, find_holds, Bool-cases, count-filter-le,
  All-both, inr, sym, count-delete, text_eq_refl, count-le-count,
}
use open_city_planner.Auth.Oauth.{OauthAccount, is_identity, is_of, is_other}
use open_city_planner.Auth.Oauth.Sound.{IsSound, get_by_id, HasMethod, is_own}
use open_city_planner.Auth.Store.{User}

module _ (users : List User) (accounts : List OauthAccount) (sound : IsSound users accounts) where
  module _ (p : OauthAccount → Bool) (a : OauthAccount) (u : User) (h : find p accounts ≡ some a)
      (k : get_by_id users a.user_id ≡ some u)
      (other : (is_some u.password_hash ≡ true)
        ⊎ (1 ≤ count (is_other u.id a.provider) accounts)) where
    rest : List OauthAccount
    rest = filter (λ x. not (x.id == a.id)) accounts

    only_account : IsOnlyOf (λ (x : OauthAccount). x.id) a accounts
    only_account =
        find-IsOnlyOf (λ (x : OauthAccount). x.id) p a accounts (sound.account_keys a.id) h

    -- the user keeps a password or an account of another provider
    rest-HasMethod : HasMethod rest u
    unfolding rest is_other
    rest-HasMethod = elim other [
      | inl y ↦ inl y
      | inr n ↦
          let same =
            count-delete (λ (x : OauthAccount). x.id) (is_other u.id a.provider) a accounts
              only_account (ground (arith, text_eq_refl a.provider)) in
          inr (
            omega (
              arith,
              n,
              same,
              count-le-count (is_other u.id a.provider) (is_own u.id) rest (λ x y. ground arith),
            ))
    ]

    keeps_method : (v : User) → (v.id ≡ u.id → v ≡ u) → HasMethod accounts v → HasMethod rest v
    unfolding rest
    keeps_method v only m = elim (Bool-cases (v.id == a.user_id)) [
      | inl y ↦
          let owner : u.id ≡ a.user_id =
            ground (arith, find_holds (λ x. x.id == a.user_id) users u k) in
          let same : v ≡ u = only (ground arith) in subst (HasMethod rest) (sym same) rest-HasMethod
      | inr n ↦ elim m [
        | inl y ↦ inl y
        | inr some_own ↦
            let same =
              count-delete (λ (x : OauthAccount). x.id) (is_own v.id) a accounts only_account
                (ground arith) in
            inr (omega (arith, some_own, same))
      ]
    ]

    -- an account is unlinked
    pub remove-IsSound : IsSound users (filter (λ x. not (x.id == a.id)) accounts)
    unfolding rest
    remove-IsSound =
        let q : OauthAccount → Bool = λ x. not (x.id == a.id) in
        let owner : u.id ≡ a.user_id =
          ground (arith, find_holds (λ x. x.id == a.user_id) users u k) in
        let only : IsOnlyOf (λ (x : User). x.id) u users =
          find-IsOnlyOf (λ (x : User). x.id) (λ x. x.id == a.user_id) u users (sound.user_keys u.id)
            k in
        record {
          user_keys = sound.user_keys;
          emails = sound.emails;
          account_keys = λ id.
              omega (arith, sound.account_keys id, count-filter-le (λ x. x.id == id) q accounts);
          identities = λ s t i.
              omega (arith, sound.identities s t i, count-filter-le (is_identity s t i) q accounts);
          providers =
              λ v t. omega (arith, sound.providers v t, count-filter-le (is_of v t) q accounts);
          methods =
              All-map (λ v. (v.id ≡ u.id → v ≡ u) × HasMethod accounts v) (HasMethod rest) users
                (λ v both. keeps_method v both.0 both.1)
                (All-both (λ v. v.id ≡ u.id → v ≡ u) (HasMethod accounts) users only sound.methods);
        }
