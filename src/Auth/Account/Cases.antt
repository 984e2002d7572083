-- ===== src/Auth/Account/Cases.antt =====
-- The paths of the deactivation and the deletion, for what is said of the tables of users and linked
-- accounts: on every other path they stay as they are.
use open_city_planner.Auth.Store.{
  Db, Result, Error, User, raise, ok, auth_required, last_superuser_required,
}
use open_city_planner.Auth.Account.{
  lock_user_and_protect_last_superuser, delete_own_account, deactivate_own_account,
  is_active_superuser, deactivate_user, erase, is_confirmed, refuse_deletion,
}
use open_city_planner.Auth.Issue.{get_user_by_id}
use open_city_planner.Auth.Oauth.Sound.{get_by_id}
use open_city_planner.Auth.Oauth.{OauthAccount, AccountDb}
use open_city_planner.Auth.Accounts.{Passwords}
use open_city_planner.Base.{
  none, if◌then◌else◌, Bool, List, ◌≡◌, ℕ, Uuid, ◌&&◌, leb, false, some, ◌⊎◌, ◌≤◌, count, inl, refl,
  arith, inr, Time, true, Option-cases, Text, if_cases, Option, sym, ◌∙◌, Bool-cases, ap, subst,
}

pub Result-cases {ℓ} :
    {A : Type ℓ} (r : Result A) → ((a : A) × (r ≡ ok a)) ⊎ ((e : Error) × (r ≡ raise e))
Result-cases (ok a) = inl (a, refl)
Result-cases (raise e) = inr (e, refl)

ok_of_if :
    (b : Bool) (e : Error) (v u : User)
    → (if b then raise e else ok v) ≡ ok u
    → (b ≡ false) × (v ≡ u)
ok_of_if true e v u h = absurd (ground arith)
ok_of_if false e v u h = (refl, ground arith)

lock_none :
    (db : Db) (id : Uuid)
    → get_by_id db.users id ≡ none
    → lock_user_and_protect_last_superuser db id ≡ raise auth_required
unfolding lock_user_and_protect_last_superuser get_user_by_id
lock_none db id h = rw (h, lock_user_and_protect_last_superuser) refl

lock_some :
    (db : Db) (id : Uuid) (v : User)
    → get_by_id db.users id ≡ some v
    → lock_user_and_protect_last_superuser db id ≡ (
        if v.is_superuser && leb (count is_active_superuser db.users) 1
        then raise last_superuser_required
        else ok v)
unfolding lock_user_and_protect_last_superuser get_user_by_id
lock_some db id v h = rw (h, lock_user_and_protect_last_superuser) refl

many_of_test : (b : Bool) (n : ℕ) → (b && leb n 1) ≡ false → (b ≡ false) ⊎ (2 ≤ n)
many_of_test true n h = inr (ground arith)
many_of_test false n h = inl refl

pub lock_lem :
    (db : Db) (id : Uuid) (u : User)
    → lock_user_and_protect_last_superuser db id ≡ ok u
    → (get_by_id db.users id ≡ some u)
      × ((u.is_superuser ≡ false) ⊎ (2 ≤ count is_active_superuser db.users))
lock_lem db id u h = elim (Option-cases (get_by_id db.users id)) [
  | inl missing ↦ absurd (ground (arith, lock_none db id missing))
  | inr (v, found) ↦
      let n : ℕ = count is_active_superuser db.users in
      let (free, same) =
        ok_of_if (v.is_superuser && leb n 1) last_superuser_required v u
          (sym (lock_some db id v found) ∙ h) in
      (
        found ∙ ap some same,
        subst (λ x. (x.is_superuser ≡ false) ⊎ (2 ≤ n)) same (many_of_test v.is_superuser n free),
      )
]

module _ (P : List User → List OauthAccount → Type 0) (db : AccountDb)
    (before : P db.auth.users db.accounts) where
  abbrev On : AccountDb → Type 0
  On db' = P db'.auth.users db'.accounts

  abbrev IsLocked : Uuid → User → Type 0
  IsLocked id u = lock_user_and_protect_last_superuser db.auth id ≡ ok u

  pub deactivate_cases :
      (now : Time) (id : Uuid)
      → ((u : User) → IsLocked id u → On (deactivate_user db now u))
      → On (deactivate_own_account db now id).1
  unfolding deactivate_own_account
  deactivate_cases now id done =
      elim (Result-cases (lock_user_and_protect_last_superuser db.auth id)) [
        | inr (e, h) ↦ rw (h, deactivate_own_account) before
        | inl (u, h) ↦
            rw (h, deactivate_own_account)
              (if_cases (λ (r : Result (Unit {0}) × AccountDb). On r.1) u.is_active
                (ok tt, deactivate_user db now u) (ok tt, db) (λ y. done u h) (λ n. before))
      ]

  pub delete_cases :
      (pw : Passwords) (now : Time) (id : Uuid) (confirmation : Text) (password : Option Text)
      (at : Option Time) (recent : ℕ)
      → ((u : User) → IsLocked id u → On (erase u.id db))
      → On (delete_own_account pw db now id confirmation password at recent).1
  unfolding delete_own_account
  delete_cases pw now id confirmation password at recent done =
      elim (Bool-cases (is_confirmed confirmation)) [
        | inr n ↦ rw (n, delete_own_account) before
        | inl y ↦ elim (Result-cases (lock_user_and_protect_last_superuser db.auth id)) [
          | inr (e, h) ↦ rw (y, h, delete_own_account) before
          | inl (u, h) ↦ elim (Option-cases (refuse_deletion pw now u password at recent)) [
            | inr (e, r) ↦ rw (y, h, r, delete_own_account) before
            | inl r ↦ rw (y, h, r, delete_own_account) (done u h)
          ]
        ]
      ]
