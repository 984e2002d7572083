-- ===== src/Auth/Oauth/Sound.antt =====
-- What holds of the tables of users and linked accounts, and how each change of them keeps it.
use open_city_planner.Base.{
  none, some, List, Option, Uuid, Text, Bool, is_some, ◌==◌, find, ◌≡◌, count, ◌++◌, ◌≤◌, true,
  some, update, text_eq_lem, ◌∷◌, ◌⊎◌, All, [], arith, IsOnlyOf, find-IsOnlyOf, one_more, filter,
  subst, count-write, not, ap, All-map, count-append, text_eq, ◌&&◌, count-update, inl, All-append,
  count-filter-le, refl, inr, All_find, All-filter, count-filter, All-update, lower,
  count-eq-zero_of_find, sym,
}
use open_city_planner.Auth.Oauth.{OauthAccount, is_identity, same_instance, is_of, has_lower_email}
use open_city_planner.Auth.Store.{User}

abbrev pub is_own : Uuid → OauthAccount → Bool
is_own user_id a = a.user_id == user_id

-- A user can log in: with a password or with a linked account.
abbrev pub HasMethod : List OauthAccount → User → Type 0
HasMethod accounts u = (is_some u.password_hash ≡ true) ⊎ (1 ≤ count (is_own u.id) accounts)

-- The primary keys and the four unique indexes, and that no user is locked out.
pub record IsSound (users : List User) (accounts : List OauthAccount) : Type 0 where
  pub user_keys : (id : Uuid) → count (λ u. u.id == id) users ≤ 1
  pub emails : (email : Text) → count (has_lower_email email) users ≤ 1
  pub account_keys : (id : Uuid) → count (λ a. a.id == id) accounts ≤ 1
  pub identities :
      (provider subject : Text) (instance_name : Option Text)
      → count (is_identity provider subject instance_name) accounts ≤ 1
  pub providers : (user_id : Uuid) (provider : Text) → count (is_of user_id provider) accounts ≤ 1
  pub methods : All (HasMethod accounts) users

same_instance_lem : (a b : Option Text) → same_instance a b ≡ true → a ≡ b
same_instance_lem none none h = refl
same_instance_lem none (some b) h = absurd (ground arith)
same_instance_lem (some a) none h = absurd (ground arith)
same_instance_lem (some a) (some b) h = ap some (text_eq_lem a b h)

-- the identity of a row that was found by it
pub is_identity_lem :
    (provider subject : Text) (instance_name : Option Text) (a : OauthAccount)
    → is_identity provider subject instance_name a ≡ true
    → (a.provider ≡ provider)
      × (a.provider_subject ≡ subject)
      × (a.provider_instance ≡ instance_name)
unfolding is_identity
is_identity_lem provider subject instance_name a h = (
  text_eq_lem a.provider provider (ground arith),
  text_eq_lem a.provider_subject subject (ground arith),
  same_instance_lem a.provider_instance instance_name (ground arith),
)

-- the columns of the keys and indexes
abbrev pub indexed : OauthAccount → Uuid × Uuid × Text × Text × Option Text
indexed a = (a.id, a.user_id, a.provider, a.provider_subject, a.provider_instance)

abbrev pub get_by_id : List User → Uuid → Option User
get_by_id users id = find (λ u. u.id == id) users

module _ (users : List User) (accounts : List OauthAccount) (sound : IsSound users accounts) where
  -- a row of an account is written back with the columns of the indexes as before
  pub write-IsSound :
      (p : OauthAccount → Bool) (f : OauthAccount → OauthAccount) (a : OauthAccount)
      → find p accounts ≡ some a
      → indexed (f a) ≡ indexed a
      → IsSound users (update (λ x. x.id == a.id) f accounts)
  unfolding is_identity is_of
  write-IsSound p f a h e =
      let only : IsOnlyOf (λ (x : OauthAccount). x.id) a accounts =
        find-IsOnlyOf (λ (x : OauthAccount). x.id) p a accounts (sound.account_keys a.id) h in
      let counted : (q : OauthAccount → Bool)
          → q (f a) ≡ q a
          → count q (update (λ x. x.id == a.id) f accounts) ≡ count q accounts =
        λ q k. count-write (λ (x : OauthAccount). x.id) q a f accounts only k in
      record {
        user_keys = sound.user_keys;
        emails = sound.emails;
        account_keys =
            λ id. rw (counted (λ x. x.id == id) (ap (λ c. c.0 == id) e)) (sound.account_keys id);
        identities = λ p s i.
            rw
              (counted (is_identity p s i)
                (ap (λ c. text_eq c.2 p && (text_eq c.3 s && same_instance c.4 i)) e))
              (sound.identities p s i);
        providers = λ u p.
            rw (counted (is_of u p) (ap (λ c. c.1 == u && text_eq c.2 p) e)) (sound.providers u p);
        methods =
            All-map (HasMethod accounts) (HasMethod (update (λ x. x.id == a.id) f accounts)) users
              (λ u k. rw (counted (is_own u.id) (ap (λ c. c.1 == u.id) e)) k) sound.methods;
      }

  -- an account is linked
  pub add-IsSound :
      (a : OauthAccount)
      → count (λ x. x.id == a.id) accounts ≡ 0
      → count (is_identity a.provider a.provider_subject a.provider_instance) accounts ≡ 0
      → count (is_of a.user_id a.provider) accounts ≡ 0
      → IsSound users (accounts ++ a ∷ [])
  unfolding is_of
  add-IsSound a k1 k2 k3 = record {
    user_keys = sound.user_keys;
    emails = sound.emails;
    account_keys = λ id.
        one_more (λ x. x.id == id) a accounts (sound.account_keys id)
          (λ h. subst (λ i. count (λ x. x.id == i) accounts ≡ 0) (ground arith) k1);
    identities = λ p s i.
        one_more (is_identity p s i) a accounts (sound.identities p s i)
          (λ h. let (e1, e2, e3) = is_identity_lem p s i a h in rw⁻¹ (e1, e2, e3) k2);
    providers = λ u p. one_more (is_of u p) a accounts (sound.providers u p) (λ h.
        let e1 : a.user_id ≡ u = ground arith in
        let e2 : a.provider ≡ p = text_eq_lem a.provider p (ground arith) in rw⁻¹ (e1, e2) k3);
    methods =
        All-map (HasMethod accounts) (HasMethod (accounts ++ a ∷ [])) users
          (λ u k. ground (arith, count-append (is_own u.id) accounts (a ∷ []))) sound.methods;
  }

  -- a user's row is written back with the same password
  pub user-IsSound :
      (id : Uuid) (u u' : User)
      → get_by_id users id ≡ some u
      → u'.id ≡ u.id
      → u'.password_hash ≡ u.password_hash
      → u'.email ≡ u.email
      → IsSound (update (λ x. x.id == u'.id) (λ _. u') users) accounts
  unfolding has_lower_email
  user-IsSound id u u' h e1 e2 e3 = record {
    emails = λ email.
        subst (λ i. count (has_lower_email email) (update (λ x. x.id == i) (λ _. u') users) ≤ 1)
          (sym e1)
          (subst (λ n. n ≤ 1)
            (sym (
              count-write (λ (x : User). x.id) (has_lower_email email) u (λ _. u') users
                (find-IsOnlyOf (λ (x : User). x.id) (λ x. x.id == id) u users (sound.user_keys u.id)
                  h)
                (ap (λ t. text_eq (lower t) email) e3)))
            (sound.emails email));
    user_keys = λ i.
        rw
          (count-update (λ (x : User). x.id == i) (λ x. x.id == u'.id) (λ _. u') users
            (λ x y. ground arith))
          (sound.user_keys i);
    account_keys = sound.account_keys;
    identities = sound.identities;
    providers = sound.providers;
    methods =
        let own : HasMethod accounts u' =
          rw (e1, e2) (All_find (HasMethod accounts) (λ x. x.id == id) users u sound.methods h) in
        All-update (HasMethod accounts) (λ x. x.id == u'.id) (λ _. u') users (λ x y m. own)
          sound.methods;
  }

  -- a new user, with an account
  pub new_user-IsSound :
      (u : User)
      → count (λ x. x.id == u.id) users ≡ 0
      → 1 ≤ count (is_own u.id) accounts
      → find (has_lower_email (lower u.email)) users ≡ none
      → IsSound (users ++ u ∷ []) accounts
  unfolding has_lower_email
  new_user-IsSound u new own free = record {
    emails = λ email. one_more (has_lower_email email) u users (sound.emails email) (λ y.
        let same : lower u.email ≡ email = text_eq_lem (lower u.email) email (ground arith) in
        subst (λ e. count (has_lower_email e) users ≡ 0) same
          (count-eq-zero_of_find (has_lower_email (lower u.email)) users free));
    user_keys = λ i.
        one_more (λ x. x.id == i) u users (sound.user_keys i)
          (λ y. subst (λ j. count (λ x. x.id == j) users ≡ 0) (ground arith) new);
    account_keys = sound.account_keys;
    identities = sound.identities;
    providers = sound.providers;
    methods = All-append (HasMethod accounts) users (u ∷ []) sound.methods (inr own, tt);
  }

  -- a user is deleted, with the linked accounts
  pub erase-IsSound :
      (id : Uuid)
      → IsSound
          (filter (λ x. not (x.id == id)) users)
          (filter (λ a. not (a.user_id == id)) accounts)
  erase-IsSound id =
      let q : OauthAccount → Bool = λ a. not (a.user_id == id) in
      record {
        user_keys = λ i. omega (
          arith,
          sound.user_keys i,
          count-filter-le (λ (x : User). x.id == i) (λ x. not (x.id == id)) users,
        );
        emails = λ email. omega (
          arith,
          sound.emails email,
          count-filter-le (has_lower_email email) (λ x. not (x.id == id)) users,
        );
        account_keys =
            λ i. omega (arith, sound.account_keys i, count-filter-le (λ x. x.id == i) q accounts);
        identities = λ s t i.
            omega (arith, sound.identities s t i, count-filter-le (is_identity s t i) q accounts);
        providers =
            λ v t. omega (arith, sound.providers v t, count-filter-le (is_of v t) q accounts);
        methods =
            All-filter (HasMethod accounts) (HasMethod (filter q accounts)) (λ x. not (x.id == id))
              users
              (λ u y m. elim m [
                | inl pw ↦ inl pw
                | inr own ↦
                    inr (rw (count-filter q (is_own u.id) accounts (λ a k. ground arith)) own)
              ])
              sound.methods;
      }
