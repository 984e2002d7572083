-- ===== src/Auth/Examples/Oauth.antt =====
-- Two superusers, one of whom logs in with a linked account only: a link, an unlink, a deletion.
use open_city_planner.Base.{
  Text, Uuid, count, find, codes, Option, ◌≡◌, none, ◌∷◌, filter, ◌≤◌, some, All, Digest, [], inr,
  true, arith, refl, inl, false, text_eq, strip, lower, lower_char, Bool-cases, subst, text_eq_lem,
}
use open_city_planner.Auth.Store.{User, raise, last_auth_method}
use open_city_planner.Auth.Oauth.{
  AccountDb, OauthAccount, unlink_oauth_account, is_identity, is_of, normalize_provider,
  has_lower_email,
}
use open_city_planner.Auth.Oauth.Keeps.{IsSoundDb}
use open_city_planner.Auth.Account.{delete_own_account, is_active_superuser}
use open_city_planner.Auth.Account.Reach.{Reach, Reach-IsSoundDb, next, init, unlink, delete}
use open_city_planner.Auth.Oauth.Sound.{HasMethod}
use open_city_planner.Auth.Account.Superusers.{Reach-HasSuperuser}
use open_city_planner.Auth.Issue.{get_user_by_id}
use open_city_planner.Auth.Examples.{passwords}

abbrev member : Uuid → Option Digest → User
member id hash = record {
  id = id;
  email = id ∷ [];
  password_hash = hash;
  is_active = true;
  is_verified = true;
  is_superuser = true;
  email_pending = false;
  deactivation_reason = none;
  welcome_email_sent_at = some 10;
  last_login_at = none;
  updated_at = 0;
}

abbrev carol : User
carol = member 1 (some 3)

abbrev dave : User
dave = member 2 none

abbrev github : Text
github = codes "github"

abbrev linked : OauthAccount
linked = record {
  id = 5;
  user_id = 2;
  provider = github;
  provider_instance = none;
  provider_subject = codes "dave";
  provider_email = none;
  updated_at = 0;
  last_login_at = none;
}

abbrev before : AccountDb
before = record {
  auth = record {
    users = carol ∷ dave ∷ [];
    sessions = [];
    verification_tokens = [];
    reset_tokens = [];
    methods = [];
    recovery_codes = [];
    challenges = [];
    passkeys = [];
    audit = [];
    welcome_outbox = [];
    mails = [];
  };
  accounts = linked ∷ [];
  grants = some 2 ∷ none ∷ [];
  polygons = record { created_by_user_id = some 2; updated_by_user_id = some 1 } ∷ [];
  metrics = some 1 ∷ [];
  social_settings = some 2 ∷ [];
}

last_has : All (HasMethod before.accounts) (dave ∷ [])
unfolding count
last_has = (inr (omega arith), tt)

-- the addresses of the two users differ
before_emails : (email : Text) → count (has_lower_email email) before.auth.users ≤ 1
unfolding count has_lower_email lower lower_char text_eq
before_emails email = elim (Bool-cases (text_eq (1 ∷ []) email)) [
  | inl y ↦
      let n : text_eq (2 ∷ []) email ≡ false =
        subst (λ e. text_eq (2 ∷ []) e ≡ false) (text_eq_lem (1 ∷ []) email y) refl in
      ground arith
  | inr n ↦ ground arith
]

before-IsSoundDb : IsSoundDb before
unfolding count is_identity is_of
before-IsSoundDb = record {
  user_keys = λ id. ground arith;
  emails = before_emails;
  account_keys = λ id. ground arith;
  identities = λ p s i. ground arith;
  providers = λ u p. ground arith;
  methods = (inl refl, last_has);
}

abbrev after : AccountDb
unfolding unlink_oauth_account delete_own_account
after =
    (delete_own_account passwords (unlink_oauth_account before dave github).1 20 2 (codes "löschen")
      none (some 15) 300).1

-- dave cannot unlink the only account, and is deleted
changes : Reach before after
unfolding after find
changes =
    next (next init (unlink dave 2 github refl))
      (delete passwords 20 2 (codes "löschen") none (some 15) 300)

Reach-IsSoundDb_example : IsSoundDb after
Reach-IsSoundDb_example = Reach-IsSoundDb changes before-IsSoundDb

Reach-HasSuperuser_example : 1 ≤ count is_active_superuser after.auth.users
unfolding count
Reach-HasSuperuser_example = Reach-HasSuperuser changes before-IsSoundDb (omega arith)

-- The unlink is refused, and the deletion leaves the other superuser.
unlink_run : unlink_oauth_account before dave github ≡ (raise last_auth_method, before)
unfolding unlink_oauth_account find count text_eq normalize_provider lower strip
unlink_run = refl

delete_run : after.auth.users ≡ carol ∷ []
unfolding after unlink_oauth_account delete_own_account find count filter text_eq strip lower_char
    get_user_by_id normalize_provider lower
delete_run = refl
