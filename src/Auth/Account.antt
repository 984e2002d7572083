-- ===== src/Auth/Account.antt =====
-- backend/app/services/account_service.py: the deactivation and the deletion of the own account. The
-- address of the avatar, which the deletion returns, is a column that is left out.
pub mod Cases
pub mod Reach
pub mod Superusers
pub mod Erased
use open_city_planner.Auth.Issue.{get_user_by_id}
use open_city_planner.Auth.Accounts.{Passwords, put_user}
use open_city_planner.Auth.Oauth.{AccountDb, log_own, Authorship}
use open_city_planner.Base.{
  Text, Time, Uuid, ℕ, false, Option, Bool, if◌then◌else◌, filter, ◌∷◌, [], none, ◌&&◌, some,
  text_eq, not, true, update, ◌==◌, ltb, lower_char, map, is_none, strip, ◌-◌, leb, ◌++◌, count,
}
use open_city_planner.Auth.Store.{
  Db, User, account_deactivated, Result, AuditLog, UserSession, Error, raise, self_deactivated,
  account_deactivation, invalid_current_password, auth_required, invalid_delete_confirmation, ok,
  recent_auth_required, account_deleted, last_superuser_required,
}

abbrev pub is_active_superuser : User → Bool
is_active_superuser u = u.is_superuser && u.is_active

-- The user, or what is raised.
unfoldable pub lock_user_and_protect_last_superuser : Db → Uuid → Result User
lock_user_and_protect_last_superuser db user_id = elim (get_user_by_id db user_id) [
  | none ↦ raise auth_required
  | some u ↦
      if u.is_superuser && leb (count is_active_superuser db.users) 1
      then raise last_superuser_required
      else ok u
]

-- the open sessions of the user
unfoldable pub is_open_session : Uuid → UserSession → Bool
is_open_session user_id s = s.user_id == user_id && is_none s.revoked_at

unfoldable pub end_session : Time → UserSession → UserSession
end_session now s = record s {
  revoked_at = some now;
  revocation_reason = some account_deactivation;
}

unfoldable pub deactivated : User → User
deactivated u = record u { is_active = false; deactivation_reason = some self_deactivated }

unfoldable pub deactivate_user : AccountDb → Time → User → AccountDb
unfolding put_user is_open_session end_session deactivated log_own
deactivate_user db now u = log_own u.id account_deactivated (record db {
  auth = record (put_user (deactivated u) db.auth) {
    sessions = update (is_open_session u.id) (end_session now) db.auth.sessions;
  };
})

unfoldable pub deactivate_own_account : AccountDb → Time → Uuid → Result (Unit {0}) × AccountDb
unfolding lock_user_and_protect_last_superuser deactivate_user
deactivate_own_account db now user_id =
    elim (lock_user_and_protect_last_superuser db.auth user_id) [
      | raise e ↦ (raise e, db)
      | ok u ↦ if u.is_active then (ok tt, deactivate_user db now u) else (ok tt, db)
    ]

-- the letters of `löschen`
abbrev delete_word : Text
delete_word = 108 ∷ 246 ∷ 115 ∷ 99 ∷ 104 ∷ 101 ∷ 110 ∷ []

-- `casefold` of one character, of the ASCII letters and `Ö`
unfoldable pub casefold_char : ℕ → ℕ
casefold_char c = if c == 214 then 246 else lower_char c

unfoldable pub is_confirmed : Text → Bool
unfolding casefold_char
is_confirmed confirmation = text_eq (map casefold_char (strip confirmation)) delete_word

-- `not authenticated_at or now - authenticated_at > recent_auth_seconds`
unfoldable pub is_stale_auth : Time → Option Time → ℕ → Bool
is_stale_auth now none recent = true
is_stale_auth now (some at) recent = ltb recent (now - at)

-- What stands against the deletion, of a user with a password or without one.
unfoldable pub refuse_deletion :
    Passwords → Time → User → Option Text → Option Time → ℕ → Option Error
unfolding is_stale_auth
refuse_deletion pw now u password authenticated_at recent = elim u.password_hash [
  | some hash ↦ elim password [
    | none ↦ some invalid_current_password
    | some p ↦ if pw.verify p hash then none else some invalid_current_password
  ]
  | none ↦ if is_stale_auth now authenticated_at recent then some recent_auth_required else none
]

abbrev pub refers_to : Uuid → Option Uuid → Bool
refers_to id none = false
refers_to id (some i) = i == id

-- `UPDATE … WHERE column == user.id SET column = NULL`
unfoldable pub forget : Uuid → Option Uuid → Option Uuid
forget id r = if refers_to id r then none else r

unfoldable pub forget_author : Uuid → Authorship → Authorship
unfolding forget
forget_author id a = record {
  created_by_user_id = forget id a.created_by_user_id;
  updated_by_user_id = forget id a.updated_by_user_id;
}

unfoldable pub forget_log : Uuid → AuditLog → AuditLog
unfolding forget
forget_log id l = record l {
  actor_user_id = forget id l.actor_user_id;
  target_user_id = forget id l.target_user_id;
}

-- The deletes and the anonymisation in the tables of the account services; the rows of the second
-- factor go with the row of the user by the database's cascade.
unfoldable pub erase_auth : Uuid → Db → Db
unfolding forget_log
erase_auth id db = record db {
  users = filter (λ u. not (u.id == id)) db.users;
  sessions = filter (λ s. not (s.user_id == id)) db.sessions;
  verification_tokens = filter (λ t. not (t.user_id == id)) db.verification_tokens;
  reset_tokens = filter (λ t. not (t.user_id == id)) db.reset_tokens;
  methods = filter (λ x. not (x.user_id == id)) db.methods;
  recovery_codes = filter (λ x. not (x.user_id == id)) db.recovery_codes;
  challenges = filter (λ x. not (x.user_id == id)) db.challenges;
  passkeys = filter (λ x. not (x == id)) db.passkeys;
  audit =
      map (forget_log id) db.audit
      ++ record {
        actor_user_id = none;
        target_user_id = none;
        action = account_deleted;
        resource_id = some id;
      }
        ∷ [];
}

unfoldable pub erase : Uuid → AccountDb → AccountDb
unfolding erase_auth forget_author forget
erase id db = record {
  auth = erase_auth id db.auth;
  accounts = filter (λ a. not (a.user_id == id)) db.accounts;
  grants = filter (λ g. not (refers_to id g)) db.grants;
  polygons = map (forget_author id) db.polygons;
  metrics = map (forget id) db.metrics;
  social_settings = map (forget id) db.social_settings;
}

unfoldable pub delete_own_account :
    Passwords
    → AccountDb
    → Time
    → Uuid
    → Text
    → Option Text
    → Option Time
    → ℕ
    → Result (Unit {0}) × AccountDb
unfolding is_confirmed lock_user_and_protect_last_superuser refuse_deletion erase
delete_own_account pw db now user_id confirmation password authenticated_at recent =
    if not (is_confirmed confirmation)
    then (raise invalid_delete_confirmation, db)
    else elim (lock_user_and_protect_last_superuser db.auth user_id) [
      | raise e ↦ (raise e, db)
      | ok u ↦ elim (refuse_deletion pw now u password authenticated_at recent) [
        | some e ↦ (raise e, db)
        | none ↦ (ok tt, erase u.id db)
      ]
    ]
