-- ===== src/Auth/Mfa/Manage.antt =====
-- The set-up, the use and the removal of the second factor in mfa_service.py.
use open_city_planner.Base.{
  Bool, Time, Uuid, Option, List, Text, ℕ, true, Token, Digest, filter, some, find, false, leb,
  none, if◌then◌else◌, ◌==◌, not, ◌∷◌, ◌+◌, update, ◌&&◌, ◌++◌, count, [], ◌||◌, is_some, is_none,
  ◌-◌,
}
use open_city_planner.Auth.Jwt.{
  Crypto, decode_jwt, access, refresh, expired_signature, claims, invalid_token,
}
use open_city_planner.Auth.Store.{
  Db, Settings, UserSession, MfaMethod, User, Revocation, RecoveryCode, Result, Outcome, raise,
  mfa_not_enabled, ok, mfa_setup_expired, mfa_secret_configuration_error, invalid_credentials,
  mfa_was_disabled, mfa_already_enabled, mfa_recovery_codes_regenerated, mfa_setup_started,
  mfa_code_invalid, mfa_enabled, mfa_reauth_required,
}
use open_city_planner.Auth.Accounts.{Passwords}
use open_city_planner.Auth.Mfa.Challenges.{log, invalidate}
use open_city_planner.Auth.Sessions.{revoke_all_sessions, live_of, logout_row}
use open_city_planner.Auth.Mfa.Factors.{
  MfaCrypto, enabled_method, recovery_code_hash, consume_factor, matching_counter,
}

unfoldable pub set_up_again : Time → Digest → ℕ → MfaMethod → MfaMethod
set_up_again now encrypted seconds m = record m {
  secret_encrypted = encrypted;
  setup_expires_at = some (now + seconds);
  last_used_counter = none;
}

unfoldable pub new_method : Uuid → Uuid → Time → Digest → ℕ → MfaMethod
new_method id user_id now encrypted seconds = record {
  id = id;
  user_id = user_id;
  secret_encrypted = encrypted;
  is_enabled = false;
  verified_at = none;
  setup_expires_at = some (now + seconds);
  last_used_at = none;
  last_used_counter = none;
}

-- the TOTP row of a user, enabled or not
unfoldable pub method_of : Db → Uuid → Option MfaMethod
method_of db user_id = find (λ m. m.user_id == user_id) db.methods

module _ (c : MfaCrypto) (s : Settings) (db : Db) (now : Time) where
  unfoldable pub store_secret : Uuid → Digest → Uuid → Db
  unfolding set_up_again new_method
  store_secret user_id encrypted id = elim (method_of db user_id) [
    | some m ↦ record db {
      methods =
          update (λ x. x.id == m.id) (set_up_again now encrypted s.mfa_setup_expire_seconds)
            db.methods;
    }
    | none ↦ record db {
      methods = db.methods ++ new_method id user_id now encrypted s.mfa_setup_expire_seconds ∷ [];
    }
  ]

  -- `secret` and `id` are drawn by the call; the result is the secret.
  unfoldable pub start_totp_setup : User → Digest → Uuid → Outcome Digest
  unfolding store_secret log
  start_totp_setup u secret id =
      if is_some (enabled_method db u.id)
      then (raise mfa_already_enabled, db)
      else elim (c.encrypt secret) [
        | none ↦ (raise mfa_secret_configuration_error, db)
        | some encrypted ↦ (ok secret, log u.id mfa_setup_started (store_secret u.id encrypted id))
      ]

-- rows for the codes, in order, with the ids that the call draws
unfoldable pub code_rows : MfaCrypto → Uuid → List Text → List Uuid → List RecoveryCode
code_rows c user_id (code ∷ codes) (id ∷ ids) =
    record { id = id; user_id = user_id; code_hash = recovery_code_hash c code; used_at = none }
    ∷ code_rows c user_id codes ids
code_rows c user_id _ _ = []

unfoldable pub replace_recovery_codes : MfaCrypto → Db → Uuid → List Text → List Uuid → Db
replace_recovery_codes c db user_id codes ids = record db {
  recovery_codes =
      filter (λ r. not (r.user_id == user_id)) db.recovery_codes ++ code_rows c user_id codes ids;
}

unfoldable pub enable : Time → ℕ → MfaMethod → MfaMethod
enable now counter m = record m {
  is_enabled = true;
  verified_at = some now;
  setup_expires_at = none;
  last_used_counter = some counter;
  last_used_at = some now;
}

-- `not method.setup_expires_at or method.setup_expires_at <= now`
unfoldable pub setup_over : Time → Option Time → Bool
setup_over now none = true
setup_over now (some t) = leb t now

module _ (c : MfaCrypto) (s : Settings) (db : Db) (now : Time) where
  -- the part of `confirm_totp_setup` from the found row on
  unfoldable pub confirm_method :
      User → MfaMethod → Text → List Text → List Uuid → Outcome (List Text)
  unfolding setup_over replace_recovery_codes log enable
  confirm_method u m code codes ids =
      if m.is_enabled || setup_over now m.setup_expires_at
      then (raise mfa_setup_expired, db)
      else elim (c.decrypt m.secret_encrypted) [
        | none ↦ (raise mfa_secret_configuration_error, db)
        | some secret ↦ elim (matching_counter c s now secret code) [
          | none ↦ (raise mfa_code_invalid, db)
          | some counter ↦ (
            ok codes,
            log u.id mfa_enabled (
                replace_recovery_codes c
                  (record db {
                    methods = update (λ x. x.id == m.id) (enable now counter) db.methods;
                  })
                  u.id codes ids),
          )
        ]
      ]

  -- `codes` are those that `generate_recovery_codes` draws
  unfoldable pub confirm_totp_setup : User → Text → List Text → List Uuid → Outcome (List Text)
  confirm_totp_setup u code codes ids = elim (method_of db u.id) [
    | none ↦ (raise mfa_setup_expired, db)
    | some m ↦ confirm_method u m code codes ids
  ]

pub record SecurityStatus : Type 0 where
  pub enabled : Bool
  pub enabled_at : Option Time
  pub last_used_at : Option Time
  pub recovery_codes_remaining : ℕ

unfoldable pub security_status : Db → Uuid → SecurityStatus
security_status db user_id = elim (enabled_method db user_id) [
  | none ↦ record {
    enabled = false;
    enabled_at = none;
    last_used_at = none;
    recovery_codes_remaining = 0;
  }
  | some m ↦ record {
    enabled = true;
    enabled_at = m.verified_at;
    last_used_at = m.last_used_at;
    recovery_codes_remaining =
        count (λ r. r.user_id == user_id && is_none r.used_at) db.recovery_codes;
  }
]

-- `token` is the access cookie, empty where there is none
unfoldable pub require_recent_auth : Crypto → Settings → Time → Token → Result (Unit {0})
require_recent_auth jwt s now token = elim (decode_jwt jwt now token access) [
  | expired_signature ↦ raise mfa_reauth_required
  | invalid_token ↦ raise mfa_reauth_required
  | claims p ↦ elim p.auth_time [
    | none ↦ raise mfa_reauth_required
    | some auth_time ↦
        if leb (now - auth_time) s.reauth_max_age_seconds then ok tt else raise mfa_reauth_required
  ]
]

-- the family of the refresh cookie, if its row is the user's
unfoldable pub current_family : Crypto → Db → Time → Uuid → Option Token → Option Uuid
current_family jwt db now user_id none = none
current_family jwt db now user_id (some token) =
    elim (logout_row db (decode_jwt jwt now token refresh)) [
      | none ↦ none
      | some r ↦ if r.user_id == user_id then some r.family_id else none
    ]

unfoldable pub other_live : Uuid → Option Uuid → UserSession → Bool
other_live user_id none r = live_of user_id r
other_live user_id (some family) r = live_of user_id r && not (r.family_id == family)

unfoldable pub revoke_other_sessions : Crypto → Db → Time → Uuid → Option Token → Revocation → Db
revoke_other_sessions jwt db now user_id cookie reason = record db {
  sessions =
      update (other_live user_id (current_family jwt db now user_id cookie))
        (λ r. record r { revoked_at = some now; revocation_reason = some reason }) db.sessions;
}

-- The password and the second factor that a sensitive action wants.
pub record Credentials : Type 0 where
  pub current_password : Option Text
  pub code : Option Text
  pub recovery_code : Option Text

-- `user.password_hash and (not current_password or not verify_password(…))`
unfoldable pub password_missing : Passwords → Option Digest → Option Text → Bool
password_missing pw none given = false
password_missing pw (some h) none = true
password_missing pw (some h) (some []) = true
password_missing pw (some h) (some (x ∷ password)) = not (pw.verify (x ∷ password) h)

-- the removal of the method, its codes and its open challenges, and the log-out everywhere
unfoldable pub remove_mfa : Db → Time → Uuid → Db
remove_mfa d now user_id =
    revoke_all_sessions
      (record d {
        recovery_codes = filter (λ r. not (r.user_id == user_id)) d.recovery_codes;
        methods = filter (λ m. not (m.user_id == user_id)) d.methods;
        challenges =
            update (λ ch. ch.user_id == user_id && is_none ch.used_at) (invalidate now)
              d.challenges;
      })
      user_id now Revocation.mfa_disabled

module _ (c : MfaCrypto) (s : Settings) (pw : Passwords) (db : Db) (now : Time) where
  -- the tables are those that the caller commits with its own changes
  unfoldable pub verify_sensitive_action : User → Credentials → Outcome MfaMethod
  verify_sensitive_action u k = elim (enabled_method db u.id) [
    | none ↦ (raise mfa_not_enabled, db)
    | some m ↦
        if password_missing pw u.password_hash k.current_password
        then (raise invalid_credentials, db)
        else elim (consume_factor c s db now m k.code k.recovery_code).0 [
          | raise e ↦ (raise e, db)
          | ok none ↦ (raise mfa_code_invalid, db)
          | ok (some _) ↦ (ok m, (consume_factor c s db now m k.code k.recovery_code).1)
        ]
  ]

  unfoldable pub regenerate_recovery_codes :
      User → Credentials → List Text → List Uuid → Outcome (List Text)
  unfolding log replace_recovery_codes
  regenerate_recovery_codes u k codes ids = elim (verify_sensitive_action u k).0 [
    | raise e ↦ (raise e, db)
    | ok _ ↦ (
      ok codes,
      log u.id mfa_recovery_codes_regenerated
          (replace_recovery_codes c (verify_sensitive_action u k).1 u.id codes ids),
    )
  ]

  unfoldable pub disable_mfa : User → Credentials → Outcome (Unit {0})
  unfolding log remove_mfa
  disable_mfa u k = elim (verify_sensitive_action u k).0 [
    | raise e ↦ (raise e, db)
    | ok _ ↦
        (ok tt, log u.id mfa_was_disabled (remove_mfa (verify_sensitive_action u k).1 now u.id))
  ]
