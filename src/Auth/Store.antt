-- ===== src/Auth/Store.antt =====
-- The rows that the account services read and write (backend/app/models/user.py, user_session.py,
-- verification_token.py, password_reset_token.py, mfa.py, admin_audit_log.py), the settings that
-- they read (core/config.py), and their errors. Columns that no modelled operation reads or
-- writes are left out.
use Prim.Native.String.{String}
use open_city_planner.Base.{Bool, Option, List, ℕ, Time, Uuid, Token, Digest, Text}

pub data DeactivationReason : Type 0 where
  self_deactivated admin_deactivated : DeactivationReason

pub record User : Type 0 where
  pub id : Uuid
  pub email : Text
  pub password_hash : Option Digest
  pub is_active : Bool
  pub is_verified : Bool
  pub is_superuser : Bool
  pub email_pending : Bool
  pub deactivation_reason : Option DeactivationReason
  pub welcome_email_sent_at : Option Time
  pub last_login_at : Option Time
  pub updated_at : Time

pub data Revocation : Type 0 where
  refresh_token_reuse expired user_inactive rotated logout logout_all : Revocation
  password_reset password_changed mfa_disabled account_deactivation : Revocation

pub record UserSession : Type 0 where
  pub id : Uuid
  pub user_id : Uuid
  pub token_hash : Digest
  pub jti : Uuid
  pub family_id : Uuid
  pub expires_at : Time
  pub last_used_at : Option Time
  pub revoked_at : Option Time
  pub rotated_at : Option Time
  pub replaced_by_jti : Option Uuid
  pub revocation_reason : Option Revocation
  pub ip_address : Option String
  pub user_agent : Option String

pub record VerificationToken : Type 0 where
  pub id : Uuid
  pub user_id : Uuid
  pub token_hash : Digest
  pub expires_at : Time
  pub used_at : Option Time

pub record ResetToken : Type 0 where
  pub id : Uuid
  pub user_id : Uuid
  pub token_hash : Digest
  pub expires_at : Time
  pub used_at : Option Time
  pub invalidated_at : Option Time
  pub requested_ip : Option String

pub record MfaMethod : Type 0 where
  pub id : Uuid
  pub user_id : Uuid
  pub secret_encrypted : Digest
  pub is_enabled : Bool
  pub verified_at : Option Time
  pub setup_expires_at : Option Time
  pub last_used_at : Option Time
  pub last_used_counter : Option ℕ

pub record RecoveryCode : Type 0 where
  pub id : Uuid
  pub user_id : Uuid
  pub code_hash : Digest
  pub used_at : Option Time

pub record MfaChallenge : Type 0 where
  pub id : Uuid
  pub user_id : Uuid
  pub token_hash : Digest
  pub primary_method : String
  pub redirect_path : Option String
  pub expires_at : Time
  pub used_at : Option Time
  pub invalidated_at : Option Time
  pub attempt_count : ℕ
  pub ip_address : Option String
  pub user_agent : Option String

pub data Action : Type 0 where
  refresh_token_reuse_detected login_blocked : Action
  mfa_challenge_blocked mfa_login_failed mfa_recovery_code_used mfa_login_success : Action
  mfa_setup_started mfa_enabled mfa_recovery_codes_regenerated mfa_was_disabled : Action
  oauth_login_success oauth_account_linked oauth_account_unlinked : Action
  account_deactivated account_deleted : Action

-- `resource_type` is `USER` where there is a `resource_id`, and is left out.
pub record AuditLog : Type 0 where
  pub actor_user_id : Option Uuid
  pub target_user_id : Option Uuid
  pub action : Action
  pub resource_id : Option Uuid

-- A mail that a service hands to email_service.py.
pub data Mail : Type 0 where
  verification_mail : Uuid → Token → Mail
  password_reset_mail : Uuid → Token → Mail
  password_changed_mail : Uuid → Mail

-- The committed tables, the mails handed over, and the users with a welcome mail enqueued.
pub record Db : Type 0 where
  pub users : List User
  pub sessions : List UserSession
  pub verification_tokens : List VerificationToken
  pub reset_tokens : List ResetToken
  pub methods : List MfaMethod
  pub recovery_codes : List RecoveryCode
  pub challenges : List MfaChallenge
  pub passkeys : List Uuid
  pub audit : List AuditLog
  pub welcome_outbox : List Uuid
  pub mails : List Mail

pub record Settings : Type 0 where
  pub access_token_expire_minutes : ℕ
  pub refresh_token_expire_days : ℕ
  pub refresh_token_reuse_grace_seconds : ℕ
  pub email_verification_expire_hours : ℕ
  pub password_reset_expire_minutes : ℕ
  pub mfa_challenge_expire_seconds : ℕ
  pub mfa_setup_expire_seconds : ℕ
  pub mfa_max_attempts : ℕ
  pub mfa_totp_valid_window : ℕ
  pub reauth_max_age_seconds : ℕ

-- The `code` of the error that a service raises.
pub data Error : Type 0 where
  account_self_deactivated account_disabled invalid_credentials : Error
  email_already_registered invalid_password oauth_email_already_set oauth_email_required : Error
  refresh_token_expired refresh_token_invalid refresh_already_rotated : Error
  refresh_token_reuse_detected session_revoked user_inactive_error : Error
  verification_token_invalid verification_token_expired verification_state_invalid : Error
  auth_required invalid_reset_token reset_token_expired : Error
  mfa_challenge_invalid mfa_challenge_used mfa_challenge_expired mfa_too_many_attempts : Error
  mfa_code_invalid mfa_recovery_code_invalid mfa_already_enabled mfa_not_enabled : Error
  mfa_setup_expired mfa_reauth_required mfa_secret_configuration_error : Error
  oauth_email_conflict oauth_account_already_linked oauth_account_not_linked : Error
  last_auth_method last_superuser_required invalid_delete_confirmation : Error
  invalid_current_password recent_auth_required : Error
  -- the IntegrityError of the database, where no handler catches it
  integrity_error : Error
  -- a failed `assert`
  assertion_failed : Error

pub data Result {ℓ} (A : Type ℓ) : Type ℓ where
  ok : A → Result A
  raise : Error → Result A

-- What the call returns or raises, and the tables as they are committed when it does. An error
-- raised before a commit leaves the tables as they were: the session is closed without one.
abbrev pub Outcome : Type 0 → Type 0
Outcome A = Result A × Db

-- What a request brings, of what the services store.
pub record Request : Type 0 where
  pub client_host : Option String
  pub user_agent : Option String
