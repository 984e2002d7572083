-- ===== src/Auth/Examples.antt =====
-- An account with its rows, and simple stand-ins for what the libraries compute, on which the
-- modules below run the account services.
pub mod Sessions
pub mod Accounts
pub mod Mfa
pub mod Oauth
use open_city_planner.Auth.Store.{Db, Request, Settings, User}
use open_city_planner.Auth.Jwt.{Crypto, claims}
use open_city_planner.Auth.Mfa.Factors.{MfaCrypto}
use open_city_planner.Auth.Accounts.{Passwords}
use open_city_planner.Auth.Issue.{Fresh, refresh_payload}
use open_city_planner.Base.{Bool, Text, none, get_or, length, ◌+◌, ◌∷◌, ◌==◌, [], some, true, false}

abbrev pub settings : Settings
settings = record {
  access_token_expire_minutes = 15;
  refresh_token_expire_days = 30;
  refresh_token_reuse_grace_seconds = 10;
  email_verification_expire_hours = 24;
  password_reset_expire_minutes = 30;
  mfa_challenge_expire_seconds = 300;
  mfa_setup_expire_seconds = 600;
  mfa_max_attempts = 5;
  mfa_totp_valid_window = 1;
  reauth_max_age_seconds = 600;
}

abbrev pub request : Request
request = record { client_host = none; user_agent = none }

abbrev pub alice : User
alice = record {
  id = 1;
  email = b'a' ∷ [];
  password_hash = none;
  is_active = true;
  is_verified = false;
  is_superuser = false;
  email_pending = false;
  deactivation_reason = none;
  welcome_email_sent_at = none;
  last_login_at = none;
  updated_at = 0;
}

-- A token is the `jti` that it was made of.
abbrev pub jwt : Crypto
jwt = record {
  encode = λ p. get_or p.jti 0;
  decode = λ now t. claims (refresh_payload settings 1000 alice (some 1000) none t);
  hash_token = λ t. t + 100;
}

-- A password's hash is its length.
abbrev pub passwords : Passwords
passwords = record { hash = λ p. length p; verify = λ p h. length p == h }

abbrev pub long_password : Text
long_password = 1 ∷ 2 ∷ 3 ∷ 4 ∷ 5 ∷ 6 ∷ 7 ∷ 8 ∷ 9 ∷ 10 ∷ 11 ∷ 12 ∷ []

-- Every counter has the code 123456, and nothing is encrypted.
abbrev pub mfa_crypto : MfaCrypto
mfa_crypto = record {
  hash_token = λ t. t + 100;
  encrypt = λ secret. some secret;
  decrypt = λ secret. some secret;
  totp_at = λ secret counter. b'1' ∷ b'2' ∷ b'3' ∷ b'4' ∷ b'5' ∷ b'6' ∷ [];
  recovery_hmac = λ code. length code;
}

abbrev pub tables : Db
tables = record {
  users = alice ∷ [];
  sessions = [];
  verification_tokens =
      record { id = 1; user_id = 1; token_hash = 131; expires_at = 5000; used_at = none } ∷ [];
  reset_tokens =
      record {
        id = 1;
        user_id = 1;
        token_hash = 141;
        expires_at = 5000;
        used_at = none;
        invalidated_at = none;
        requested_ip = none;
      }
      ∷ [];
  methods = [];
  recovery_codes = [];
  challenges = [];
  passkeys = [];
  audit = [];
  welcome_outbox = [];
  mails = [];
}

abbrev pub draws : Fresh
draws = record { session_id = 1; access_jti = 20; refresh_jti = 21; csrf_token = 22 }

abbrev pub more_draws : Fresh
more_draws = record { session_id = 2; access_jti = 30; refresh_jti = 31; csrf_token = 32 }
