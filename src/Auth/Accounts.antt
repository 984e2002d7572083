-- ===== src/Auth/Accounts.antt =====
-- Accounts in backend/app/services/auth_service.py: sign-up and the verification of the e-mail
-- address. `now` is the time of the call; ids and tokens that a call
-- draws at random are its last arguments. The proofs are in the module below.
pub mod Verify
use open_city_planner.Auth.Store.{
  Db, Mail, ResetToken, User, Outcome, Settings, verification_mail, VerificationToken, Request,
  raise, ok, auth_required, invalid_password, invalid_credentials, password_reset_mail,
  email_already_registered, verification_state_invalid, password_changed_mail,
  verification_token_invalid, oauth_email_required, invalid_reset_token, verification_token_expired,
  oauth_email_already_set, reset_token_expired, password_changed, password_reset,
}
use open_city_planner.Auth.Jwt.{Crypto}
use open_city_planner.Auth.Issue.{get_user_by_id, ensure_user_can_authenticate}
use open_city_planner.Auth.Sessions.{revoke_all_sessions}
use open_city_planner.Base.{
  Text, Option, Uuid, Time, Digest, Bool, Token, find, ◌==◌, is_none, if◌then◌else◌, leb, ◌++◌,
  update, List, text_eq, some, false, lower, length, none, ◌+◌, true, ◌∷◌, ◌&&◌, not, is_some, [],
  strip, ◌||◌, ◌*◌,
}

-- pwdlib: the hash of a password, and the test of a password against a hash.
pub record Passwords : Type 0 where
  pub hash : Text → Digest
  pub verify : Text → Digest → Bool

-- `len(password) < 12`
unfoldable pub is_valid_password : Text → Bool
is_valid_password password = leb 12 (length password)

-- `none` where the policy refuses the password
unfoldable pub hash_password : Passwords → Text → Option Digest
unfolding is_valid_password
hash_password pw password = if is_valid_password password then some (pw.hash password) else none

-- `user.password_hash and verify_password(…)`
unfoldable pub password_matches : Passwords → Text → Option Digest → Bool
password_matches pw password none = false
password_matches pw password (some h) = pw.verify password h

unfoldable pub has_email : Text → User → Bool
has_email email u = text_eq (lower u.email) (lower email)

unfoldable pub get_user_by_email : Db → Text → Option User
get_user_by_email db email = find (has_email email) db.users

unfoldable pub send : Mail → Db → Db
send m db = record db { mails = db.mails ++ m ∷ [] }

unfoldable pub put_user : User → Db → Db
put_user u db = record db { users = update (λ x. x.id == u.id) (λ _. u) db.users }

-- backend/app/services/email_outbox.py: the row is added to the session of the caller
unfoldable pub enqueue_welcome_email : User → Db → Db
enqueue_welcome_email u db =
    if not u.is_verified || is_some u.welcome_email_sent_at
    then db
    else record db { welcome_outbox = db.welcome_outbox ++ u.id ∷ [] }

-- the row of a new account, with the defaults of the model
unfoldable pub new_user : Text → Digest → Uuid → Time → User
new_user email h id now = record {
  id = id;
  email = email;
  password_hash = some h;
  is_active = true;
  is_verified = false;
  is_superuser = false;
  email_pending = false;
  deactivation_reason = none;
  welcome_email_sent_at = none;
  last_login_at = none;
  updated_at = now;
}

unfoldable pub used_at_time : Time → VerificationToken → VerificationToken
used_at_time now t = record t { used_at = some now }

module _ (c : Crypto) (s : Settings) where
  unfoldable pub create_verification_token : Db → Time → User → Uuid → Token → Db
  create_verification_token db now u id token = record db {
    verification_tokens =
        db.verification_tokens
        ++ record {
          id = id;
          user_id = u.id;
          token_hash = c.hash_token token;
          expires_at = now + s.email_verification_expire_hours * 3600;
          used_at = none;
        }
          ∷ [];
  }

  -- the token and the mail with it
  unfoldable pub send_verification : Db → Time → User → Uuid → Token → Db
  unfolding create_verification_token send
  send_verification db now u id token =
      send (verification_mail u.id token) (create_verification_token db now u id token)

  unfoldable pub signup : Passwords → Db → Time → Text → Text → Uuid → Uuid → Token → Outcome User
  unfolding hash_password
  signup pw db now email password user_id id token = elim (get_user_by_email db email) [
    | some _ ↦ (raise email_already_registered, db)
    | none ↦ elim (hash_password pw password) [
      | none ↦ (raise invalid_password, db)
      | some h ↦
          let u = new_user email h user_id now in
          (ok u, send_verification (record db { users = db.users ++ u ∷ [] }) now u id token)
    ]
  ]

  unfoldable pub complete_oauth_email : Db → Time → User → Text → Uuid → Token → Outcome (Unit {0})
  unfolding put_user
  complete_oauth_email db now u email id token =
      let normalized = lower (strip email) in
      let changed = record u { email = normalized; is_verified = false; email_pending = false } in
      if not u.email_pending
      then (raise oauth_email_already_set, db)
      else if is_some (get_user_by_email db normalized)
      then (raise email_already_registered, db)
      else (ok tt, send_verification (put_user changed db) now changed id token)

  unfoldable pub resend_verification : Db → Time → Uuid → Uuid → Token → Outcome Bool
  resend_verification db now user_id id token = elim (get_user_by_id db user_id) [
    | none ↦ (raise auth_required, db)
    | some u ↦
        if u.is_verified
        then (ok false, db)
        else if u.email_pending
        then (raise oauth_email_required, db)
        else (ok true, send_verification db now u id token)
  ]

-- the part of `verify_email` from the locked user on
unfoldable pub verify_user : Db → Time → VerificationToken → User → Outcome (Bool × Uuid)
unfolding put_user enqueue_welcome_email
verify_user db now r u =
    if u.is_verified
    then (ok (false, u.id), db)
    else if is_some r.used_at
    then (raise verification_state_invalid, db)
    else if leb r.expires_at now
    then (raise verification_token_expired, db)
    else (
      ok (true, u.id),
      enqueue_welcome_email (record u { is_verified = true })
          (put_user (record u { is_verified = true })
            (record db {
              verification_tokens =
                  update (λ x. x.id == r.id) (used_at_time now) db.verification_tokens;
            })),
    )

-- The result is `changed_user_state` and the user: the status is `verified` where the state
-- changed and `already_verified` where it did not.
unfoldable pub verify_email : Crypto → Db → Time → Token → Outcome (Bool × Uuid)
verify_email c db now token =
    elim (find (λ x. x.token_hash == c.hash_token token) db.verification_tokens) [
      | none ↦ (raise verification_token_invalid, db)
      | some r ↦ elim (get_user_by_id db r.user_id) [
        | none ↦ (raise verification_token_invalid, db)
        | some u ↦ verify_user db now r u
      ]
    ]
