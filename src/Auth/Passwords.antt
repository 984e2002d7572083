-- ===== src/Auth/Passwords.antt =====
-- Passwords in backend/app/services/auth_service.py: log-in, the change of a password and its
-- reset by mail. The proofs are in the modules below.
pub mod Reset
pub mod Links
pub mod Login
use open_city_planner.Auth.Jwt.{Crypto}
use open_city_planner.Auth.Accounts.{
  Passwords, put_user, send, password_matches, get_user_by_email, is_valid_password,
}
use open_city_planner.Auth.Store.{
  ResetToken, Settings, Db, Outcome, Request, User, ok, password_reset_mail, password_changed_mail,
  raise, invalid_reset_token, invalid_password, invalid_credentials, password_reset,
  password_changed, reset_token_expired,
}
use open_city_planner.Auth.Sessions.{revoke_all_sessions}
use open_city_planner.Auth.Issue.{get_user_by_id, ensure_user_can_authenticate}
use open_city_planner.Base.{
  Text, Uuid, Time, some, Bool, List, update, Token, is_none, ◌==◌, ◌+◌, Option, if◌then◌else◌,
  ◌&&◌, is_some, ◌++◌, not, ◌*◌, ◌||◌, none, ◌∷◌, [], find, leb, true,
}

unfoldable pub is_open : ResetToken → Bool
is_open t = is_none t.used_at && is_none t.invalidated_at

unfoldable pub open_for : Uuid → ResetToken → Bool
unfolding is_open
open_for user_id t = t.user_id == user_id && is_open t

unfoldable pub invalidate_at : Time → ResetToken → ResetToken
invalidate_at now t = record t { invalidated_at = some now }

unfoldable pub use_at : Time → ResetToken → ResetToken
use_at now t = record t { used_at = some now }

module _ (c : Crypto) (s : Settings) where
  unfoldable pub new_reset_token : Time → User → Request → Uuid → Token → ResetToken
  new_reset_token now u request id token = record {
    id = id;
    user_id = u.id;
    token_hash = c.hash_token token;
    expires_at = now + s.password_reset_expire_minutes * 60;
    used_at = none;
    invalidated_at = none;
    requested_ip = request.client_host;
  }

  -- the part of `forgot_password` from the locked user on
  unfoldable pub request_reset : Db → Time → User → Request → Uuid → Token → Db
  unfolding send new_reset_token
  request_reset db now u request id token = send (password_reset_mail u.id token) (record db {
    reset_tokens =
        update (open_for u.id) (invalidate_at now) db.reset_tokens
        ++ new_reset_token now u request id token ∷ [];
  })

  unfoldable pub forgot_password : Db → Time → Text → Request → Uuid → Token → Db
  forgot_password db now email request id token = elim (get_user_by_email db email) [
    | none ↦ db
    | some found ↦ if not found.is_active then db else elim (get_user_by_id db found.id) [
      | none ↦ db
      | some u ↦ if not u.is_active then db else request_reset db now u request id token
    ]
  ]

-- the token is used, and the other open tokens of the user are invalidated
unfoldable pub close_tokens : Time → ResetToken → List ResetToken → List ResetToken
close_tokens now r tokens =
    update (λ t. open_for r.user_id t && not (t.id == r.id)) (invalidate_at now)
      (update (λ t. t.id == r.id) (use_at now) tokens)

module _ (pw : Passwords) where
  unfoldable pub set_password : Db → Time → User → Text → Db
  unfolding put_user
  set_password db now u password =
      put_user (record u { password_hash = some (pw.hash password); updated_at = now }) db

  -- the part of `reset_password` from the locked user on
  unfoldable pub reset_for_user : Db → Time → ResetToken → User → Text → Outcome User
  unfolding set_password send
  reset_for_user db now r u password =
      let changed = set_password db now u password in
      let closed = record changed { reset_tokens = close_tokens now r db.reset_tokens } in
      (
        ok (record u { password_hash = some (pw.hash password); updated_at = now }),
        send (password_changed_mail u.id) (revoke_all_sessions closed u.id now password_reset),
      )

  -- the part of `reset_password` from the found row on
  unfoldable pub reset_with : Db → Time → ResetToken → Text → Outcome User
  reset_with db now r password =
      if is_some r.used_at || is_some r.invalidated_at
      then (raise invalid_reset_token, db)
      else if leb r.expires_at now
      then (raise reset_token_expired, db)
      else elim (get_user_by_id db r.user_id) [
        | none ↦ (raise invalid_reset_token, db)
        | some u ↦ reset_for_user db now r u password
      ]

  unfoldable pub reset_password : Crypto → Db → Time → Token → Text → Outcome User
  reset_password c db now token password =
      if not (is_valid_password password)
      then (raise invalid_password, db)
      else elim (find (λ x. x.token_hash == c.hash_token token) db.reset_tokens) [
        | none ↦ (raise invalid_reset_token, db)
        | some r ↦ reset_with db now r password
      ]

  -- A new password that the policy refuses makes `hash_password` raise a ValueError, which the
  -- service does not catch: `none`.
  unfoldable pub change_password : Db → Time → User → Text → Text → Option (Outcome (Unit {0}))
  unfolding set_password send password_matches
  change_password db now u current_password new_password =
      if not (password_matches pw current_password u.password_hash)
      then some (raise invalid_credentials, db)
      else if not (is_valid_password new_password)
      then none
      else some (
        ok tt,
        send (password_changed_mail u.id)
            (revoke_all_sessions (set_password db now u new_password) u.id now password_changed),
      )

  unfoldable pub authenticate : Db → Time → Text → Text → Outcome User
  unfolding put_user password_matches
  authenticate db now email password = elim (get_user_by_email db email) [
    | none ↦ (raise invalid_credentials, db)
    | some u ↦
        if not (password_matches pw password u.password_hash)
        then (raise invalid_credentials, db)
        else elim (ensure_user_can_authenticate db u true).0 [
          | some e ↦ (raise e, (ensure_user_can_authenticate db u true).1)
          | none ↦ (
            ok (record u { last_login_at = some now }),
            put_user (record u { last_login_at = some now }) db,
          )
        ]
  ]
