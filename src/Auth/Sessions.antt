-- ===== src/Auth/Sessions.antt =====
-- The sessions of backend/app/services/auth_service.py: refresh tokens with rotation, the
-- detection of reuse, and revocation. The proofs are in the modules below.
pub mod Live
pub mod Reach
pub mod Refresh
pub mod Replay
pub mod Logout
use open_city_planner.Base.{
  Bool, true, false, Option, none, some, ◌-◌, List, [], ◌∷◌, ◌++◌, ◌&&◌, Time, Uuid, Token,
  if◌then◌else◌, ◌==◌, leb, is_none, is_some, find, update,
}
use open_city_planner.Auth.Store.{
  User, UserSession, Revocation, refresh_token_reuse, expired, user_inactive, rotated, logout,
  Action, Db, Settings, Error, refresh_token_expired, refresh_token_invalid,
  refresh_already_rotated, session_revoked, user_inactive_error, ok, raise, Outcome, Request,
}
use open_city_planner.Auth.Jwt.{
  Payload, claims, expired_signature, invalid_token, Crypto, refresh, decode_jwt, Decoded,
}
use open_city_planner.Auth.Issue.{
  Fresh, Cookie, get_user_by_id, ensure_user_can_authenticate, create_session_record,
  set_auth_cookies,
}

-- the rows of a family that are not revoked
unfoldable pub live_in : Uuid → UserSession → Bool
live_in family_id r = r.family_id == family_id && is_none r.revoked_at

unfoldable pub revoke_token_family : Db → Uuid → Time → Revocation → Db
unfolding live_in
revoke_token_family db family_id revoked_at reason = record db {
  sessions =
      update (live_in family_id)
        (λ r. record r { revoked_at = some revoked_at; revocation_reason = some reason })
        db.sessions;
}

unfoldable pub live_of : Uuid → UserSession → Bool
live_of user_id r = r.user_id == user_id && is_none r.revoked_at

unfoldable pub revoke_all_sessions : Db → Uuid → Time → Revocation → Db
unfolding live_of
revoke_all_sessions db user_id now reason = record db {
  sessions =
      update (live_of user_id)
        (λ r. record r { revoked_at = some now; revocation_reason = some reason }) db.sessions;
}

unfoldable pub expire_row : Time → UserSession → UserSession
expire_row now r = record r { revoked_at = some now; revocation_reason = some expired }

-- what a successful refresh returns: the user, the CSRF token and the cookies
pub record Refreshed : Type 0 where
  pub refreshed_user : User
  pub csrf_token : Token
  pub cookies : List Cookie

unfoldable pub rotate_row : Time → Uuid → UserSession → UserSession
rotate_row now next_jti r = record r {
  revoked_at = some now;
  rotated_at = some now;
  last_used_at = some now;
  replaced_by_jti = some next_jti;
  revocation_reason = some rotated;
}

module _ (c : Crypto) (s : Settings) where
  -- the last part of `refresh_session`: the next token of the family
  unfoldable pub rotate :
      Db → Time → UserSession → User → Payload → Request → Fresh → Outcome Refreshed
  unfolding create_session_record set_auth_cookies rotate_row
  rotate db now r u payload request fresh =
      let (access_token, next_refresh_token, next_record) =
        create_session_record c s now u request r.family_id payload.auth_time payload.amr fresh in
      (
        ok (record {
          refreshed_user = u;
          csrf_token = fresh.csrf_token;
          cookies = set_auth_cookies c s access_token next_refresh_token fresh.csrf_token;
        }),
        record db {
          sessions =
              update (λ x. x.id == r.id) (rotate_row now next_record.jti) db.sessions
              ++ next_record ∷ [];
        },
      )

  -- the part from the look-up of the user on
  unfoldable pub refresh_for_user :
      Db → Time → UserSession → Payload → Request → Fresh → Outcome Refreshed
  refresh_for_user db now r payload request fresh = elim (get_user_by_id db r.user_id) [
    | none ↦ (raise user_inactive_error, revoke_token_family db r.family_id now user_inactive)
    | some u ↦ elim (ensure_user_can_authenticate db u false).0 [
      | some e ↦ (raise e, revoke_token_family db r.family_id now user_inactive)
      | none ↦ rotate db now r u payload request fresh
    ]
  ]

  -- a token that was rotated before: a concurrent request within the grace period, else a reuse
  unfoldable pub refuse_rotated : Db → Time → UserSession → Time → Outcome Refreshed
  refuse_rotated db now r rotated_at =
      if leb (now - rotated_at) s.refresh_token_reuse_grace_seconds
      then (raise refresh_already_rotated, db)
      else (
        raise Error.refresh_token_reuse_detected,
        (let revoked = revoke_token_family db r.family_id now refresh_token_reuse in
            record revoked {
              audit =
                  db.audit
                  ++ record {
                    actor_user_id = none;
                    target_user_id = some r.user_id;
                    action = Action.refresh_token_reuse_detected;
                    resource_id = none;
                  }
                    ∷ [];
            }),
      )

  -- the part from the found row on
  unfoldable pub refresh_record :
      Db → Time → UserSession → Payload → Request → Fresh → Outcome Refreshed
  refresh_record db now r payload request fresh = elim r.rotated_at [
    | some rotated_at ↦ refuse_rotated db now r rotated_at
    | none ↦
        if is_some r.revoked_at
        then (raise session_revoked, db)
        else if leb r.expires_at now
        then (
          raise refresh_token_expired,
          record db { sessions = update (λ x. x.id == r.id) (expire_row now) db.sessions },
        )
        else refresh_for_user db now r payload request fresh
  ]

  -- the row of the token: found by `jti`, and with the digest and the subject of the token
  unfoldable pub session_row : Db → Token → Payload → Option UserSession
  session_row db refresh_token payload = elim payload.sub [
    | none ↦ none
    | some subject ↦ elim payload.jti [
      | none ↦ none
      | some jti ↦ elim (find (λ r. r.jti == jti) db.sessions) [
        | none ↦ none
        | some r ↦
            if r.token_hash == c.hash_token refresh_token && r.user_id == subject
            then some r
            else none
      ]
    ]
  ]

  -- the part from the decoded token on
  unfoldable pub refresh_decoded : Db → Time → Token → Request → Fresh → Decoded → Outcome Refreshed
  refresh_decoded db now refresh_token request fresh expired_signature =
      (raise refresh_token_expired, db)
  refresh_decoded db now refresh_token request fresh invalid_token =
      (raise refresh_token_invalid, db)
  refresh_decoded db now refresh_token request fresh (claims payload) =
      elim (session_row db refresh_token payload) [
        | none ↦ (raise refresh_token_invalid, db)
        | some r ↦ refresh_record db now r payload request fresh
      ]

  unfoldable pub refresh_session : Db → Time → Token → Request → Fresh → Outcome Refreshed
  refresh_session db now refresh_token request fresh =
      refresh_decoded db now refresh_token request fresh (decode_jwt c now refresh_token refresh)

-- the row whose family a logout revokes
unfoldable pub logout_row : Db → Decoded → Option UserSession
logout_row db expired_signature = none
logout_row db invalid_token = none
logout_row db (claims payload) = elim payload.jti [
  | none ↦ none
  | some jti ↦ find (λ r. r.jti == jti) db.sessions
]

unfoldable pub revoke_current_session : Crypto → Db → Time → Option Token → Db
revoke_current_session c db now none = db
revoke_current_session c db now (some refresh_token) =
    elim (logout_row db (decode_jwt c now refresh_token refresh)) [
      | none ↦ db
      | some r ↦ revoke_token_family db r.family_id now logout
    ]
