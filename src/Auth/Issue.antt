-- ===== src/Auth/Issue.antt =====
-- The first half of backend/app/services/auth_service.py: who may authenticate, and the tokens,
-- the row and the cookies of a new session.
use Prim.Native.String.{String}
use open_city_planner.Base.{
  Bool, true, false, Option, none, some, ℕ, ◌+◌, ◌*◌, List, [], ◌∷◌, ◌++◌, Time, Uuid, Token,
  if◌then◌else◌, ◌==◌, find,
}
use open_city_planner.Auth.Store.{
  self_deactivated, User, UserSession, login_blocked, Db, Settings, Error, account_self_deactivated,
  account_disabled, Request,
}
use open_city_planner.Auth.Jwt.{
  superuser, user, Payload, Crypto, Extra, access, refresh, create_jwt, create_payload,
}

unfoldable pub inactive_account_error : User → Error
inactive_account_error u = elim u.deactivation_reason [
  | some self_deactivated ↦ account_self_deactivated
  | _ ↦ account_disabled
]

unfoldable pub get_user_by_id : Db → Uuid → Option User
get_user_by_id db user_id = find (λ u. u.id == user_id) db.users

-- `none` where the user may go on
unfoldable pub ensure_user_can_authenticate : Db → User → Bool → Option Error × Db
unfolding inactive_account_error
ensure_user_can_authenticate db u audit_interactive_attempt =
    if u.is_active
    then (none, db)
    else if audit_interactive_attempt
    then (
      some (inactive_account_error u),
      record db {
        audit =
            db.audit
            ++ record {
              actor_user_id = some u.id;
              target_user_id = some u.id;
              action = login_blocked;
              resource_id = some u.id;
            }
              ∷ [];
      },
    )
    else (some (inactive_account_error u), db)

-- What a call draws at random: the row's key, the two `jti` and the CSRF token.
pub record Fresh : Type 0 where
  pub session_id : Uuid
  pub access_jti : Uuid
  pub refresh_jti : Uuid
  pub csrf_token : Token

-- A cookie of the response.
pub data CookieName : Type 0 where
  access_cookie refresh_cookie csrf_cookie : CookieName

pub data CookiePath : Type 0 where
  configured_path auth_path : CookiePath

pub record Cookie : Type 0 where
  pub name : CookieName
  pub value : Token
  pub httponly : Bool
  pub path : CookiePath
  pub max_age : ℕ

-- `if authenticated_at` and `if amr`: zero and the empty list are left out
unfoldable pub truthy_number : Option ℕ → Option ℕ
truthy_number none = none
truthy_number (some n) = if n == 0 then none else some n

unfoldable pub truthy_list : Option (List String) → Option (List String)
truthy_list (some (x ∷ xs)) = some (x ∷ xs)
truthy_list _ = none

unfoldable pub authentication_claim : Option ℕ → Option (List String) → Extra
unfolding truthy_number truthy_list
authentication_claim authenticated_at amr = record {
  email = none;
  role = none;
  auth_time = truthy_number authenticated_at;
  amr = truthy_list amr;
}

-- the claims of the refresh token that a new session hands out
unfoldable pub refresh_payload :
    Settings → Time → User → Option ℕ → Option (List String) → Uuid → Payload
unfolding create_payload authentication_claim
refresh_payload s now u authenticated_at amr jti =
    create_payload now u.id refresh (s.refresh_token_expire_days * 86400) jti
      (authentication_claim authenticated_at amr)

module _ (c : Crypto) (s : Settings) where
  unfoldable pub create_session_record :
      Time
      → User
      → Request
      → Uuid
      → Option ℕ
      → Option (List String)
      → Fresh
      → Token × Token × UserSession
  unfolding create_jwt authentication_claim refresh_payload
  create_session_record now u request family_id authenticated_at amr fresh =
      let access_token =
        create_jwt c now u.id access (s.access_token_expire_minutes * 60) fresh.access_jti
          (record (authentication_claim authenticated_at amr) {
            email = some u.email;
            role = some (if u.is_superuser then superuser else user);
          }) in
      let refresh_token =
        c.encode (refresh_payload s now u authenticated_at amr fresh.refresh_jti) in
      (
        access_token,
        refresh_token,
        record {
          id = fresh.session_id;
          user_id = u.id;
          token_hash = c.hash_token refresh_token;
          jti = fresh.refresh_jti;
          family_id = family_id;
          expires_at = now + s.refresh_token_expire_days * 86400;
          last_used_at = none;
          revoked_at = none;
          rotated_at = none;
          replaced_by_jti = none;
          revocation_reason = none;
          ip_address = request.client_host;
          user_agent = request.user_agent;
        },
      )

  unfoldable pub set_auth_cookies : Token → Token → Token → List Cookie
  set_auth_cookies access_token refresh_token csrf_token =
      record {
        name = access_cookie;
        value = access_token;
        httponly = true;
        path = configured_path;
        max_age = s.access_token_expire_minutes * 60;
      }
      ∷ record {
        name = refresh_cookie;
        value = refresh_token;
        httponly = true;
        path = auth_path;
        max_age = s.refresh_token_expire_days * 86400;
      }
      ∷ record {
        name = csrf_cookie;
        value = csrf_token;
        httponly = false;
        path = configured_path;
        max_age = s.refresh_token_expire_days * 86400;
      }
      ∷ []

  -- `authenticated_at` is the current time, and the family is a fresh UUID
  unfoldable pub issue_session :
      Db → Time → User → Request → Option (List String) → Uuid → Fresh → (List Cookie × Token) × Db
  unfolding create_session_record set_auth_cookies
  issue_session db now u request amr family_id fresh =
      let (access_token, refresh_token, session_record) =
        create_session_record now u request family_id (some now) amr fresh in
      (
        (set_auth_cookies access_token refresh_token fresh.csrf_token, fresh.csrf_token),
        record db { sessions = db.sessions ++ session_record ∷ [] },
      )
