-- ===== src/Auth/Examples/Sessions.antt =====
-- The theorems on sessions at a session of `alice`.
use open_city_planner.Auth.Store.{Db, UserSession, ok, raise, Error, Revocation}
use open_city_planner.Auth.Sessions.{
  Refreshed, refresh_session, session_row, live_in, rotate_row, revoke_current_session, logout_row,
  revoke_token_family, refresh_decoded, refresh_record, refresh_for_user, rotate,
}
use open_city_planner.Auth.Jwt.{Payload, decode_jwt, check_type, create_payload, refresh, claims}
use open_city_planner.Auth.Issue.{
  create_session_record, issue_session, refresh_payload, get_user_by_id,
  ensure_user_can_authenticate, refresh_cookie, csrf_cookie,
}
use open_city_planner.Auth.Examples.{jwt, settings, tables, alice, request, more_draws, draws}
use open_city_planner.Auth.Sessions.Refresh.{Grants, refresh_session_exact}
use open_city_planner.Auth.Sessions.Replay.{replay-refresh}
use open_city_planner.Auth.Sessions.Logout.{cookie_value, next_token, refresh-issue, refresh-logout}
use open_city_planner.Auth.Sessions.Live.{IsSingleLive}
use open_city_planner.Auth.Sessions.Reach.{Reach-IsSingleLive, next, here, log_in, Step}
use open_city_planner.Base.{
  find, some, none, ◌≡◌, arith, refl, count, ◌<◌, Uuid, ◌⊎◌, ◌≤◌, ◌≢◌, update, [], Token,
}

abbrev logged_in : Db
logged_in = (issue_session jwt settings tables 1000 alice request none 9 draws).1

abbrev session_payload : Payload
session_payload = refresh_payload settings 1000 alice (some 1000) none 21

abbrev session : UserSession
session = (create_session_record jwt settings 1000 alice request 9 (some 1000) none draws).2

granted : Grants jwt settings logged_in 1500 21 session_payload session alice
unfolding decode_jwt check_type refresh_payload create_payload session_row find get_user_by_id
    issue_session create_session_record
granted = record {
  decoded = refl;
  matched = refl;
  refreshable = record { not_rotated = refl; not_revoked = refl; not_expired = omega arith };
  has_user = refl;
  active = refl;
}

refresh_session_exact_example :
    (out : Refreshed) × ((refresh_session jwt settings logged_in 1500 21 request more_draws).0
      ≡ ok out)
    × (out.refreshed_user ≡ alice)
    × (out.csrf_token ≡ 32)
refresh_session_exact_example =
    (refresh_session_exact jwt settings logged_in 1500 request more_draws 21).1 session_payload
      session alice granted

abbrev refreshed_once : Db
refreshed_once = (refresh_session jwt settings logged_in 1500 21 request more_draws).1

decoded_later : decode_jwt jwt 2000 21 refresh ≡ claims session_payload
unfolding decode_jwt check_type refresh_payload create_payload
decoded_later = refl

replay-refresh_example :
    let again = refresh_session jwt settings refreshed_once 2000 21 request draws in
    ((10 < 500)
      × (again.0 ≡ raise Error.refresh_token_reuse_detected)
      × (count (live_in 9) again.1.sessions ≡ 0))
    ⊎ ((500 ≤ 10) × (again ≡ (raise Error.refresh_already_rotated, refreshed_once)))
unfolding create_session_record
replay-refresh_example =
    replay-refresh jwt settings logged_in 1500 2000 21 request request more_draws draws
      session_payload session alice granted decoded_later

refresh-issue_example :
    let ((cookies, csrf_token), after) =
      issue_session jwt settings tables 1000 alice request none 9 draws in
    (token : Token) × (out : Refreshed) × (cookie_value refresh_cookie cookies ≡ some token)
    × ((refresh_session jwt settings after 1500 token request more_draws).0 ≡ ok out)
    × (out.refreshed_user ≡ alice)
    × (out.csrf_token ≡ 32)
    × (cookie_value csrf_cookie out.cookies ≡ some 32)
    × (cookie_value refresh_cookie out.cookies
        ≡ some (next_token jwt settings 1000 1500 alice none draws more_draws))
unfolding find get_user_by_id refresh_payload create_payload
refresh-issue_example =
    refresh-issue jwt settings tables 1000 1500 alice request request none 9 draws more_draws refl
      refl refl (omega arith) refl

none_live : (f : Uuid) → count (live_in f) tables.sessions ≤ 1
unfolding count
none_live f = omega arith

Reach-IsSingleLive_example : IsSingleLive refreshed_once
unfolding count
Reach-IsSingleLive_example =
    Reach-IsSingleLive jwt settings
      (next (next here (log_in tables 1000 alice request none 9 draws refl))
        (Step.refresh logged_in 1500 21 request more_draws))
      none_live

-- Two sessions of one family, as after a refresh, and a log-out with the first token.
logout_found :
    logout_row refreshed_once (decode_jwt jwt 1600 21 refresh) ≡ some (rotate_row 1500 31 session)
unfolding logout_row decode_jwt check_type refresh_payload create_payload find update
    refresh_session refresh_decoded refresh_record refresh_for_user rotate session_row issue_session
    create_session_record get_user_by_id ensure_user_can_authenticate
logout_found = refl

abbrev logged_out : Db
logged_out = revoke_current_session jwt refreshed_once 1600 (some 21)

abbrev next_session : UserSession
next_session =
    record ((create_session_record jwt settings 1500 alice request 9 (some 1000) none
      more_draws).2) { revoked_at = some 1600; revocation_reason = some Revocation.logout }

logout_matched :
    session_row jwt settings logged_out 31 (refresh_payload settings 1000 alice (some 1000) none 31)
    ≡ some next_session
unfolding revoke_current_session logout_row revoke_token_family decode_jwt check_type
    refresh_payload create_payload find update refresh_session refresh_decoded refresh_record
    refresh_for_user rotate session_row issue_session create_session_record get_user_by_id
    ensure_user_can_authenticate live_in
logout_matched = refl

next_decoded :
    decode_jwt jwt 1700 31 refresh
    ≡ claims (refresh_payload settings 1000 alice (some 1000) none 31)
unfolding decode_jwt check_type refresh_payload create_payload
next_decoded = refl

refresh-logout_example :
    refresh_session jwt settings logged_out 1700 31 request draws
    ≢ (ok (record { refreshed_user = alice; csrf_token = 22; cookies = [] }), logged_out)
unfolding create_session_record rotate_row
refresh-logout_example =
    refresh-logout jwt settings refreshed_once 1600 1700 21 31 request draws
      (rotate_row 1500 31 session) next_session
      (refresh_payload settings 1000 alice (some 1000) none 31)
      (record { refreshed_user = alice; csrf_token = 22; cookies = [] }) logged_out logout_found
      next_decoded logout_matched refl
