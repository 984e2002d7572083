-- ===== src/Auth/Sessions/Logout.antt =====
-- What a log-out, and a log-in, mean for the refreshes after it.
use open_city_planner.Base.{
  if◌then◌else◌, some, ◌≡◌, arith, Time, Uuid, Token, refl, find, count, ◌==◌, List, [], ◌∷◌, ◌∙◌,
  ◌<◌, ◌≢◌, count_pos_of_find, ap, sym, ◌+◌, ◌*◌, find-append_none, Bool, false,
}
use open_city_planner.Auth.Store.{User, UserSession, Db, Settings, Request}
use open_city_planner.Auth.Jwt.{
  Payload, Crypto, decode_jwt, refresh, claims, create_payload, check_type,
}
use open_city_planner.Auth.Issue.{
  CookieName, Fresh, create_session_record, issue_session, get_user_by_id, refresh_payload,
  CookieName, set_auth_cookies, Cookie, refresh_cookie, csrf_cookie,
}
use open_city_planner.Auth.Sessions.{
  session_row, live_in, refresh_session, Refreshed, revoke_current_session, logout_row, ok, none,
  Option, true, rotate,
}
use open_city_planner.Auth.Sessions.Refresh.{ok-Grants, Grants, Grants-rotate}
use Prim.Native.String.{String}
use open_city_planner.Auth.Sessions.Replay.{logged_out}
use open_city_planner.Auth.Sessions.Live.{session_row-find}

-- Where a family has no live row, each of its rows is revoked.
revoked_of_none_live :
    (f jti : Uuid) (rows : List UserSession) (r : UserSession)
    → count (live_in f) rows ≡ 0
    → find (λ x. x.jti == jti) rows ≡ some r
    → r.family_id ≡ f
    → r.revoked_at ≢ none
revoked_of_none_live f jti rows r none_live found same live = omega (
  arith,
  count_pos_of_find (λ x. x.jti == jti) (live_in f) rows r found (unfold live_in in ground arith),
)

abbrev same_cookie : CookieName → CookieName → Bool
same_cookie CookieName.access_cookie CookieName.access_cookie = true
same_cookie CookieName.refresh_cookie CookieName.refresh_cookie = true
same_cookie CookieName.csrf_cookie CookieName.csrf_cookie = true
same_cookie _ _ = false

-- the value of the first cookie of a name
abbrev pub cookie_value : CookieName → List Cookie → Option Token
cookie_value name [] = none
cookie_value name (k ∷ cookies) =
    if same_cookie k.name name then some k.value else cookie_value name cookies

-- The refresh token after that of a log-in: its claims carry the log-in's time and methods on.
abbrev pub next_token :
    Crypto → Settings → Time → Time → User → Option (List String) → Fresh → Fresh → Token
next_token c s now later u amr fresh fresh' =
    let payload = refresh_payload s now u (some now) amr fresh.refresh_jti in
    c.encode (refresh_payload s later u payload.auth_time payload.amr fresh'.refresh_jti)

module _ (c : Crypto) (s : Settings) where
  -- After a log-out with a token, no token of its family refreshes a session any more, whoever
  -- presents it and whenever.
  pub refresh-logout :
      (db : Db) (now later : Time) (token token' : Token) (request : Request) (fresh : Fresh)
      (r r' : UserSession) (p' : Payload) (out : Refreshed) (db' : Db)
      → logout_row db (decode_jwt c now token refresh) ≡ some r
      → decode_jwt c later token' refresh ≡ claims p'
      → session_row c s (revoke_current_session c db now (some token)) token' p' ≡ some r'
      → r'.family_id ≡ r.family_id
      → refresh_session c s
          (revoke_current_session c db now (some token))
          later
          token'
          request
          fresh
        ≢ (ok out, db')
  refresh-logout db now later token token' request fresh r r' p' out db' found d m same e =
      let after = revoke_current_session c db now (some token) in
      let (p, row, _, g) = ok-Grants c s after later request fresh token' out db' e in
      let same_p : p ≡ p' = cc (g.decoded, d) in
      let same_row : row ≡ r' = cc (g.matched, m, same_p) in
      let (jti, _, at) = session_row-find c s later request fresh after token' p' r' m in
      revoked_of_none_live r.family_id jti after.sessions r' (logged_out c db now token r found) at
        same (ap (λ (x : UserSession). x.revoked_at) (sym same_row) ∙ g.refreshable.not_revoked)

  -- A new session can be refreshed: where the token in the refresh cookie of a log-in decodes, later,
  -- to the claims that it was made of, its `jti` is no other row's, it has not expired by then and the
  -- user is still there and active, the refresh succeeds and returns the user; its cookies hold the
  -- next refresh token, with the same time and methods of authentication, and the CSRF token that it
  -- returns.
  pub refresh-issue :
      (db : Db) (now later : Time) (u : User) (request request' : Request)
      (amr : Option (List String)) (family_id : Uuid) (fresh fresh' : Fresh)
      → find (λ x. x.jti == fresh.refresh_jti) db.sessions ≡ none
      → get_user_by_id db u.id ≡ some u
      → u.is_active ≡ true
      → later < now + s.refresh_token_expire_days * 86400
      → c.decode later (c.encode (refresh_payload s now u (some now) amr fresh.refresh_jti))
        ≡ claims (refresh_payload s now u (some now) amr fresh.refresh_jti)
      → let ((cookies, csrf_token), after) =
          issue_session c s db now u request amr family_id fresh in
        (token : Token) × (out : Refreshed) × (cookie_value refresh_cookie cookies ≡ some token)
        × ((refresh_session c s after later token request' fresh').0 ≡ ok out)
        × (out.refreshed_user ≡ u)
        × (out.csrf_token ≡ fresh'.csrf_token)
        × (cookie_value csrf_cookie out.cookies ≡ some fresh'.csrf_token)
        × (cookie_value refresh_cookie out.cookies
            ≡ some (next_token c s now later u amr fresh fresh'))
  unfolding issue_session create_session_record set_auth_cookies rotate
  refresh-issue db now later u request request' amr family_id fresh fresh' unused there active
        in_time decodes =
      let g : Grants c s after later token payload row u = record {
        decoded = unfold decode_jwt refresh_payload create_payload in rw (decodes, check_type);
        matched =
            unfold session_row refresh_payload create_payload find in
            ground (
              arith,
              find-append_none (λ x. x.jti == fresh.refresh_jti) db.sessions (row ∷ []) unused,
            );
        refreshable = record { not_rotated = refl; not_revoked = refl; not_expired = in_time };
        has_user = unfold get_user_by_id in there;
        active = active;
      } in
      (
        token,
        _,
        refl,
        ap (λ r. r.0) (Grants-rotate c s after later request' fresh' token payload row u g),
        refl,
        refl,
        refl,
        refl,
      )
    where
      payload : Payload
      payload = refresh_payload s now u (some now) amr fresh.refresh_jti

      token : Token
      token = c.encode payload

      row : UserSession
      row = (create_session_record c s now u request family_id (some now) amr fresh).2

      after : Db
      after = (issue_session c s db now u request amr family_id fresh).1
