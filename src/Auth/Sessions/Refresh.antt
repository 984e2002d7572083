-- ===== src/Auth/Sessions/Refresh.antt =====
-- When a refresh succeeds.
use open_city_planner.Base.{
  true, none, some, ◌≡◌, ◌<◌, arith, Time, Token, Option-cases, inl, inr, refl,
}
use open_city_planner.Auth.Store.{User, UserSession, Db, Settings, ok, Request}
use open_city_planner.Auth.Jwt.{
  expired_signature, invalid_token, Payload, claims, Crypto, refresh, decode_jwt, Decoded,
}
use open_city_planner.Auth.Issue.{Fresh, get_user_by_id, ensure_user_can_authenticate}
use open_city_planner.Auth.Sessions.{
  Refreshed, refresh_for_user, refuse_rotated, refresh_record, session_row, refresh_session,
  refresh_decoded, rotate,
}

-- The row may be refreshed: it was never rotated, is not revoked and has not expired.
pub record IsRefreshable (now : Time) (r : UserSession) : Type 0 where
  pub not_rotated : r.rotated_at ≡ none
  pub not_revoked : r.revoked_at ≡ none
  pub not_expired : now < r.expires_at

-- What a refresh needs, with the values that it goes on with.
pub record Grants (c : Crypto) (s : Settings) (db : Db) (now : Time) (token : Token) (p : Payload)
    (r : UserSession) (u : User) : Type 0 where
  pub decoded : decode_jwt c now token refresh ≡ claims p
  pub matched : session_row c s db token p ≡ some r
  pub refreshable : IsRefreshable now r
  pub has_user : get_user_by_id db r.user_id ≡ some u
  pub active : u.is_active ≡ true

module _ (c : Crypto) (s : Settings) (db : Db) (now : Time) (request : Request)
    (fresh : Fresh) where
  for_user_ok :
      (r : UserSession) (p : Payload) (out : Refreshed) (db' : Db)
      → refresh_for_user c s db now r p request fresh ≡ (ok out, db')
      → (u : User) × (get_user_by_id db r.user_id ≡ some u) × (u.is_active ≡ true)
  unfolding refresh_for_user ensure_user_can_authenticate
  for_user_ok r p out db' e = elim (Option-cases (get_user_by_id db r.user_id)) [
    | inl gone ↦ absurd (ground arith)
    | inr (u, there) ↦ (u, there, ground arith)
  ]

  refuse_not_ok :
      (r : UserSession) (t : Time) (out : Refreshed) (db' : Db)
      → refuse_rotated c s db now r t ≡ (ok out, db')
      → ⊥
  unfolding refuse_rotated
  refuse_not_ok r t out db' e = ground arith

  record_ok :
      (r : UserSession) (p : Payload) (out : Refreshed) (db' : Db)
      → refresh_record c s db now r p request fresh ≡ (ok out, db')
      → IsRefreshable now r × (refresh_for_user c s db now r p request fresh ≡ (ok out, db'))
  unfolding refresh_record
  record_ok r p out db' e = elim (Option-cases r.rotated_at) [
    | inl never ↦ ground arith
    | inr (t, old) ↦ absurd (ground (arith, refuse_not_ok r t out db'))
  ]

  decoded_ok :
      (token : Token) (d : Decoded) (out : Refreshed) (db' : Db)
      → refresh_decoded c s db now token request fresh d ≡ (ok out, db')
      → (p : Payload) × (r : UserSession) × (d ≡ claims p)
        × (session_row c s db token p ≡ some r)
        × (refresh_record c s db now r p request fresh ≡ (ok out, db'))
  unfolding refresh_decoded
  decoded_ok token expired_signature out db' e = absurd (ground arith)
  decoded_ok token invalid_token out db' e = absurd (ground arith)
  decoded_ok token (claims p) out db' e = elim (Option-cases (session_row c s db token p)) [
    | inl unknown ↦ absurd (ground arith)
    | inr (r, there) ↦ (p, r, refl, there, ground arith)
  ]

  pub ok-Grants :
      (token : Token) (out : Refreshed) (db' : Db)
      → refresh_session c s db now token request fresh ≡ (ok out, db')
      → (p : Payload) × (r : UserSession) × (u : User) × Grants c s db now token p r u
  unfolding refresh_session
  ok-Grants token out db' e =
      let (p, r, decoded, matched, done) = decoded_ok token _ out db' e in
      let (can, done') = record_ok r p out db' done in
      let (u, there, active) = for_user_ok r p out db' done' in
      (
        p,
        r,
        u,
        record {
          decoded = decoded;
          matched = matched;
          refreshable = can;
          has_user = there;
          active = active;
        },
      )

  pub Grants-rotate :
      (token : Token) (p : Payload) (r : UserSession) (u : User)
      → Grants c s db now token p r u
      → refresh_session c s db now token request fresh ≡ rotate c s db now r u p request fresh
  unfolding refresh_session refresh_decoded refresh_record refresh_for_user
      ensure_user_can_authenticate
  Grants-rotate token p r u g = rw (g.decoded, refresh_decoded) (rw (g.matched) (ground arith))

  rotate_ok :
      (p : Payload) (r : UserSession) (u : User)
      → (out : Refreshed) × ((rotate c s db now r u p request fresh).0 ≡ ok out)
        × (out.refreshed_user ≡ u)
        × (out.csrf_token ≡ fresh.csrf_token)
  unfolding rotate
  rotate_ok p r u = (_, refl, refl, refl)

  -- A refresh succeeds exactly when the token decodes as a refresh token, its row is found by the
  -- `jti` with the token's digest and subject, the row was never rotated, is not revoked and has
  -- not expired, and the row's user exists and is active. It then returns that user.
  pub refresh_session_exact :
      (token : Token)
      → ((out : Refreshed) (db' : Db)
          → refresh_session c s db now token request fresh ≡ (ok out, db')
          → (p : Payload) × (r : UserSession) × (u : User) × Grants c s db now token p r u)
        × ((p : Payload) (r : UserSession) (u : User)
            → Grants c s db now token p r u
            → (out : Refreshed) × ((refresh_session c s db now token request fresh).0 ≡ ok out)
              × (out.refreshed_user ≡ u)
              × (out.csrf_token ≡ fresh.csrf_token))
  refresh_session_exact token =
      (ok-Grants token, λ p r u g. rw (Grants-rotate token p r u g) (rotate_ok p r u))
