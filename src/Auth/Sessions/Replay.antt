-- ===== src/Auth/Sessions/Replay.antt =====
-- What a token is good for after it was rotated.
use open_city_planner.Base.{
  some, ◌≡◌, ◌++◌, arith, Time, Uuid, Token, refl, find, update, count, ◌==◌, find-update,
  find-append, count-update-eq-zero, List, [], ◌∷◌, ◌∙◌, ◌<◌, ◌-◌, ◌≤◌, ◌⊎◌, Bool-cases, leb, inl,
  inr,
}
use open_city_planner.Auth.Store.{User, UserSession, Db, Settings, Request}
use open_city_planner.Auth.Jwt.{Payload, Crypto, decode_jwt, refresh, claims}
use open_city_planner.Auth.Issue.{Fresh, create_session_record}
use open_city_planner.Auth.Sessions.{
  rotate, rotate_row, session_row, live_in, revoke_token_family, Revocation, refuse_rotated, raise,
  Error, refresh_session, refresh_decoded, refresh_record, revoke_current_session, logout_row,
}
use open_city_planner.Auth.Sessions.Refresh.{Grants, Grants-rotate}
use open_city_planner.Auth.Sessions.Live.{session_row-find}

-- A revocation of a family leaves none of its sessions live.
pub revoke_token_family-none_live :
    (db : Db) (g : Uuid) (now : Time) (reason : Revocation)
    → count (live_in g) (revoke_token_family db g now reason).sessions ≡ 0
unfolding revoke_token_family
revoke_token_family-none_live db g now reason =
    count-update-eq-zero (live_in g) (live_in g) _ db.sessions
      (λ r _. unfold live_in in ground arith) (λ r h. h)

-- A row found before a rotation is found after it, rotated.
find_rotated :
    (jti next_jti : Uuid) (now : Time) (rows : List UserSession) (r new : UserSession)
    → find (λ x. x.jti == jti) rows ≡ some r
    → find
        (λ x. x.jti == jti)
        (update (λ x. x.id == r.id) (rotate_row now next_jti) rows ++ new ∷ [])
      ≡ some (rotate_row now next_jti r)
unfolding rotate_row
find_rotated jti next_jti now rows r new e =
    find-append (λ x. x.jti == jti) (update (λ x. x.id == r.id) g rows) (new ∷ []) (g r)
      (find-update (λ x. x.jti == jti) (λ x. x.id == r.id) g rows (λ x _. refl) r e ∙ ground arith)
  where
    g : UserSession → UserSession
    g = rotate_row now next_jti

-- A log-out leaves no live session in the token's family.
pub logged_out :
    (c : Crypto) (db : Db) (now : Time) (token : Token) (r : UserSession)
    → logout_row db (decode_jwt c now token refresh) ≡ some r
    → count (live_in r.family_id) (revoke_current_session c db now (some token)).sessions ≡ 0
unfolding revoke_current_session
logged_out c db now token r found =
    rw (found, revoke_current_session)
      (revoke_token_family-none_live db r.family_id now Revocation.logout)

module _ (c : Crypto) (s : Settings) where
  session_row-rotate :
      (db : Db) (now : Time) (token : Token) (p : Payload) (r : UserSession) (u : User)
      (request : Request) (fresh : Fresh)
      → session_row c s db token p ≡ some r
      → session_row c s (rotate c s db now r u p request fresh).1 token p
        ≡ some (rotate_row now fresh.refresh_jti r)
  unfolding session_row rotate
  session_row-rotate db now token p r u request fresh e =
      let (jti, has_jti, found) = session_row-find c s now request fresh db token p r e in
      ground (
        arith,
        find_rotated jti fresh.refresh_jti now db.sessions r
            (create_session_record c s now u request r.family_id p.auth_time p.amr fresh).2 found,
      )

  -- The reply to a rotated token after the grace period.
  refuse_reuse :
      (db : Db) (now : Time) (r : UserSession) (t : Time)
      → s.refresh_token_reuse_grace_seconds < now - t
      → ((refuse_rotated c s db now r t).0 ≡ raise Error.refresh_token_reuse_detected)
        × (count (live_in r.family_id) (refuse_rotated c s db now r t).1.sessions ≡ 0)
  unfolding refuse_rotated
  refuse_reuse db now r t late = (
    ground arith,
    ground (arith, revoke_token_family-none_live db r.family_id now Revocation.refresh_token_reuse),
  )

  pub replay_branches :
      (db : Db) (now later : Time) (token : Token) (request request' : Request)
      (fresh fresh' : Fresh) (p : Payload) (r : UserSession) (u : User)
      → Grants c s db now token p r u
      → decode_jwt c later token refresh ≡ claims p
      → ((s.refresh_token_reuse_grace_seconds < later - now)
          → ((refresh_session c s
                (refresh_session c s db now token request fresh).1
                later
                token
                request'
                fresh').0
              ≡ raise Error.refresh_token_reuse_detected)
            × (count
                  (live_in r.family_id)
                  (refresh_session c s
                    (refresh_session c s db now token request fresh).1
                    later
                    token
                    request'
                    fresh').1.sessions
                ≡ 0))
        × ((later - now ≤ s.refresh_token_reuse_grace_seconds)
            → refresh_session c s
                (refresh_session c s db now token request fresh).1
                later
                token
                request'
                fresh'
              ≡ (
                raise Error.refresh_already_rotated,
                (refresh_session c s db now token request fresh).1,
              ))
  replay_branches db now later token request request' fresh fresh' p r u g d =
      rw (Grants-rotate c s db now request fresh token p r u g) (
        unfold refresh_session in
        rw d (
          unfold refresh_decoded in
          rw (session_row-rotate db now token p r u request fresh g.matched, refresh_decoded)
            (
              λ h.
                  unfold refresh_record rotate_row in
                  refuse_reuse (rotate c s db now r u p request fresh).1 later
                    (rotate_row now fresh.refresh_jti r) now h,
              λ h. unfold refresh_record rotate_row refuse_rotated in ground arith,
            )))

  -- A refresh token is good for one refresh. If it is presented again after the grace period, by
  -- its owner or by a thief, the call raises REFRESH_TOKEN_REUSE_DETECTED and leaves no live
  -- session in its family; within the grace period it raises REFRESH_ALREADY_ROTATED and changes
  -- nothing.
  pub replay-refresh :
      (db : Db) (now later : Time) (token : Token) (request request' : Request)
      (fresh fresh' : Fresh) (p : Payload) (r : UserSession) (u : User)
      → Grants c s db now token p r u
      → decode_jwt c later token refresh ≡ claims p
      → let after = (refresh_session c s db now token request fresh).1 in
        let again = refresh_session c s after later token request' fresh' in
        ((s.refresh_token_reuse_grace_seconds < later - now)
          × (again.0 ≡ raise Error.refresh_token_reuse_detected)
          × (count (live_in r.family_id) again.1.sessions ≡ 0))
        ⊎ ((later - now ≤ s.refresh_token_reuse_grace_seconds)
            × (again ≡ (raise Error.refresh_already_rotated, after)))
  replay-refresh db now later token request request' fresh fresh' p r u g d =
      let (old, young) =
        replay_branches db now later token request request' fresh fresh' p r u g d in
      elim (Bool-cases (leb (later - now) s.refresh_token_reuse_grace_seconds)) [
        | inl soon ↦
            let within : later - now ≤ s.refresh_token_reuse_grace_seconds = ground arith in
            inr (within, young within)
        | inr late ↦
            let past : s.refresh_token_reuse_grace_seconds < later - now = ground arith in
            inl (past, (old past).0, (old past).1)
      ]
