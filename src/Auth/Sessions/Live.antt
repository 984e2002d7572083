-- ===== src/Auth/Sessions/Live.antt =====
-- How many sessions of a family are live, through every operation on sessions.
use open_city_planner.Base.{
  Bool, Bool-cases, inl, inr, false, none, some, ◌≡◌, ◌≤◌, ◌++◌, refl, List, [], ◌∷◌, arith, Time,
  Uuid, ◌==◌, is_none, find, update, count, count-append, count-update-le, count-update-lt,
  Option-cases, get_or,
}
use open_city_planner.Auth.Store.{User, UserSession, Revocation, Db, Settings, Request}
use open_city_planner.Auth.Jwt.{
  claims, expired_signature, invalid_token, Payload, Crypto, Decoded, claims, decode_jwt, refresh,
}
use open_city_planner.Auth.Issue.{Fresh, get_user_by_id, issue_session}
use Prim.Native.String.{String}
use open_city_planner.Auth.Sessions.{
  live_in, revoke_token_family, revoke_all_sessions, rotate_row, rotate, refresh_for_user,
  refuse_rotated, refresh_record, refresh_session, refresh_decoded, revoke_current_session,
  session_row, Option, Token, logout_row, expire_row,
}

-- At most one session of each family is live.
abbrev pub IsSingleLive : Db → Type 0
IsSingleLive db = (f : Uuid) → count (live_in f) db.sessions ≤ 1

-- A revocation of rows adds no live row.
pub revoke-live-le :
    (f : Uuid) (p : UserSession → Bool) (g : UserSession → UserSession) (rows : List UserSession)
    → ((r : UserSession) → is_none (g r).revoked_at ≡ false)
    → count (live_in f) (update p g rows) ≤ count (live_in f) rows
unfolding live_in
revoke-live-le f p g rows h = count-update-le (live_in f) p g rows (λ r _. ground (arith, h r))

-- The live rows of a family are rows of the family.
live-le-family :
    (f : Uuid) (rows : List UserSession)
    → count (live_in f) rows ≤ count (λ r. r.family_id == f) rows
unfolding count live_in
live-le-family f [] = omega arith
live-le-family f (r ∷ rows) = ground (arith, live-le-family f rows)

-- The rotation of a live row leaves as many live rows in its family as there were.
replaced-live-le :
    (f jti next_jti : Uuid) (now : Time) (rows : List UserSession) (r new : UserSession)
    → find (λ x. x.jti == jti) rows ≡ some r
    → r.revoked_at ≡ none
    → new.family_id ≡ r.family_id
    → count (live_in f) (update (λ x. x.id == r.id) (rotate_row now next_jti) rows ++ new ∷ [])
      ≤ count (live_in f) rows
unfolding count
replaced-live-le f jti next_jti now rows r new e l same = elim (Bool-cases (live_in f r)) [
  | inl in_family ↦ ground (
    arith,
    count-append (live_in f) updated (new ∷ []),
    count-update-lt (λ x. x.jti == jti) (live_in f) (λ x. x.id == r.id) g rows r e in_family
        (ground arith) (λ x _. unfold live_in rotate_row in ground arith),
  )
  | inr other ↦ ground (
    arith,
    count-append (live_in f) updated (new ∷ []),
    not_live,
    revoke-live-le f (λ x. x.id == r.id) g rows (λ x. unfold rotate_row in refl),
  )
]
  where
    g : UserSession → UserSession
    g = rotate_row now next_jti

    updated : List UserSession
    updated = update (λ x. x.id == r.id) g rows

    not_live : live_in f r ≡ false → live_in f new ≡ false
    not_live h = unfold live_in in ground arith

-- No family has more live sessions than before.
abbrev pub NoneAdded : Db → Db → Type 0
NoneAdded db db' = (f : Uuid) → count (live_in f) db'.sessions ≤ count (live_in f) db.sessions

revoke_token_family-NoneAdded :
    (db : Db) (g : Uuid) (now : Time) (reason : Revocation)
    → NoneAdded db (revoke_token_family db g now reason)
unfolding revoke_token_family
revoke_token_family-NoneAdded db g now reason f = revoke-live-le f _ _ db.sessions (λ r. refl)

pub revoke_all_sessions-NoneAdded :
    (db : Db) (user_id : Uuid) (now : Time) (reason : Revocation)
    → NoneAdded db (revoke_all_sessions db user_id now reason)
unfolding revoke_all_sessions
revoke_all_sessions-NoneAdded db user_id now reason f = revoke-live-le f _ _ db.sessions (λ r. refl)

module _ (c : Crypto) (s : Settings) (now : Time) (request : Request) (fresh : Fresh) where
  rotate-NoneAdded :
      (db : Db) (jti : Uuid) (r : UserSession) (u : User) (p : Payload)
      → find (λ x. x.jti == jti) db.sessions ≡ some r
      → r.revoked_at ≡ none
      → NoneAdded db (rotate c s db now r u p request fresh).1
  unfolding rotate
  rotate-NoneAdded db jti r u p e l f =
      replaced-live-le f jti fresh.refresh_jti now db.sessions r _ e l refl

  refresh_for_user-NoneAdded :
      (db : Db) (jti : Uuid) (r : UserSession) (p : Payload)
      → find (λ x. x.jti == jti) db.sessions ≡ some r
      → r.revoked_at ≡ none
      → NoneAdded db (refresh_for_user c s db now r p request fresh).1
  unfolding refresh_for_user
  refresh_for_user-NoneAdded db jti r p e l f = elim (Option-cases (get_user_by_id db r.user_id)) [
    | inl gone ↦
        ground (arith, revoke_token_family-NoneAdded db r.family_id now Revocation.user_inactive f)
    | inr (u, there) ↦ ground (
      arith,
      rotate-NoneAdded db jti r u p e l f,
      revoke_token_family-NoneAdded db r.family_id now Revocation.user_inactive f,
    )
  ]

  refuse_rotated-NoneAdded :
      (db : Db) (r : UserSession) (rotated_at : Time)
      → NoneAdded db (refuse_rotated c s db now r rotated_at).1
  unfolding refuse_rotated
  refuse_rotated-NoneAdded db r rotated_at f =
      ground
        (arith, revoke_token_family-NoneAdded db r.family_id now Revocation.refresh_token_reuse f)

  refresh_record-NoneAdded :
      (db : Db) (jti : Uuid) (r : UserSession) (p : Payload)
      → find (λ x. x.jti == jti) db.sessions ≡ some r
      → NoneAdded db (refresh_record c s db now r p request fresh).1
  unfolding refresh_record
  refresh_record-NoneAdded db jti r p e f = elim (Option-cases r.revoked_at) [
    | inl live ↦ ground (
      arith,
      refresh_for_user-NoneAdded db jti r p e live f,
      revoke-live-le f (λ x. x.id == r.id) (expire_row now) db.sessions
          (λ x. unfold expire_row in refl),
      refuse_rotated-NoneAdded db r (get_or r.rotated_at 0) f,
    )
    | inr (t, revoked) ↦ ground (arith, refuse_rotated-NoneAdded db r (get_or r.rotated_at 0) f)
  ]

  -- The row that a token is matched with is the one found by its `jti`.
  pub session_row-find :
      (db : Db) (token : Token) (p : Payload) (r : UserSession)
      → session_row c s db token p ≡ some r
      → (jti : Uuid) × (p.jti ≡ some jti) × (find (λ x. x.jti == jti) db.sessions ≡ some r)
  unfolding session_row
  session_row-find db token p r e = elim (Option-cases p.jti) [
    | inl absent ↦ absurd (ground arith)
    | inr (jti, there) ↦ (jti, there, ground arith)
  ]

  refresh_decoded-NoneAdded :
      (db : Db) (token : Token) (d : Decoded)
      → NoneAdded db (refresh_decoded c s db now token request fresh d).1
  unfolding refresh_decoded
  refresh_decoded-NoneAdded db token expired_signature f = omega arith
  refresh_decoded-NoneAdded db token invalid_token f = omega arith
  refresh_decoded-NoneAdded db token (claims p) f =
      elim (Option-cases (session_row c s db token p)) [
        | inl unknown ↦ rw (unknown, refresh_decoded) (omega arith)
        | inr (r, e) ↦
            let (jti, _, found) = session_row-find db token p r e in
            rw (e, refresh_decoded) (refresh_record-NoneAdded db jti r p found f)
      ]

  pub refresh_session-NoneAdded :
      (db : Db) (token : Token) → NoneAdded db (refresh_session c s db now token request fresh).1
  unfolding refresh_session
  refresh_session-NoneAdded db token = refresh_decoded-NoneAdded db token _

pub revoke_current_session-NoneAdded :
    (c : Crypto) (db : Db) (now : Time) (token : Option Token)
    → NoneAdded db (revoke_current_session c db now token)
unfolding revoke_current_session
revoke_current_session-NoneAdded c db now none f = omega arith
revoke_current_session-NoneAdded c db now (some token) f =
    elim (Option-cases (logout_row db (decode_jwt c now token refresh))) [
      | inl unknown ↦ rw (unknown, revoke_current_session) (omega arith)
      | inr (r, e) ↦
          rw (e, revoke_current_session)
            (revoke_token_family-NoneAdded db r.family_id now Revocation.logout f)
    ]

-- A row of a family that no row has.
added-live-le :
    (f : Uuid) (rows : List UserSession) (new : UserSession)
    → count (λ r. r.family_id == new.family_id) rows ≡ 0
    → count (live_in f) rows ≤ 1
    → count (live_in f) (rows ++ new ∷ []) ≤ 1
unfolding count live_in
added-live-le f rows new h single =
    ground (arith, count-append (live_in f) rows (new ∷ []), live-le-family f rows)

-- A new session: its family is fresh, so no row has it.
pub issue_session-IsSingleLive :
    (c : Crypto) (s : Settings) (db : Db) (now : Time) (u : User) (request : Request)
    (amr : Option (List String)) (family_id : Uuid) (fresh : Fresh)
    → count (λ r. r.family_id == family_id) db.sessions ≡ 0
    → IsSingleLive db
    → IsSingleLive (issue_session c s db now u request amr family_id fresh).1
unfolding issue_session
issue_session-IsSingleLive c s db now u request amr family_id fresh h single f =
    added-live-le f db.sessions _ h (single f)
