-- ===== src/Auth/Passwords/Reset.antt =====
-- What a password reset leaves behind.
use open_city_planner.Base.{
  Bool, Time, Uuid, count, List, ◌≡◌, ◌≤◌, update, ◌&&◌, count-update-le, ◌==◌, arith,
  count-update-eq-zero, not, ◌∷◌, Digest, find, Token, some, find-update, Text, ◌∙◌, refl, true,
  ◌<◌, Option-cases, inl, inr, [], find_holds,
}
use open_city_planner.Auth.Store.{
  Db, ResetToken, Revocation, UserSession, User, ok, raise, invalid_reset_token, password_reset,
}
use open_city_planner.Auth.Sessions.{revoke_all_sessions, live_of}
use open_city_planner.Auth.Accounts.{Passwords, is_valid_password, put_user}
use open_city_planner.Auth.Jwt.{Crypto}
use open_city_planner.Auth.Issue.{get_user_by_id}
use open_city_planner.Auth.Passwords.{
  close_tokens, open_for, use_at, invalidate_at, reset_password, reset_with, is_open,
  reset_for_user,
}

-- At most one reset link of each user is open.
abbrev pub IsSingleOpen : Db → Type 0
IsSingleOpen db = (user_id : Uuid) → count (open_for user_id) db.reset_tokens ≤ 1

use_at-open-le :
    (user_id : Uuid) (now : Time) (p : ResetToken → Bool) (tokens : List ResetToken)
    → count (open_for user_id) (update p (use_at now) tokens) ≤ count (open_for user_id) tokens
unfolding open_for use_at
use_at-open-le user_id now p tokens =
    count-update-le (open_for user_id) p (use_at now) tokens (λ t _. ground arith)

pub invalidate_at-open-le :
    (user_id : Uuid) (now : Time) (p : ResetToken → Bool) (tokens : List ResetToken)
    → count (open_for user_id) (update p (invalidate_at now) tokens)
      ≤ count (open_for user_id) tokens
unfolding open_for invalidate_at
invalidate_at-open-le user_id now p tokens =
    count-update-le (open_for user_id) p (invalidate_at now) tokens (λ t _. ground arith)

-- `close_tokens` leaves no token of the user open.
closed_open_zero :
    (now : Time) (r : ResetToken) (tokens : List ResetToken)
    → count (open_for r.user_id) (close_tokens now r tokens) ≡ 0
unfolding close_tokens count update open_for use_at invalidate_at
closed_open_zero now r [] = refl
closed_open_zero now r (t ∷ tokens) = ground (arith, closed_open_zero now r tokens)

pub close_tokens-open-le :
    (user_id : Uuid) (now : Time) (r : ResetToken) (tokens : List ResetToken)
    → count (open_for user_id) (close_tokens now r tokens) ≤ count (open_for user_id) tokens
unfolding close_tokens
close_tokens-open-le user_id now r tokens = omega (
  arith,
  invalidate_at-open-le user_id now (λ t. open_for r.user_id t && not (t.id == r.id))
      (update (λ t. t.id == r.id) (use_at now) tokens),
  use_at-open-le user_id now (λ t. t.id == r.id) tokens,
)

-- The used token is still found by its digest, and is used.
pub closed_found :
    (now : Time) (r : ResetToken) (h : Digest) (tokens : List ResetToken)
    → find (λ t. t.token_hash == h) tokens ≡ some r
    → find (λ t. t.token_hash == h) (close_tokens now r tokens) ≡ some (use_at now r)
unfolding close_tokens
closed_found now r h tokens e =
    find-update (λ t. t.token_hash == h) (λ t. open_for r.user_id t && not (t.id == r.id))
      (invalidate_at now) (update (λ t. t.id == r.id) (use_at now) tokens)
      (λ t _. unfold invalidate_at in refl) (use_at now r)
      (find-update (λ t. t.token_hash == h) (λ t. t.id == r.id) (use_at now) tokens
          (λ t _. unfold use_at in refl) r e
        ∙ ground arith)
    ∙ unfold use_at in ground arith

live_of_revoked :
    (db : Db) (user_id : Uuid) (now : Time) (reason : Revocation)
    → count (live_of user_id) (revoke_all_sessions db user_id now reason).sessions ≡ 0
unfolding revoke_all_sessions live_of
live_of_revoked db user_id now reason =
    count-update-eq-zero (live_of user_id) (live_of user_id)
      (λ (x : UserSession). record x { revoked_at = some now; revocation_reason = some reason })
      db.sessions (λ x _. ground arith) (λ x h. h)

pub user_of : (id : Uuid) (db : Db) (u : User) → get_user_by_id db id ≡ some u → u.id ≡ id
unfolding get_user_by_id
user_of id db u e = ground (arith, find_holds (λ x. x.id == id) db.users u e)

module _ (pw : Passwords) (c : Crypto) where
  -- what a successful reset goes through
  pub reset_password_steps :
      (db : Db) (now : Time) (token : Token) (password : Text) (u : User) (db' : Db)
      → reset_password pw c db now token password ≡ (ok u, db')
      → (r : ResetToken) × (old : User) × (find
            (λ t. t.token_hash == c.hash_token token)
            db.reset_tokens
          ≡ some r)
        × (get_user_by_id db r.user_id ≡ some old)
        × (is_open r ≡ true)
        × (now < r.expires_at)
        × (is_valid_password password ≡ true)
        × (reset_for_user pw db now r old password ≡ (ok u, db'))
  unfolding reset_password reset_with is_open
  reset_password_steps db now token password u db' e =
      elim (Option-cases (find (λ t. t.token_hash == c.hash_token token) db.reset_tokens)) [
        | inl unknown ↦ absurd (ground arith)
        | inr (r, found) ↦ elim (Option-cases (get_user_by_id db r.user_id)) [
          | inl gone ↦ absurd (ground arith)
          | inr (old, there) ↦
              (r, old, found, there, ground arith, ground arith, ground arith, ground arith)
        ]
      ]

  pub for_user_facts :
      (db : Db) (now : Time) (r : ResetToken) (old u : User) (password : Text) (db' : Db)
      → reset_for_user pw db now r old password ≡ (ok u, db')
      → (u.id ≡ old.id)
        × (db'.reset_tokens ≡ close_tokens now r db.reset_tokens)
        × (db'.sessions ≡ (revoke_all_sessions db old.id now password_reset).sessions)
        × (db'.users ≡ (put_user u db).users)
        × (u ≡ record old { password_hash = some (pw.hash password); updated_at = now })
  unfolding reset_for_user revoke_all_sessions put_user
  for_user_facts db now r old u password db' e = ground arith

  -- A reset link is good for one reset, and a reset logs the user out everywhere: after it, the same
  -- link is refused at any time and for any acceptable password without a change, no reset link of
  -- the user is open and no session of the user is live.
  pub reset_password_once :
      (db : Db) (now later : Time) (token : Token) (password password' : Text) (u : User) (db' : Db)
      → reset_password pw c db now token password ≡ (ok u, db')
      → is_valid_password password' ≡ true
      → (reset_password pw c db' later token password' ≡ (raise invalid_reset_token, db'))
        × (count (open_for u.id) db'.reset_tokens ≡ 0)
        × (count (live_of u.id) db'.sessions ≡ 0)
  reset_password_once db now later token password password' u db' e valid =
      let (r, old, found, there, _, _, _, done) =
        reset_password_steps db now token password u db' e in
      let (same, tokens, sessions, _, _) = for_user_facts db now r old u password db' done in
      let owner : u.id ≡ r.user_id = same ∙ user_of r.user_id db old there in
      (
        again db' later r password' valid
            (rw tokens (closed_found now r (c.hash_token token) db.reset_tokens found)),
        rw (owner, tokens) (closed_open_zero now r db.reset_tokens),
        rw (same, sessions) (live_of_revoked db old.id now password_reset),
      )
    where
      again :
          (d : Db) (t : Time) (r : ResetToken) (p : Text)
          → is_valid_password p ≡ true
          → find (λ x. x.token_hash == c.hash_token token) d.reset_tokens ≡ some (use_at now r)
          → reset_password pw c d t token p ≡ (raise invalid_reset_token, d)
      again d t r p v f = unfold reset_password reset_with use_at in ground arith
