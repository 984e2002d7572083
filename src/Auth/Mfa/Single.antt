-- ===== src/Auth/Mfa/Single.antt =====
-- A log-in has one open challenge, and a challenge lets in once.
use open_city_planner.Base.{
  Bool, count, Uuid, find, Time, Token, List, Option, update, ◌≡◌, Text, count-update-eq-zero, ◌==◌,
  none, arith, some, count-append, Option-cases, ◌∷◌, inl, [], inr, find-append_none,
  find-update-none, refl, true, ◌<◌, Bool-cases, find-update, ◌∙◌,
}
use open_city_planner.Auth.Mfa.Factors.{MfaCrypto, Used, enabled_method, consume_factor, truthy}
use open_city_planner.Auth.Store.{
  Settings, Db, User, MfaChallenge, Request, MfaMethod, ok, raise, mfa_challenge_used, Result,
}
use Prim.Native.String.{String}
use open_city_planner.Auth.Issue.{get_user_by_id}
use open_city_planner.Auth.Mfa.Attempts.{consume_factor-challenges}
use open_city_planner.Auth.Accounts.{put_user}
use open_city_planner.Auth.Mfa.Challenges.{
  verify_login_challenge, create_login_challenge, is_open_for, invalidate, find_challenge,
  verify_with, Verified, finish, new_challenge, verify_challenge, judge_factor, try_factor,
  refuse_factor, accept_factor, set_challenge, log,
}

open_count-update-zero :
    (user_id : Uuid) (now : Time) (rows : List MfaChallenge)
    → count (is_open_for user_id) (update (is_open_for user_id) (invalidate now) rows) ≡ 0
unfolding is_open_for invalidate
open_count-update-zero user_id now rows =
    count-update-eq-zero (is_open_for user_id) (is_open_for user_id) (invalidate now) rows
      (λ x _. ground arith) (λ x h. h)

-- After a log-in asks for the second factor, exactly one challenge of the user is open: those of
-- earlier log-ins are closed, and the new one is found by its token where no older row has its
-- digest.
pub create_login_challenge_single :
    (c : MfaCrypto) (s : Settings) (db : Db) (now : Time) (u : User) (request : Request)
    (primary_method : String) (redirect_path : Option String) (id : Uuid) (token : Token)
    → find (λ ch. ch.token_hash == c.hash_token token) db.challenges ≡ none
    → (count
          (is_open_for u.id)
          (create_login_challenge c s db now u request primary_method redirect_path id
            token).1.challenges
        ≡ 1)
      × (find_challenge c
            (create_login_challenge c s db now u request primary_method redirect_path id token).1
            token
          ≡ some (new_challenge c s now u request primary_method redirect_path id token))
unfolding create_login_challenge find_challenge count find
create_login_challenge_single c s db now u request primary_method redirect_path id token fresh = (
  unfold new_challenge is_open_for in
      ground (
        arith,
        count-append (is_open_for u.id) (update (is_open_for u.id) (invalidate now) db.challenges)
            (new ∷ []),
        open_count-update-zero u.id now db.challenges,
      ),
  unfold new_challenge in
      ground (
        arith,
        find-append_none (λ ch. ch.token_hash == c.hash_token token)
            (update (is_open_for u.id) (invalidate now) db.challenges) (new ∷ [])
            (find-update-none (λ ch. ch.token_hash == c.hash_token token) (is_open_for u.id)
              (invalidate now) db.challenges (λ x _. unfold invalidate in refl) fresh),
      ),
)
  where
    new : MfaChallenge
    new = new_challenge c s now u request primary_method redirect_path id token

-- What lets a log-in through: an open challenge of an active user with an enabled method, whose
-- factor is consumed.
pub record LetsIn (c : MfaCrypto) (s : Settings) (db : Db) (now : Time)
    (code recovery_code : Option Text) (ch : MfaChallenge) (m : MfaMethod) (u : User) (used : Used)
    : Type 0 where
  pub unused : ch.used_at ≡ none
  pub valid : ch.invalidated_at ≡ none
  pub in_time : now < ch.expires_at
  pub attempts_left : ch.attempt_count < s.mfa_max_attempts
  pub has_method : enabled_method db ch.user_id ≡ some m
  pub has_user : get_user_by_id db ch.user_id ≡ some u
  pub active : u.is_active ≡ true
  pub consumed : (consume_factor c s db now m code recovery_code).0 ≡ ok (some used)

module _ (c : MfaCrypto) (s : Settings) (db : Db) (now : Time) where
  judged :
      (ch : MfaChallenge) (u : User) (with_recovery : Bool) (r : Result (Option Used) × Db)
      (v : Verified) (db' : Db)
      → judge_factor c s db now ch u with_recovery r ≡ (ok v, db')
      → (used : Used) × (r.0 ≡ ok (some used))
        × (db'.challenges ≡ update (λ x. x.id == ch.id) (finish now) r.1.challenges)
        × (v ≡ (record u { last_login_at = some now }, used, ch.primary_method))
  unfolding judge_factor refuse_factor accept_factor set_challenge log put_user
  judged ch u with_recovery (raise e, d) v db' h = absurd (ground arith)
  judged ch u with_recovery (ok none, d) v db' h = absurd (ground arith)
  judged ch u with_recovery (ok (some used), d) v db' h = (used, refl, ground arith, ground arith)

  let_in_with :
      (ch : MfaChallenge) (m : Option MfaMethod) (u : Option User)
      (code recovery_code : Option Text) (v : Verified) (db' : Db)
      → verify_with c s db now ch m u code recovery_code ≡ (ok v, db')
      → (m' : MfaMethod) × (u' : User) × (used : Used) × (m ≡ some m')
        × (u ≡ some u')
        × (u'.is_active ≡ true)
        × ((consume_factor c s db now m' code recovery_code).0 ≡ ok (some used))
        × (db'.challenges ≡ update (λ x. x.id == ch.id) (finish now) db.challenges)
        × (v ≡ (record u' { last_login_at = some now }, used, ch.primary_method))
  unfolding verify_with try_factor
  let_in_with ch (some m) (some u) code recovery_code v db' e = elim (Bool-cases u.is_active) [
    | inl active ↦
        let (used, ok_used, rows, res) =
          judged ch u (truthy recovery_code) (consume_factor c s db now m code recovery_code) v db'
            (ground arith) in
        (
          m,
          u,
          used,
          refl,
          refl,
          active,
          ok_used,
          rw (← consume_factor-challenges c s db now m code recovery_code) rows,
          res,
        )
    | inr passive ↦ absurd (ground arith)
  ]
  let_in_with ch (some m) none code recovery_code v db' e = absurd (ground arith)
  let_in_with ch none u code recovery_code v db' e = absurd (ground arith)

  let_in :
      (ch : MfaChallenge) (code recovery_code : Option Text) (v : Verified) (db' : Db)
      → verify_challenge c s db now ch code recovery_code ≡ (ok v, db')
      → (m : MfaMethod) × (u : User) × (used : Used) × LetsIn c s db now code recovery_code ch m u
          used
        × (db'.challenges ≡ update (λ x. x.id == ch.id) (finish now) db.challenges)
        × (v ≡ (record u { last_login_at = some now }, used, ch.primary_method))
  unfolding verify_challenge
  let_in ch code recovery_code v db' e =
      let (m, u, used, has_method, has_user, active, consumed, rows, res) =
        let_in_with ch (enabled_method db ch.user_id) (get_user_by_id db ch.user_id) code
          recovery_code v db' (ground arith) in
      (
        m,
        u,
        used,
        record {
          unused = ground arith;
          valid = ground arith;
          in_time = ground arith;
          attempts_left = ground arith;
          has_method = has_method;
          has_user = has_user;
          active = active;
          consumed = consumed;
        },
        rows,
        res,
      )

-- The second step of a log-in succeeds only for an open, unexpired challenge with attempts left, of
-- an active user with an enabled method whose factor is consumed by the call; it returns that user.
-- The challenge is used up by it: whatever code is sent with the token afterwards, at any time, the
-- answer is MFA_CHALLENGE_USED, and nothing changes.
pub verify_login_challenge_once :
    (c : MfaCrypto) (s : Settings) (db : Db) (now : Time) (token : Token)
    (code recovery_code : Option Text) (v : Verified) (db' : Db)
    → verify_login_challenge c s db now token code recovery_code ≡ (ok v, db')
    → ((ch : MfaChallenge) × (m : MfaMethod) × (u : User) × (used : Used) × (find_challenge c db
            token
          ≡ some ch)
        × LetsIn c s db now code recovery_code ch m u used
        × (v ≡ (record u { last_login_at = some now }, used, ch.primary_method)))
      × ((later : Time) (code' recovery_code' : Option Text)
          → verify_login_challenge c s db' later token code' recovery_code'
            ≡ (raise mfa_challenge_used, db'))
unfolding verify_login_challenge
verify_login_challenge_once c s db now token code recovery_code v db' e =
    elim (Option-cases (find_challenge c db token)) [
      | inl unknown ↦ absurd (ground arith)
      | inr (ch, found) ↦
          let (m, u, used, lets, rows, res) =
            let_in c s db now ch code recovery_code v db' (ground arith) in
          (
            (ch, m, u, used, found, lets, res),
            λ later code' recovery_code'.
                rw (still_found ch db' rows found, verify_login_challenge)
                  (unfold verify_challenge finish in refl),
          )
    ]
  where
    still_found :
        (ch : MfaChallenge) (d : Db)
        → d.challenges ≡ update (λ x. x.id == ch.id) (finish now) db.challenges
        → find_challenge c db token ≡ some ch
        → find_challenge c d token ≡ some (finish now ch)
    still_found ch d rows found =
        unfold find_challenge in
        rw rows (
          find-update (λ x. x.token_hash == c.hash_token token) (λ x. x.id == ch.id) (finish now)
            db.challenges (λ x _. unfold finish in refl) ch found
          ∙ ground arith)
