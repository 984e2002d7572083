-- ===== src/Auth/Mfa/Attempts.antt =====
-- How many attempts a login challenge admits.
use open_city_planner.Base.{
  Bool, Time, All, ◌<◌, ◌≤◌, is_some, All-update, leb, ◌==◌, ◌≡◌, ◌+◌, true, arith, Option, Text,
  refl, some, ◌∷◌, none, [], inl, inr, if_cases, Token, Option-cases,
}
use open_city_planner.Auth.Store.{
  Settings, Db, MfaChallenge, User, MfaMethod, Result, raise, ok, Outcome,
}
use open_city_planner.Auth.Mfa.Factors.{
  MfaCrypto, consume_factor, consume_totp, Used, consume_recovery, truthy, enabled_method,
}
use open_city_planner.Auth.Issue.{get_user_by_id}
use open_city_planner.Auth.Mfa.Challenges.{
  verify_login_challenge, invalidate, finish, count_attempt, refuse_factor, try_factor,
  set_challenge, accept_factor, judge_factor, verify_with, verify_challenge, Verified,
  find_challenge,
}

-- The attempts of a challenge never pass the limit, and at the limit it is invalidated.
pub record IsCapped (s : Settings) (ch : MfaChallenge) : Type 0 where
  pub within : ch.attempt_count ≤ s.mfa_max_attempts
  pub closed : s.mfa_max_attempts ≤ ch.attempt_count → is_some ch.invalidated_at ≡ true

count_attempt-IsCapped :
    (s : Settings) (now : Time) (ch x : MfaChallenge)
    → ch.attempt_count < s.mfa_max_attempts
    → IsCapped s (count_attempt ch (leb s.mfa_max_attempts (ch.attempt_count + 1)) now x)
unfolding count_attempt
count_attempt-IsCapped s now ch x h = record { within = ground arith; closed = λ k. ground arith }

invalidate-IsCapped :
    (s : Settings) (now : Time) (x : MfaChallenge) → IsCapped s x → IsCapped s (invalidate now x)
unfolding invalidate
invalidate-IsCapped s now x k = record { within = k.within; closed = λ _. refl }

finish-IsCapped :
    (s : Settings) (now : Time) (x : MfaChallenge) → IsCapped s x → IsCapped s (finish now x)
unfolding finish
finish-IsCapped s now x k = record { within = k.within; closed = k.closed }

abbrev pub AllCapped : Settings → Db → Type 0
AllCapped s db = All (IsCapped s) db.challenges

abbrev Keeps : Settings → Outcome Verified → Type 0
Keeps s o = AllCapped s o.1

-- the consumption of a factor leaves the challenges alone
pub consume_factor-challenges :
    (c : MfaCrypto) (s : Settings) (db : Db) (now : Time) (m : MfaMethod)
    (code recovery_code : Option Text)
    → (consume_factor c s db now m code recovery_code).1.challenges ≡ db.challenges
unfolding consume_factor consume_totp consume_recovery
consume_factor-challenges c s db now m (some (x ∷ code)) r = ground arith
consume_factor-challenges c s db now m (some []) (some r) = ground arith
consume_factor-challenges c s db now m none (some r) = ground arith
consume_factor-challenges c s db now m (some []) none = refl
consume_factor-challenges c s db now m none r = refl

module _ (c : MfaCrypto) (s : Settings) (db : Db) (now : Time) (capped : AllCapped s db) where
  set_challenge-AllCapped :
      (ch : MfaChallenge) (f : MfaChallenge → MfaChallenge)
      → ((x : MfaChallenge) → IsCapped s x → IsCapped s (f x))
      → AllCapped s (set_challenge ch f db)
  unfolding set_challenge
  set_challenge-AllCapped ch f h =
      All-update (IsCapped s) (λ x. x.id == ch.id) f db.challenges (λ x _ k. h x k) capped

  invalidated : (ch : MfaChallenge) → AllCapped s (set_challenge ch (invalidate now) db)
  invalidated ch = set_challenge-AllCapped ch (invalidate now) (invalidate-IsCapped s now)

  refuse_factor-AllCapped :
      (ch : MfaChallenge) (u : User) (with_recovery : Bool)
      → ch.attempt_count < s.mfa_max_attempts
      → AllCapped s (refuse_factor c s db now ch u with_recovery).1
  unfolding refuse_factor set_challenge
  refuse_factor-AllCapped ch u with_recovery h =
      All-update (IsCapped s) (λ x. x.id == ch.id)
        (count_attempt ch (leb s.mfa_max_attempts (ch.attempt_count + 1)) now) db.challenges
        (λ x _ _. count_attempt-IsCapped s now ch x h) capped

  accept_factor-AllCapped :
      (ch : MfaChallenge) (db' : Db) (u : User) (used : Used)
      → db'.challenges ≡ db.challenges
      → AllCapped s (accept_factor c s db now ch db' u used).1
  unfolding accept_factor set_challenge
  accept_factor-AllCapped ch db' u used e = rw e (
      All-update (IsCapped s) (λ x. x.id == ch.id) (finish now) db.challenges
        (λ x _ k. finish-IsCapped s now x k) capped)

  judge_factor-AllCapped :
      (ch : MfaChallenge) (u : User) (with_recovery : Bool) (r : Result (Option Used) × Db)
      → ch.attempt_count < s.mfa_max_attempts
      → r.1.challenges ≡ db.challenges
      → AllCapped s (judge_factor c s db now ch u with_recovery r).1
  unfolding judge_factor
  judge_factor-AllCapped ch u with_recovery (raise e, db') h k = capped
  judge_factor-AllCapped ch u with_recovery (ok none, db') h k =
      refuse_factor-AllCapped ch u with_recovery h
  judge_factor-AllCapped ch u with_recovery (ok (some used), db') h k =
      accept_factor-AllCapped ch db' u used k

  verify_with-AllCapped :
      (ch : MfaChallenge) (m : Option MfaMethod) (u : Option User)
      (code recovery_code : Option Text)
      → ch.attempt_count < s.mfa_max_attempts
      → AllCapped s (verify_with c s db now ch m u code recovery_code).1
  unfolding verify_with try_factor
  verify_with-AllCapped ch (some m) (some u) code recovery_code h =
      if_cases (Keeps s) u.is_active (try_factor c s db now ch u m code recovery_code) _
        (λ _.
          judge_factor-AllCapped ch u (truthy recovery_code)
            (consume_factor c s db now m code recovery_code) h
            (consume_factor-challenges c s db now m code recovery_code))
        (λ _. invalidated ch)
  verify_with-AllCapped ch (some m) none code recovery_code h = invalidated ch
  verify_with-AllCapped ch none u code recovery_code h = invalidated ch

  verify_challenge-AllCapped :
      (ch : MfaChallenge) (code recovery_code : Option Text)
      → AllCapped s (verify_challenge c s db now ch code recovery_code).1
  unfolding verify_challenge
  verify_challenge-AllCapped ch code recovery_code =
      if_cases (Keeps s) (is_some ch.used_at) _ _ (λ _. capped)
        (λ _.
          if_cases (Keeps s) (is_some ch.invalidated_at) _ _ (λ _. capped)
            (λ _.
              if_cases (Keeps s) (leb ch.expires_at now) _ _ (λ _. invalidated ch)
                (λ _.
                  if_cases (Keeps s) (leb s.mfa_max_attempts ch.attempt_count) _ _
                    (λ _. invalidated ch)
                    (λ under.
                      verify_with-AllCapped ch (enabled_method db ch.user_id)
                        (get_user_by_id db ch.user_id) code recovery_code (ground arith)))))

-- No call of the log-in's second step, whatever token and codes it is given, raises the attempts of
-- a challenge past the limit or leaves a challenge at the limit open.
pub verify_login_challenge-AllCapped :
    (c : MfaCrypto) (s : Settings) (db : Db) (now : Time) (token : Token)
    (code recovery_code : Option Text)
    → AllCapped s db
    → AllCapped s (verify_login_challenge c s db now token code recovery_code).1
unfolding verify_login_challenge
verify_login_challenge-AllCapped c s db now token code recovery_code capped =
    elim (Option-cases (find_challenge c db token)) [
      | inl unknown ↦ rw (unknown, verify_login_challenge) capped
      | inr (ch, found) ↦
          rw (found, verify_login_challenge)
            (verify_challenge-AllCapped c s db now capped ch code recovery_code)
    ]
