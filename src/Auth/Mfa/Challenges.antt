-- ===== src/Auth/Mfa/Challenges.antt =====
-- The login challenges of mfa_service.py.
use open_city_planner.Base.{
  Bool, true, Uuid, Option, Time, List, ℕ, ◌==◌, update, Text, if◌then◌else◌, is_some, some, ◌+◌,
  Token, false, ◌++◌, ◌||◌, ◌∷◌, ◌&&◌, leb, find, none, [], is_none, not, max, ◌-◌,
}
use open_city_planner.Auth.Store.{
  Db, MfaChallenge, Settings, User, Action, MfaMethod, Request, Outcome, ok, raise, Result,
  mfa_too_many_attempts, mfa_challenge_used, mfa_challenge_expired, mfa_challenge_invalid,
  mfa_recovery_code_invalid, mfa_code_invalid, mfa_challenge_blocked, mfa_login_failed,
  mfa_login_success, mfa_recovery_code_used,
}
use open_city_planner.Auth.Accounts.{put_user}
use Prim.Native.String.{String}
use open_city_planner.Auth.Issue.{get_user_by_id}
use open_city_planner.Auth.Mfa.Factors.{MfaCrypto, Used, consume_factor, truthy, enabled_method}

pub data MethodName : Type 0 where
  passkey_method totp_method recovery_code_method : MethodName

unfoldable pub has_unused_code : Db → Uuid → Bool
has_unused_code db user_id =
    is_some (find (λ r. r.user_id == user_id && is_none r.used_at) db.recovery_codes)

unfoldable pub available_mfa_methods : Db → Uuid → List MethodName
unfolding has_unused_code
available_mfa_methods db user_id =
    (if is_some (find (λ u. u == user_id) db.passkeys) then passkey_method ∷ [] else [])
    ++ (if is_some (enabled_method db user_id)
        then totp_method ∷ (if has_unused_code db user_id then recovery_code_method ∷ [] else [])
        else [])

-- The methods are listed in the order of preference. `none` stands for the ValueError.
abbrev method_eq : MethodName → MethodName → Bool
method_eq passkey_method passkey_method = true
method_eq totp_method totp_method = true
method_eq recovery_code_method recovery_code_method = true
method_eq _ _ = false

unfoldable pub offers : MethodName → List MethodName → Bool
offers m [] = false
offers m (x ∷ methods) = method_eq m x || offers m methods

unfoldable pub preferred_mfa_method : List MethodName → Option MethodName
preferred_mfa_method methods =
    if offers passkey_method methods
    then some passkey_method
    else if offers totp_method methods
    then some totp_method
    else if offers recovery_code_method methods
    then some recovery_code_method
    else none

pub record ChallengeDetails : Type 0 where
  pub methods : List MethodName
  pub preferred_method : Option MethodName
  pub expires_in : ℕ

unfoldable pub is_closed : Time → MfaChallenge → Bool
is_closed now ch = is_some ch.used_at || is_some ch.invalidated_at || leb ch.expires_at now

unfoldable pub find_challenge : MfaCrypto → Db → Token → Option MfaChallenge
find_challenge c db token = find (λ ch. ch.token_hash == c.hash_token token) db.challenges

-- `not methods`
abbrev empty_list : List MethodName → Bool
empty_list [] = true
empty_list (_ ∷ _) = false

unfoldable pub user_is_active : Option User → Bool
user_is_active none = false
user_is_active (some u) = u.is_active

unfoldable pub login_challenge_details : MfaCrypto → Db → Time → Token → Result ChallengeDetails
unfolding is_closed find_challenge user_is_active
login_challenge_details c db now token = elim (find_challenge c db token) [
  | none ↦ raise mfa_challenge_expired
  | some ch ↦
      if is_closed now ch
      then raise mfa_challenge_expired
      else (let methods = available_mfa_methods db ch.user_id in
          if not (user_is_active (get_user_by_id db ch.user_id)) || empty_list methods
          then raise mfa_challenge_invalid
          else ok (record {
            methods = methods;
            preferred_method = preferred_mfa_method methods;
            expires_in = max 1 (ch.expires_at - now);
          }))
]

unfoldable pub is_open_for : Uuid → MfaChallenge → Bool
is_open_for user_id ch = ch.user_id == user_id && (is_none ch.used_at && is_none ch.invalidated_at)

unfoldable pub invalidate : Time → MfaChallenge → MfaChallenge
invalidate now ch = record ch { invalidated_at = some now }

unfoldable pub new_challenge :
    MfaCrypto
    → Settings
    → Time
    → User
    → Request
    → String
    → Option String
    → Uuid
    → Token
    → MfaChallenge
new_challenge c s now u request primary_method redirect_path id token = record {
  id = id;
  user_id = u.id;
  token_hash = c.hash_token token;
  primary_method = primary_method;
  redirect_path = redirect_path;
  expires_at = now + s.mfa_challenge_expire_seconds;
  used_at = none;
  invalidated_at = none;
  attempt_count = 0;
  ip_address = request.client_host;
  user_agent = request.user_agent;
}

-- All challenges are login challenges: no other purpose is ever stored.
unfoldable pub create_login_challenge :
    MfaCrypto
    → Settings
    → Db
    → Time
    → User
    → Request
    → String
    → Option String
    → Uuid
    → Token
    → (Token × ℕ) × Db
create_login_challenge c s db now u request primary_method redirect_path id token = (
  (token, s.mfa_challenge_expire_seconds),
  record db {
    challenges =
        update (is_open_for u.id) (invalidate now) db.challenges
        ++ new_challenge c s now u request primary_method redirect_path id token ∷ [];
  },
)

unfoldable pub log : Uuid → Action → Db → Db
log user_id action db = record db {
  audit =
      db.audit
      ++ record {
        actor_user_id = some user_id;
        target_user_id = some user_id;
        action = action;
        resource_id = some user_id;
      }
        ∷ [];
}

unfoldable pub set_challenge : MfaChallenge → (MfaChallenge → MfaChallenge) → Db → Db
set_challenge ch f db = record db { challenges = update (λ x. x.id == ch.id) f db.challenges }

unfoldable pub count_attempt : MfaChallenge → Bool → Time → MfaChallenge → MfaChallenge
count_attempt ch blocked now x = record x {
  attempt_count = ch.attempt_count + 1;
  invalidated_at = if blocked then some now else x.invalidated_at;
}

unfoldable pub finish : Time → MfaChallenge → MfaChallenge
finish now ch = record ch { used_at = some now }

abbrev pub Verified : Type 0
Verified = User × Used × String

module _ (c : MfaCrypto) (s : Settings) (db : Db) (now : Time) (ch : MfaChallenge) where
  -- the factor was refused
  unfoldable pub refuse_factor : User → Bool → Outcome Verified
  unfolding log set_challenge
  refuse_factor u with_recovery =
      let blocked = leb s.mfa_max_attempts (ch.attempt_count + 1) in
      (
        raise (
            if blocked
            then mfa_too_many_attempts
            else if with_recovery
            then mfa_recovery_code_invalid
            else mfa_code_invalid),
        log u.id (if blocked then mfa_challenge_blocked else mfa_login_failed)
            (set_challenge ch (count_attempt ch blocked now) db),
      )

  -- the factor was accepted, with the tables as its consumption leaves them
  unfoldable pub accept_factor : Db → User → Used → Outcome Verified
  unfolding log set_challenge put_user
  accept_factor db' u used = (
    ok (record u { last_login_at = some now }, used, ch.primary_method),
    log u.id (elim used [ Used.totp ↦ mfa_login_success | Used.recovery ↦ mfa_recovery_code_used ])
        (put_user (record u { last_login_at = some now }) (set_challenge ch (finish now) db')),
  )

  -- what the consumption of the factor leads to
  unfoldable pub judge_factor : User → Bool → Result (Option Used) × Db → Outcome Verified
  judge_factor u with_recovery (raise e, db') = (raise e, db)
  judge_factor u with_recovery (ok none, db') = refuse_factor u with_recovery
  judge_factor u with_recovery (ok (some used), db') = accept_factor db' u used

  unfoldable pub try_factor : User → MfaMethod → Option Text → Option Text → Outcome Verified
  try_factor u m code recovery_code =
      judge_factor u (truthy recovery_code) (consume_factor c s db now m code recovery_code)

  -- the part of `verify_login_challenge` from the method and the user on
  unfoldable pub verify_with :
      Option MfaMethod → Option User → Option Text → Option Text → Outcome Verified
  verify_with (some m) (some u) code recovery_code =
      if u.is_active
      then try_factor u m code recovery_code
      else (raise mfa_challenge_invalid, set_challenge ch (invalidate now) db)
  verify_with _ _ code recovery_code =
      (raise mfa_challenge_invalid, set_challenge ch (invalidate now) db)

  -- the part of `verify_login_challenge` from the found row on
  unfoldable pub verify_challenge : Option Text → Option Text → Outcome Verified
  unfolding set_challenge
  verify_challenge code recovery_code =
      if is_some ch.used_at
      then (raise mfa_challenge_used, db)
      else if is_some ch.invalidated_at
      then (raise mfa_challenge_invalid, db)
      else if leb ch.expires_at now
      then (raise mfa_challenge_expired, set_challenge ch (invalidate now) db)
      else if leb s.mfa_max_attempts ch.attempt_count
      then (raise mfa_too_many_attempts, set_challenge ch (invalidate now) db)
      else verify_with (enabled_method db ch.user_id) (get_user_by_id db ch.user_id) code
          recovery_code

unfoldable pub verify_login_challenge :
    MfaCrypto → Settings → Db → Time → Token → Option Text → Option Text → Outcome Verified
verify_login_challenge c s db now token code recovery_code = elim (find_challenge c db token) [
  | none ↦ (raise mfa_challenge_invalid, db)
  | some ch ↦ verify_challenge c s db now ch code recovery_code
]
