-- ===== src/Auth/Examples/Mfa.antt =====
-- The theorems on the second factor at a method of `alice`.
use open_city_planner.Auth.Store.{
  Db, MfaMethod, ok, Outcome, MfaChallenge, User, Error, raise, mfa_challenge_used,
}
use open_city_planner.Auth.Mfa.Factors.{
  consume_totp, normalize_recovery_code, matching_counter, format_recovery_code, match_from,
  is_fresh_counter, recovery_code_hash, Used, consume_recovery, is_alnum, count_used,
  is_unused_code, consume_factor, enabled_method, is_enabled_of,
}
use open_city_planner.Auth.Mfa.Codes.{
  is_code_char, IsCode, normalize-format_recovery_code, consume_recovery_once,
}
use open_city_planner.Auth.Examples.{mfa_crypto, tables, settings, alice, request, passwords}
use open_city_planner.Auth.Mfa.Counters.{consume_totp_once, matching_counter_exact}
use open_city_planner.Auth.Mfa.Challenges.{
  create_login_challenge, new_challenge, verify_login_challenge, is_open_for, find_challenge,
  verify_challenge, Verified, verify_with, try_factor, judge_factor, accept_factor,
}
use open_city_planner.Auth.Mfa.Attempts.{AllCapped, verify_login_challenge-AllCapped}
use open_city_planner.Auth.Mfa.Single.{
  create_login_challenge_single, LetsIn, verify_login_challenge_once,
}
use open_city_planner.Auth.Mfa.Manage.{
  Credentials, confirm_totp_setup, disable_mfa, confirm_method, method_of, setup_over,
}
use open_city_planner.Auth.Mfa.Removal.{HasNothing, disable_mfa_all}
use open_city_planner.Auth.Issue.{get_user_by_id}
use open_city_planner.Base.{
  Text, all_digits, Digest, ◌∷◌, is_digit, true, [], text_eq, ◌≡◌, some, ℕ, none, lower, ◌≤◌, arith,
  refl, find, strip, count, update, ◌==◌, filter, upper_char, Bool, ◌&&◌, false, Option, ◌⊎◌,
}

abbrev method : MfaMethod
method = record {
  id = 5;
  user_id = 1;
  secret_encrypted = 77;
  is_enabled = true;
  verified_at = some 100;
  setup_expires_at = none;
  last_used_at = none;
  last_used_counter = none;
}

abbrev raw_code : Text
raw_code = b'A' ∷ b'B' ∷ b'C' ∷ b'D' ∷ b'2' ∷ b'3' ∷ b'4' ∷ b'5' ∷ b'X' ∷ b'Y' ∷ b'7' ∷ b'8' ∷ []

abbrev totp_code : Text
totp_code = b'1' ∷ b'2' ∷ b'3' ∷ b'4' ∷ b'5' ∷ b'6' ∷ []

-- `alice` has a method and one recovery code.
abbrev protected : Db
protected = record tables {
  methods = method ∷ [];
  recovery_codes = record { id = 6; user_id = 1; code_hash = 12; used_at = none } ∷ [];
}

abbrev all_code_chars : Text → Bool
all_code_chars [] = true
all_code_chars (x ∷ code) = is_code_char x && all_code_chars code

all_code_chars-IsCode : (code : Text) → all_code_chars code ≡ true → IsCode code
all_code_chars-IsCode [] h = tt
all_code_chars-IsCode (x ∷ code) h = (ground arith, all_code_chars-IsCode code (ground arith))

is_code : IsCode raw_code
unfolding is_code_char is_digit
is_code = all_code_chars-IsCode raw_code refl

normalize-format_recovery_code_example :
    (normalize_recovery_code (format_recovery_code raw_code) ≡ raw_code)
    × (recovery_code_hash mfa_crypto (format_recovery_code raw_code)
        ≡ recovery_code_hash mfa_crypto raw_code)
    × (recovery_code_hash mfa_crypto (lower (format_recovery_code raw_code))
        ≡ recovery_code_hash mfa_crypto raw_code)
normalize-format_recovery_code_example = normalize-format_recovery_code mfa_crypto raw_code is_code

matching_counter_exact_example :
    (k : ℕ) × (matching_counter mfa_crypto settings 3000 77 totp_code ≡ some k) × (k ≤ 100)
unfolding all_digits is_digit text_eq
matching_counter_exact_example =
    (matching_counter_exact mfa_crypto settings 3000 77 totp_code (omega arith)).1 100 (omega arith)
      (omega arith) refl refl refl

abbrev after_totp : Db
after_totp = (consume_totp mfa_crypto settings protected 3000 method totp_code).1

totp_consumed :
    consume_totp mfa_crypto settings protected 3000 method totp_code
    ≡ (ok (some Used.totp), after_totp)
unfolding consume_totp matching_counter match_from is_fresh_counter strip all_digits text_eq
totp_consumed = refl

consume_totp_once_example :
    (secret : Digest) × (k : ℕ) × (mfa_crypto.decrypt 77 ≡ some secret)
    × (matching_counter mfa_crypto settings 3000 secret (strip totp_code) ≡ some k)
    × (is_fresh_counter none k ≡ true)
    × (after_totp.methods ≡ update (λ x. x.id == 5) (count_used 3000 k) protected.methods)
    × ((db'' : Db) (later : ℕ) (code' : Text) (k' : ℕ)
        → matching_counter mfa_crypto settings later secret (strip code') ≡ some k'
        → k' ≤ k
        → consume_totp mfa_crypto settings db'' later (count_used 3000 k method) code'
          ≡ (ok none, db''))
consume_totp_once_example =
    consume_totp_once mfa_crypto settings protected 3000 method totp_code after_totp totp_consumed

one_code :
    count (λ r. r.code_hash == recovery_code_hash mfa_crypto raw_code) protected.recovery_codes ≤ 1
unfolding count
one_code = ground arith

abbrev after_recovery : Db
after_recovery = (consume_recovery mfa_crypto settings protected 3000 method raw_code).1

recovery_consumed :
    consume_recovery mfa_crypto settings protected 3000 method raw_code
    ≡ (ok (some Used.recovery), after_recovery)
unfolding consume_recovery recovery_code_hash normalize_recovery_code is_alnum filter find
    is_unused_code is_digit upper_char
recovery_consumed = refl

consume_recovery_once_example :
    consume_recovery mfa_crypto settings after_recovery 9000 method raw_code
    ≡ (ok none, after_recovery)
consume_recovery_once_example =
    consume_recovery_once mfa_crypto settings protected 3000 9000 method raw_code raw_code
      after_recovery one_code recovery_consumed refl

no_challenge : find (λ ch. ch.token_hash == mfa_crypto.hash_token 50) protected.challenges ≡ none
unfolding find
no_challenge = refl

abbrev challenged : Db
challenged =
    (create_login_challenge mfa_crypto settings protected 3000 alice request "password" none 8 50).1

create_login_challenge_single_example :
    (count (is_open_for 1) challenged.challenges ≡ 1)
    × (find_challenge mfa_crypto challenged 50
        ≡ some (new_challenge mfa_crypto settings 3000 alice request "password" none 8 50))
create_login_challenge_single_example =
    create_login_challenge_single mfa_crypto settings protected 3000 alice request "password" none 8
      50 no_challenge

challenged_capped : AllCapped settings challenged
unfolding create_login_challenge new_challenge update
challenged_capped = (record { within = omega arith; closed = λ h. absurd (omega arith) }, tt)

verify_login_challenge-AllCapped_example :
    AllCapped settings
      (verify_login_challenge mfa_crypto settings challenged 3001 50 (some (b'0' ∷ [])) none).1
verify_login_challenge-AllCapped_example =
    verify_login_challenge-AllCapped mfa_crypto settings challenged 3001 50 (some (b'0' ∷ [])) none
      challenged_capped

abbrev verified_login : Outcome Verified
verified_login = verify_login_challenge mfa_crypto settings challenged 3001 50 (some totp_code) none

abbrev verified_result : Verified
verified_result = (record alice { last_login_at = some 3001 }, Used.totp, "password")

login_verified : verified_login ≡ (ok verified_result, verified_login.1)
unfolding verify_login_challenge verify_challenge verify_with try_factor judge_factor accept_factor
    consume_factor consume_totp matching_counter match_from is_fresh_counter strip all_digits
    text_eq find_challenge find create_login_challenge new_challenge update enabled_method
    is_enabled_of get_user_by_id
login_verified = refl

verify_login_challenge_once_example :
    ((ch : MfaChallenge) × (m : MfaMethod) × (u : User) × (used : Used) × (find_challenge mfa_crypto
          challenged 50
        ≡ some ch)
      × LetsIn mfa_crypto settings challenged 3001 (some totp_code) none ch m u used
      × (verified_result ≡ (record u { last_login_at = some 3001 }, used, ch.primary_method)))
    × ((later : ℕ) (code' recovery_code' : Option Text)
        → verify_login_challenge mfa_crypto settings verified_login.1 later 50 code' recovery_code'
          ≡ (raise mfa_challenge_used, verified_login.1))
verify_login_challenge_once_example =
    verify_login_challenge_once mfa_crypto settings challenged 3001 50 (some totp_code) none
      verified_result verified_login.1 login_verified

abbrev credentials : Credentials
credentials = record { current_password = none; code = some totp_code; recovery_code = none }

disable_mfa_all_example :
    let r = disable_mfa mfa_crypto settings passwords protected 3000 alice credentials in
    ((r.0 ≡ ok tt) × HasNothing r.1 1) ⊎ ((e : Error) × (r ≡ (raise e, protected)))
disable_mfa_all_example =
    disable_mfa_all mfa_crypto settings passwords protected 3000 alice credentials

abbrev setting_up : Db
setting_up = record tables {
  methods =
      record method { is_enabled = false; verified_at = none; setup_expires_at = some 4000 } ∷ [];
}

abbrev confirmed : Db
confirmed =
    (confirm_totp_setup mfa_crypto settings setting_up 3000 alice totp_code (raw_code ∷ [])
      (7 ∷ [])).1

set_up_confirmed :
    confirm_totp_setup mfa_crypto settings setting_up 3000 alice totp_code (raw_code ∷ []) (7 ∷ [])
    ≡ (ok (raw_code ∷ []), confirmed)
unfolding confirm_totp_setup confirm_method matching_counter match_from all_digits text_eq find
    method_of setup_over
set_up_confirmed = refl
