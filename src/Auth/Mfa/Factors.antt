-- ===== src/Auth/Mfa/Factors.antt =====
-- The factors of mfa_service.py: TOTP codes and recovery codes.
use open_city_planner.Auth.Store.{
  Db, Settings, MfaMethod, RecoveryCode, Result, ok, raise, assertion_failed,
  mfa_secret_configuration_error,
}
use open_city_planner.Base.{
  Bool, upper_char, is_digit, Uuid, Text, Digest, Option, Time, Token, ℕ, filter, take, false, ◌++◌,
  ◌||◌, true, ◌==◌, if◌then◌else◌, find, some, map, none, suc, not, ◌∷◌, ◌&&◌, leb, length, update,
  drop, ◌+◌, [], is_none, strip, text_eq, all_digits, zero, ◌*◌, ◌/◌, ◌-◌,
}

-- `totp_at secret counter` is the code of pyotp at a counter; `decrypt` is `none` where it raises
-- MfaEncryptionError; `recovery_hmac` is the HMAC under the configured pepper.
pub record MfaCrypto : Type 0 where
  pub hash_token : Token → Digest
  pub encrypt : Digest → Option Digest
  pub decrypt : Digest → Option Digest
  pub totp_at : Digest → ℕ → Text
  pub recovery_hmac : Text → Digest

unfoldable pub is_alnum : ℕ → Bool
unfolding is_digit
is_alnum c = is_digit c || leb b'A' c && leb c b'Z' || leb b'a' c && leb c b'z'

unfoldable pub normalize_recovery_code : Text → Text
unfolding is_alnum upper_char
normalize_recovery_code code = filter is_alnum (map upper_char code)

unfoldable pub recovery_code_hash : MfaCrypto → Text → Digest
recovery_code_hash c code = c.recovery_hmac (normalize_recovery_code code)

-- `"-".join((raw[:4], raw[4:8], raw[8:]))`
unfoldable pub format_recovery_code : Text → Text
format_recovery_code raw = take 4 raw ++ b'-' ∷ (take 4 (drop 4 raw) ++ b'-' ∷ drop 8 raw)

-- `none` where no counter of the window has the code. `rounds` counters are left, from `counter`.
unfoldable pub match_from : MfaCrypto → Digest → Text → ℕ → ℕ → Option ℕ
match_from c secret code zero counter = none
match_from c secret code (suc rounds) counter =
    let rest = match_from c secret code rounds (counter + 1) in
    if text_eq (c.totp_at secret counter) code then some counter else rest

-- The clock is past the window: `now / 30` is at least `mfa_totp_valid_window`.
unfoldable pub matching_counter : MfaCrypto → Settings → Time → Digest → Text → Option ℕ
unfolding match_from
matching_counter c s now secret code =
    if not (length code == 6) || not (all_digits code)
    then none
    else match_from c secret code (2 * s.mfa_totp_valid_window + 1)
        (now / 30 - s.mfa_totp_valid_window)

unfoldable pub is_enabled_of : Uuid → MfaMethod → Bool
is_enabled_of user_id m = m.user_id == user_id && m.is_enabled

unfoldable pub enabled_method : Db → Uuid → Option MfaMethod
enabled_method db user_id = find (is_enabled_of user_id) db.methods

pub data Used : Type 0 where
  totp recovery : Used

unfoldable pub is_fresh_counter : Option ℕ → ℕ → Bool
is_fresh_counter none counter = true
is_fresh_counter (some last) counter = not (leb counter last)

unfoldable pub count_used : Time → ℕ → MfaMethod → MfaMethod
count_used now counter m = record m { last_used_counter = some counter; last_used_at = some now }

unfoldable pub is_unused_code : Uuid → Digest → RecoveryCode → Bool
is_unused_code user_id h r = r.user_id == user_id && (r.code_hash == h && is_none r.used_at)

unfoldable pub use_code : Time → RecoveryCode → RecoveryCode
use_code now r = record r { used_at = some now }

-- `if code`
unfoldable pub truthy : Option Text → Bool
truthy none = false
truthy (some []) = false
truthy (some (_ ∷ _)) = true

module _ (c : MfaCrypto) (s : Settings) (db : Db) (now : Time) (m : MfaMethod) where
  unfoldable pub consume_totp : Text → Result (Option Used) × Db
  unfolding count_used
  consume_totp code = elim (c.decrypt m.secret_encrypted) [
    | none ↦ (raise mfa_secret_configuration_error, db)
    | some secret ↦ elim (matching_counter c s now secret (strip code)) [
      | none ↦ (ok none, db)
      | some counter ↦
          if is_fresh_counter m.last_used_counter counter
          then (
            ok (some totp),
            record db { methods = update (λ x. x.id == m.id) (count_used now counter) db.methods },
          )
          else (ok none, db)
    ]
  ]

  unfoldable pub consume_recovery : Text → Result (Option Used) × Db
  unfolding use_code
  consume_recovery recovery_code =
      elim (find (is_unused_code m.user_id (recovery_code_hash c recovery_code))
        db.recovery_codes) [
          | none ↦ (ok none, db)
          | some r ↦ (
            ok (some recovery),
            record db {
              recovery_codes = update (λ x. x.id == r.id) (use_code now) db.recovery_codes;
              methods =
                  update (λ x. x.id == m.id) (λ x. record x { last_used_at = some now }) db.methods;
            },
          )
        ]

  -- `ok none` where the factor is not accepted
  unfoldable pub consume_factor : Option Text → Option Text → Result (Option Used) × Db
  consume_factor (some (x ∷ code)) recovery_code = consume_totp (x ∷ code)
  consume_factor _ none = (raise assertion_failed, db)
  consume_factor _ (some recovery_code) = consume_recovery recovery_code
