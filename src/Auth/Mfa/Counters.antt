-- ===== src/Auth/Mfa/Counters.antt =====
-- TOTP counters: which codes match, and that none is accepted twice.
use open_city_planner.Base.{
  Digest, Time, Text, ◌≤◌, ℕ, ◌≡◌, ◌<◌, ◌/◌, ◌+◌, some, text_eq, strip, true, length, arith,
  all_digits, update, suc, Bool-cases, ◌==◌, inl, none, inr, zero, Option-cases, ◌-◌, ◌*◌,
}
use open_city_planner.Auth.Store.{Settings, Db, MfaMethod, ok}
use open_city_planner.Auth.Mfa.Factors.{
  MfaCrypto, match_from, consume_totp, matching_counter, Used, is_fresh_counter, count_used,
}

match_from_sound :
    (c : MfaCrypto) (secret : Digest) (code : Text) (rounds counter k : ℕ)
    → match_from c secret code rounds counter ≡ some k
    → (counter ≤ k) × (k < counter + rounds) × (text_eq (c.totp_at secret k) code ≡ true)
unfolding match_from
match_from_sound c secret code zero counter k e = absurd (ground arith)
match_from_sound c secret code (suc rounds) counter k e =
    elim (Bool-cases (text_eq (c.totp_at secret counter) code)) [
      | inl hit ↦ let e' : counter ≡ k = ground arith in (ground arith, ground arith, rw (← e') hit)
      | inr miss ↦
          let (a, b, d) = match_from_sound c secret code rounds (counter + 1) k (ground arith) in
          (ground arith, ground arith, d)
    ]

match_from_first :
    (c : MfaCrypto) (secret : Digest) (code : Text) (rounds counter j : ℕ)
    → counter ≤ j
    → j < counter + rounds
    → text_eq (c.totp_at secret j) code ≡ true
    → (k : ℕ) × (match_from c secret code rounds counter ≡ some k) × (k ≤ j)
unfolding match_from
match_from_first c secret code zero counter j a b h = absurd (omega arith)
match_from_first c secret code (suc rounds) counter j a b h =
    elim (Bool-cases (text_eq (c.totp_at secret counter) code)) [
      | inl hit ↦ (counter, rw hit, a)
      | inr miss ↦
          let (k, found, le) =
            match_from_first c secret code rounds (counter + 1) j (ground arith) (omega arith) h in
          (k, rw miss found, le)
    ]

module _ (c : MfaCrypto) (s : Settings) where
  -- A six-digit code matches exactly when some counter of the window has it, and the counter
  -- that is returned is in the window and has the code. The window is the current half minute and
  -- `mfa_totp_valid_window` half minutes on each side.
  pub matching_counter_exact :
      (now : Time) (secret : Digest) (code : Text)
      → s.mfa_totp_valid_window ≤ now / 30
      → ((k : ℕ)
          → matching_counter c s now secret code ≡ some k
          → (now / 30 ≤ k + s.mfa_totp_valid_window)
            × (k ≤ now / 30 + s.mfa_totp_valid_window)
            × (text_eq (c.totp_at secret k) code ≡ true)
            × (length code ≡ 6)
            × (all_digits code ≡ true))
        × ((j : ℕ)
            → now / 30 ≤ j + s.mfa_totp_valid_window
            → j ≤ now / 30 + s.mfa_totp_valid_window
            → text_eq (c.totp_at secret j) code ≡ true
            → length code ≡ 6
            → all_digits code ≡ true
            → (k : ℕ) × (matching_counter c s now secret code ≡ some k) × (k ≤ j))
  unfolding matching_counter
  matching_counter_exact now secret code ok_clock = (
    λ k e.
        let low = now / 30 - s.mfa_totp_valid_window in
        let rounds = 2 * s.mfa_totp_valid_window + 1 in
        let (a, b, hit) = match_from_sound c secret code rounds low k (ground arith) in
        (omega arith, omega arith, hit, ground arith, ground arith),
    λ j a b h six digits.
        let low = now / 30 - s.mfa_totp_valid_window in
        let rounds = 2 * s.mfa_totp_valid_window + 1 in
        let (k, found, le) =
          match_from_first c secret code rounds low j (omega arith) (omega arith) h in
        (k, ground arith, le),
  )

  -- A TOTP code is accepted at most once. An accepted code belongs to a counter of the window that
  -- is past every counter accepted before, and the row keeps that counter; no code of that counter
  -- or an earlier one is accepted with the row afterwards, at any time.
  pub consume_totp_once :
      (db : Db) (now : Time) (m : MfaMethod) (code : Text) (db' : Db)
      → consume_totp c s db now m code ≡ (ok (some Used.totp), db')
      → (secret : Digest) × (k : ℕ) × (c.decrypt m.secret_encrypted ≡ some secret)
        × (matching_counter c s now secret (strip code) ≡ some k)
        × (is_fresh_counter m.last_used_counter k ≡ true)
        × (db'.methods ≡ update (λ x. x.id == m.id) (count_used now k) db.methods)
        × ((db'' : Db) (later : Time) (code' : Text) (k' : ℕ)
            → matching_counter c s later secret (strip code') ≡ some k'
            → k' ≤ k
            → consume_totp c s db'' later (count_used now k m) code' ≡ (ok none, db''))
  unfolding consume_totp
  consume_totp_once db now m code db' e = elim (Option-cases (c.decrypt m.secret_encrypted)) [
    | inl broken ↦ absurd (ground arith)
    | inr (secret, plain) ↦ elim (Option-cases (matching_counter c s now secret (strip code))) [
      | inl none_fits ↦ absurd (ground arith)
      | inr (k, hit) ↦ (
        secret,
        k,
        plain,
        hit,
        ground arith,
        ground arith,
        λ db'' later code' k' hit' le. unfold is_fresh_counter count_used in ground arith,
      )
    ]
  ]
