-- ===== src/Auth/Mfa/Codes.antt =====
-- Recovery codes: what a user may type, and that a code is good for one use.
use open_city_planner.Base.{
  Bool, Text, is_digit, take, All, filter, ℕ, ◌||◌, ◌++◌, ◌≡◌, lower, ◌∷◌, drop, leb, true, ◌&&◌,
  arith, [], refl, count, ap, ◌∙◌, take-append-drop, Uuid, sym, Time, Digest, List, ◌==◌, ◌≤◌, some,
  none, find, update, ◌+◌, count-update-lt, find_holds, Option-cases, inl, inr,
  find-eq-none_of_count,
}
use open_city_planner.Auth.Store.{Settings, Db, MfaMethod, RecoveryCode, ok}
use open_city_planner.Auth.Mfa.Factors.{
  MfaCrypto, recovery_code_hash, normalize_recovery_code, format_recovery_code, consume_recovery,
  is_unused_code, Used, use_code,
}

-- a character of the codes' alphabet: a capital letter or a digit
unfoldable pub is_code_char : ℕ → Bool
unfolding is_digit
is_code_char c = is_digit c || leb b'A' c && leb c b'Z'

abbrev pub IsCode : Text → Type 0
IsCode = All (λ c. is_code_char c ≡ true)

normalize-append :
    (a b : Text)
    → normalize_recovery_code (a ++ b) ≡ normalize_recovery_code a ++ normalize_recovery_code b
unfolding normalize_recovery_code filter
normalize-append [] b = refl
normalize-append (x ∷ a) b = ground (arith, normalize-append a b)

normalize_code : (raw : Text) → IsCode raw → normalize_recovery_code raw ≡ raw
unfolding normalize_recovery_code filter is_code_char
normalize_code [] h = refl
normalize_code (x ∷ raw) h = ground (arith, normalize_code raw h.1)

normalize_lower :
    (code : Text) → normalize_recovery_code (lower code) ≡ normalize_recovery_code code
unfolding normalize_recovery_code filter lower
normalize_lower [] = refl
normalize_lower (x ∷ code) = ground (arith, normalize_lower code)

drop_eight : (raw : Text) → drop 8 raw ≡ drop 4 (drop 4 raw)
drop_eight [] = refl
drop_eight (a ∷ []) = refl
drop_eight (a ∷ b ∷ []) = refl
drop_eight (a ∷ b ∷ c ∷ []) = refl
drop_eight (a ∷ b ∷ c ∷ d ∷ raw) = refl

-- a dash is dropped
normalize_dash :
    (code : Text) → normalize_recovery_code (b'-' ∷ code) ≡ normalize_recovery_code code
unfolding normalize_recovery_code filter
normalize_dash code = refl

split_twice : (raw : Text) → take 4 raw ++ (take 4 (drop 4 raw) ++ drop 8 raw) ≡ raw
split_twice raw =
    rw (drop_eight raw)
      (ap (◌++◌ (take 4 raw)) (take-append-drop 4 (drop 4 raw)) ∙ take-append-drop 4 raw)

-- A code is recognised as it is shown, in groups with dashes, as it is typed in small letters, and
-- without its dashes: all of these have the hash of the code that was drawn.
pub normalize-format_recovery_code :
    (c : MfaCrypto) (raw : Text)
    → IsCode raw
    → (normalize_recovery_code (format_recovery_code raw) ≡ raw)
      × (recovery_code_hash c (format_recovery_code raw) ≡ recovery_code_hash c raw)
      × (recovery_code_hash c (lower (format_recovery_code raw)) ≡ recovery_code_hash c raw)
unfolding recovery_code_hash
normalize-format_recovery_code c raw h = (
  shown,
  ap c.recovery_hmac (shown ∙ sym (normalize_code raw h)),
  ap c.recovery_hmac
      (normalize_lower (format_recovery_code raw) ∙ (shown ∙ sym (normalize_code raw h))),
)
  where
    shown : normalize_recovery_code (format_recovery_code raw) ≡ raw
    shown =
        unfold format_recovery_code in
        simp (normalize-append, normalize_dash)
          (simp (← normalize-append) (rw split_twice (normalize_code raw h)))

unused-le :
    (u : Uuid) (h : Digest) (rows : List RecoveryCode)
    → count (is_unused_code u h) rows ≤ count (λ r. r.code_hash == h) rows
unfolding count is_unused_code
unused-le u h [] = omega arith
unused-le u h (r ∷ rows) = ground (arith, unused-le u h rows)

refused :
    (c : MfaCrypto) (s : Settings) (db : Db) (now : Time) (m : MfaMethod) (code : Text)
    → find (is_unused_code m.user_id (recovery_code_hash c code)) db.recovery_codes ≡ none
    → consume_recovery c s db now m code ≡ (ok none, db)
unfolding consume_recovery
refused c s db now m code e = ground arith

-- A recovery code is good for one use, and the digests of the codes are unique, as the column is:
-- after it was accepted, no spelling of it is accepted again, at any time.
pub consume_recovery_once :
    (c : MfaCrypto) (s : Settings) (db : Db) (now later : Time) (m : MfaMethod) (code code' : Text)
    (db' : Db)
    → count (λ r. r.code_hash == recovery_code_hash c code) db.recovery_codes ≤ 1
    → consume_recovery c s db now m code ≡ (ok (some Used.recovery), db')
    → normalize_recovery_code code' ≡ normalize_recovery_code code
    → consume_recovery c s db' later m code' ≡ (ok none, db')
unfolding consume_recovery
consume_recovery_once c s db now later m code code' db' unique e same =
    elim (Option-cases
      (find (is_unused_code m.user_id (recovery_code_hash c code)) db.recovery_codes)) [
        | inl unknown ↦ absurd (ground arith)
        | inr (r, found) ↦
            let h : recovery_code_hash c code' ≡ recovery_code_hash c code =
              unfold recovery_code_hash in ap c.recovery_hmac same in
            let gone =
              find-eq-none_of_count (is_unused_code m.user_id (recovery_code_hash c code))
                (update (λ x. x.id == r.id) (use_code now) db.recovery_codes)
                (omega (
                  arith,
                  unique,
                  used_up m.user_id (recovery_code_hash c code) now r db.recovery_codes found,
                  unused-le m.user_id (recovery_code_hash c code) db.recovery_codes,
                )) in
            let rows : db'.recovery_codes
                ≡ update (λ x. x.id == r.id) (use_code now) db.recovery_codes =
              ground arith in
            refused c s db' later m code' (rw (h, rows) gone)
      ]
  where
    used_up :
        (u : Uuid) (h : Digest) (t : Time) (r : RecoveryCode) (rows : List RecoveryCode)
        → find (is_unused_code u h) rows ≡ some r
        → count (is_unused_code u h) (update (λ x. x.id == r.id) (use_code t) rows) + 1
          ≤ count (is_unused_code u h) rows
    used_up u h t r rows f =
        count-update-lt (is_unused_code u h) (is_unused_code u h) (λ x. x.id == r.id) (use_code t)
          rows r f (find_holds (is_unused_code u h) rows r f) (ground arith)
          (λ x _. unfold is_unused_code use_code in ground arith)
