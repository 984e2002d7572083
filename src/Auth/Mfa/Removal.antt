-- ===== src/Auth/Mfa/Removal.antt =====
-- The set-up of the second factor and its removal.
use open_city_planner.Base.{
  Bool, count, find, update, Uuid, filter, Time, List, ◌≡◌, none, find-eq-none_of_count, true, some,
  is_some, ◌==◌, false, ◌∷◌, ◌&&◌, arith, not, [], refl, ◌⊎◌, count-update-eq-zero, is_none, inr,
  inl, Text, length, ◌++◌, ℕ, count-append, find_holds, Option-cases,
}
use open_city_planner.Auth.Store.{
  Db, Settings, User, ok, Error, raise, UserSession, Result, Revocation, MfaMethod, Action,
  mfa_was_disabled, RecoveryCode,
}
use open_city_planner.Auth.Mfa.Manage.{
  remove_mfa, disable_mfa, Credentials, verify_sensitive_action, confirm_totp_setup, code_rows,
  confirm_method, security_status, method_of, enable,
}
use open_city_planner.Auth.Accounts.{Passwords}
use open_city_planner.Auth.Sessions.{revoke_all_sessions, live_of}
use open_city_planner.Auth.Mfa.Challenges.{log, is_open_for, invalidate}
use open_city_planner.Auth.Mfa.Factors.{MfaCrypto, enabled_method, is_enabled_of, matching_counter}

filtered_zero {ℓ} :
    {A : Type ℓ} (q p : A → Bool) (xs : List A)
    → ((x : A) → q x ≡ true → p x ≡ false)
    → count q (filter p xs) ≡ 0
unfolding count filter
filtered_zero q p [] h = refl
filtered_zero q p (x ∷ xs) h = ground (arith, h x, filtered_zero q p xs h)

found_after_update {ℓ} :
    {A : Type ℓ} (p q r : A → Bool) (f : A → A) (xs : List A) (a : A)
    → find p xs ≡ some a
    → r a ≡ true
    → q (f a) ≡ true
    → is_some (find q (update r f xs)) ≡ true
unfolding find update
found_after_update p q r f [] a e h k = absurd (ground arith)
found_after_update p q r f (x ∷ xs) a e h k = ground (arith, found_after_update p q r f xs a)

-- What a user has left of the second factor, and of sessions.
pub record HasNothing (db : Db) (user_id : Uuid) : Type 0 where
  pub no_method : enabled_method db user_id ≡ none
  pub no_codes : count (λ r. r.user_id == user_id) db.recovery_codes ≡ 0
  pub no_challenges : count (is_open_for user_id) db.challenges ≡ 0
  pub no_sessions : count (live_of user_id) db.sessions ≡ 0

remove_mfa-HasNothing :
    (d : Db) (now : Time) (user_id : Uuid) → HasNothing (remove_mfa d now user_id) user_id
unfolding remove_mfa revoke_all_sessions enabled_method is_enabled_of
remove_mfa-HasNothing d now user_id = record {
  no_method =
      find-eq-none_of_count (λ m. m.user_id == user_id && m.is_enabled)
        (filter (λ m. not (m.user_id == user_id)) d.methods)
        (filtered_zero _ (λ m. not (m.user_id == user_id)) d.methods (λ m h. ground arith));
  no_codes =
      filtered_zero (λ r. r.user_id == user_id) (λ r. not (r.user_id == user_id)) d.recovery_codes
        (λ r h. ground arith);
  no_challenges =
      count-update-eq-zero (is_open_for user_id) (λ ch. ch.user_id == user_id && is_none ch.used_at)
        (invalidate now) d.challenges (λ x _. unfold is_open_for invalidate in ground arith)
        (λ x h. unfold is_open_for in ground arith);
  no_sessions =
      count-update-eq-zero (live_of user_id) (live_of user_id)
        (λ (x : UserSession). record x {
          revoked_at = some now;
          revocation_reason = some Revocation.mfa_disabled;
        })
        d.sessions (λ x _. unfold live_of in ground arith) (λ x h. h);
}

log-HasNothing :
    (actor : Uuid) (action : Action) (db : Db) (user_id : Uuid)
    → HasNothing db user_id
    → HasNothing (log actor action db) user_id
unfolding log enabled_method
log-HasNothing actor action db user_id h = record {
  no_method = h.no_method;
  no_codes = h.no_codes;
  no_challenges = h.no_challenges;
  no_sessions = h.no_sessions;
}

module _ (c : MfaCrypto) (s : Settings) (pw : Passwords) (db : Db) (now : Time) where
  -- A second factor is disabled as a whole or not at all: where the call succeeds, the user has no
  -- enabled method, no recovery code, no open challenge and no live session left; where it raises,
  -- nothing has changed.
  pub disable_mfa_all :
      (u : User) (k : Credentials)
      → (((disable_mfa c s pw db now u k).0 ≡ ok tt)
          × HasNothing (disable_mfa c s pw db now u k).1 u.id)
        ⊎ ((e : Error) × (disable_mfa c s pw db now u k ≡ (raise e, db)))
  unfolding disable_mfa
  disable_mfa_all u k = go (verify_sensitive_action c s pw db now u k).0 refl
    where
      go :
          (r : Result MfaMethod)
          → (verify_sensitive_action c s pw db now u k).0 ≡ r
          → (((disable_mfa c s pw db now u k).0 ≡ ok tt)
              × HasNothing (disable_mfa c s pw db now u k).1 u.id)
            ⊎ ((e : Error) × (disable_mfa c s pw db now u k ≡ (raise e, db)))
      go (raise e) h = inr (e, ground arith)
      go (ok m) h = inl (
        rw (h, disable_mfa) refl,
        rw (h, disable_mfa)
            (log-HasNothing u.id mfa_was_disabled _ u.id (remove_mfa-HasNothing _ now u.id)),
      )

code_rows-count :
    (c : MfaCrypto) (user_id : Uuid) (codes : List Text) (ids : List Uuid)
    → length ids ≡ length codes
    → count (λ r. r.user_id == user_id && is_none r.used_at) (code_rows c user_id codes ids)
      ≡ length codes
unfolding code_rows count
code_rows-count c user_id [] ids h = refl
code_rows-count c user_id (code ∷ codes) [] h = absurd (omega arith)
code_rows-count c user_id (code ∷ codes) (id ∷ ids) h =
    ground (arith, code_rows-count c user_id codes ids (omega arith))

confirmed :
    (c : MfaCrypto) (s : Settings) (db : Db) (now : Time) (u : User) (code : Text)
    (codes shown : List Text) (ids : List Uuid) (db' : Db)
    → confirm_totp_setup c s db now u code codes ids ≡ (ok shown, db')
    → (m : MfaMethod) × (counter : ℕ) × (method_of db u.id ≡ some m)
      × (db'.methods ≡ update (λ x. x.id == m.id) (enable now counter) db.methods)
      × (db'.recovery_codes
          ≡ filter (λ r. not (r.user_id == u.id)) db.recovery_codes ++ code_rows c u.id codes ids)
      × (shown ≡ codes)
unfolding confirm_totp_setup confirm_method
confirmed c s db now u code codes shown ids db' e = elim (Option-cases (method_of db u.id)) [
  | inl gone ↦ absurd (ground arith)
  | inr (m, found) ↦ elim (Option-cases (c.decrypt m.secret_encrypted)) [
    | inl broken ↦ absurd (ground arith)
    | inr (secret, plain) ↦ elim (Option-cases (matching_counter c s now secret code)) [
      | inl miss ↦ absurd (ground arith)
      | inr (counter, hit) ↦ (m, counter, found, ground arith, ground arith, ground arith)
    ]
  ]
]

method_on :
    (db db' : Db) (now : Time) (counter : ℕ) (user_id : Uuid) (m : MfaMethod)
    → method_of db user_id ≡ some m
    → db'.methods ≡ update (λ x. x.id == m.id) (enable now counter) db.methods
    → is_some (enabled_method db' user_id) ≡ true
unfolding method_of enabled_method
method_on db db' now counter user_id m found e = rw e (
    found_after_update (λ x. x.user_id == user_id) (is_enabled_of user_id) (λ x. x.id == m.id)
      (enable now counter) db.methods m found (ground arith)
      (owned (find_holds (λ x. x.user_id == user_id) db.methods m found)))
  where
    owned : (m.user_id == user_id) ≡ true → is_enabled_of user_id (enable now counter m) ≡ true
    owned h = unfold is_enabled_of enable in ground arith

codes_left :
    (db db' : Db) (c : MfaCrypto) (user_id : Uuid) (codes : List Text) (ids : List Uuid)
    → length ids ≡ length codes
    → db'.recovery_codes
      ≡ filter (λ r. not (r.user_id == user_id)) db.recovery_codes ++ code_rows c user_id codes ids
    → count (λ r. r.user_id == user_id && is_none r.used_at) db'.recovery_codes ≡ length codes
codes_left db db' c user_id codes ids h e = rw e (
    omega (
      arith,
      count-append (λ (r : RecoveryCode). r.user_id == user_id && is_none r.used_at)
          (filter (λ r. not (r.user_id == user_id)) db.recovery_codes)
          (code_rows c user_id codes ids),
      filtered_zero (λ (r : RecoveryCode). r.user_id == user_id && is_none r.used_at)
          (λ r. not (r.user_id == user_id)) db.recovery_codes (λ r k. ground arith),
      code_rows-count c user_id codes ids h,
    ))

remaining :
    (db : Db) (user_id : Uuid) (codes : List Text)
    → is_some (enabled_method db user_id) ≡ true
    → count (λ r. r.user_id == user_id && is_none r.used_at) db.recovery_codes ≡ length codes
    → (security_status db user_id).recovery_codes_remaining ≡ length codes
unfolding security_status
remaining db user_id codes on n = ground arith

-- A confirmed set-up is in force: where the call returns codes, the status of the user's account is
-- enabled, and it counts exactly these codes as unused, older ones being gone.
confirm_totp_setup-enabled :
    (c : MfaCrypto) (s : Settings) (db : Db) (now : Time) (u : User) (code : Text)
    (codes shown : List Text) (ids : List Uuid) (db' : Db)
    → length ids ≡ length codes
    → confirm_totp_setup c s db now u code codes ids ≡ (ok shown, db')
    → (shown ≡ codes)
      × ((security_status db' u.id).enabled ≡ true)
      × ((security_status db' u.id).recovery_codes_remaining ≡ length codes)
confirm_totp_setup-enabled c s db now u code codes shown ids db' h e =
    let (m, counter, found, methods, rows, same) =
      confirmed c s db now u code codes shown ids db' e in
    let on : is_some (enabled_method db' u.id) ≡ true =
      method_on db db' now counter u.id m found methods in
    (
      same,
      unfold security_status in ground arith,
      remaining db' u.id codes on (codes_left db db' c u.id codes ids h rows),
    )
