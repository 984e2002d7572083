-- ===== src/Limits/Attempts.antt =====
-- How many of a sequence of attempts, of one key among others, the memory backend allows.
use open_city_planner.Limits.{
  LimitSettings, Reply, limited, allowed, Window, check_rate_limit, unavailable, with_current,
  is_running, from_memory, check_memory, count_up, judge, current_window, has_key,
}
use open_city_planner.Limits.Rows.{evict-fits, length-filter-le}
use open_city_planner.Limits.Fixed.{IsCounted, running_kept, IsCounted-own, IsCounted-other}
use open_city_planner.Base.{
  if◌then◌else◌, Bool, Time, ℕ, true, false, Option, List, ◌≡◌, ◌≤◌, ◌<◌, ◌∷◌, get_or, ◌+◌, filter,
  length, ◌*◌, ◌==◌, ap, refl, not, ◌∙◌, ◌&&◌, ltb, [], arith, Bool-cases, inl, length-append, inr,
  max, suc, ◌-◌, ◌/◌, ◌⊎◌, subst, sym, count, All, min,
}

pub record Attempt : Type 0 where
  pub at : Time
  pub key : ℕ
  pub attempts : Option ℕ
  pub window_seconds : Option ℕ

abbrev pub is_allowed : Reply → Bool
is_allowed allowed = true
is_allowed unavailable = false
is_allowed (limited n) = false

-- one attempt more of a key that had `n`
allowed_one :
    (limit n r m : ℕ)
    → r + min limit (suc n) ≡ min limit (suc n + m)
    → (if not (ltb limit (n + 1)) then 1 else 0) + r + min limit n ≡ min limit (n + (1 + m))
allowed_one limit n r m h = elim (Bool-cases (ltb limit (n + 1))) [
  | inl y ↦ let over : limit < n + 1 = ground arith in rw y (omega arith)
  | inr k ↦ let within : n + 1 ≤ limit = ground arith in rw k (omega arith)
]

judge_allowed :
    (limit n retry_after : ℕ) → is_allowed (judge limit (n, retry_after)) ≡ not (ltb limit n)
unfolding judge
judge_allowed limit n retry_after = elim (Bool-cases (ltb limit n)) [
  | inl y ↦ rw (y, judge) refl
  | inr k ↦ rw (k, judge) refl
]

module _ (s : LimitSettings) (redis : ℕ → ℕ → Option (ℕ × ℕ)) where
  abbrev pub reply_to : List Window → Attempt → Reply × List Window
  reply_to windows a = check_rate_limit s redis windows a.at a.key a.attempts a.window_seconds

  -- the attempts of the key that are allowed
  unfoldable pub count_allowed : ℕ → List Window → List Attempt → ℕ
  count_allowed key windows [] = 0
  count_allowed key windows (a ∷ rest) =
      (if a.key == key && is_allowed (reply_to windows a).0 then 1 else 0)
      + count_allowed key (reply_to windows a).1 rest

  -- The attempt is made within the window that starts at `from`, and the key's own have the limit
  -- and the window's length.
  abbrev pub IsWithin : ℕ → Time → ℕ → ℕ → Attempt → Type 0
  IsWithin key from limit window a =
      (from ≤ a.at)
      × (a.at < from + window * 1000)
      × (a.key ≡ key
          → (get_or a.attempts s.auth_rate_limit_attempts ≡ limit)
            × (get_or a.window_seconds s.auth_rate_limit_window_seconds ≡ window))

  abbrev limit_of : Attempt → ℕ
  limit_of a = get_or a.attempts s.auth_rate_limit_attempts

  abbrev length_of : Attempt → ℕ
  length_of a = get_or a.window_seconds s.auth_rate_limit_window_seconds

  abbrev running : List Window → Attempt → List Window
  running windows a = filter (is_running a.at) windows

  -- a call of the memory backend with room for one more key
  module _ (memory : s.backend_is_redis ≡ false) (windows : List Window) (a : Attempt) where
    reply_memory :
        reply_to windows a ≡ from_memory s redis windows a.at a.key (limit_of a) (length_of a)
    unfolding check_rate_limit
    reply_memory = rw (memory, check_rate_limit) refl

    length-with_current :
        length (with_current a.at a.key (length_of a) (running windows a)) ≤ length windows + 1
    unfolding with_current
    length-with_current =
        let new = count_up (current_window a.at a.key (length_of a) (running windows a)) in
        let others = filter (λ w. not (has_key a.key w)) (running windows a) in
        omega (
          arith,
          length-append others (new ∷ []),
          length-filter-le (λ w. not (has_key a.key w)) (running windows a),
          length-filter-le (is_running a.at) windows,
        )

    reply_windows :
        length windows < s.rate_limit_memory_max_keys
        → (reply_to windows a).1 ≡ with_current a.at a.key (length_of a) (running windows a)
    unfolding from_memory check_memory
    reply_windows room =
        ap (λ r. r.1) reply_memory
        ∙ evict-fits s.rate_limit_memory_max_keys
            (with_current a.at a.key (length_of a) (running windows a))
            (omega (arith, length-with_current))

    reply_allowed :
        is_allowed (reply_to windows a).0
        ≡ not (
            ltb
              (limit_of a)
              ((current_window a.at a.key (length_of a) (running windows a)).count + 1))
    unfolding from_memory check_memory judge count_up
    reply_allowed =
        let current = count_up (current_window a.at a.key (length_of a) (running windows a)) in
        ap (λ r. is_allowed r.0) reply_memory
        ∙ judge_allowed (limit_of a) current.count
            (max 1 ((current.expires_at - a.at + 999) / 1000))

  module _ (memory : s.backend_is_redis ≡ false) (key : ℕ) (from : Time) (limit window : ℕ) where
    until : Time
    until = from + window * 1000

    -- one attempt more: what is allowed, and the entries
    attempt_step :
        (n : ℕ) (windows : List Window) (a : Attempt)
        → IsWithin key from limit window a
        → length windows < s.rate_limit_memory_max_keys
        → IsCounted key until n windows
        → (((a.key == key) ≡ true)
            × (is_allowed (reply_to windows a).0 ≡ not (ltb limit (n + 1)))
            × IsCounted key until (suc n) (reply_to windows a).1)
          ⊎ (((a.key == key) ≡ false) × IsCounted key until n (reply_to windows a).1)
    unfolding until
    attempt_step n windows a (early, late, mine) room c =
        let kept = running_kept key until a.at n windows late c in
        elim (Bool-cases (a.key == key)) [
          | inl own ↦
              let same : a.key ≡ key = ground arith in
              let (limits, lengths) = mine same in
              let (at_n, next) =
                IsCounted-own key until a.at window n (running windows a) (omega arith) kept in
              inl (
                own,
                reply_allowed memory windows a ∙ rw limits (rw lengths (rw same (rw at_n refl))),
                subst (IsCounted key until (suc n)) (sym (reply_windows memory windows a room))
                    (rw lengths (rw same next)),
              )
          | inr other ↦ inr (
            other,
            subst (IsCounted key until n) (sym (reply_windows memory windows a room)) (
                IsCounted-other key until a.at (length_of a) a.key n (running windows a) other
                  kept),
          )
        ]

    reply_length :
        (windows : List Window) (a : Attempt)
        → length windows < s.rate_limit_memory_max_keys
        → length (reply_to windows a).1 ≤ length windows + 1
    reply_length windows a room =
        rw (reply_windows memory windows a room) (length-with_current memory windows a)

    attempts_counted :
        (n : ℕ) (windows : List Window) (rest : List Attempt)
        → All (IsWithin key from limit window) rest
        → length windows + length rest ≤ s.rate_limit_memory_max_keys
        → IsCounted key until n windows
        → count_allowed key windows rest + min limit n
          ≡ min limit (n + count (λ a. a.key == key) rest)
    unfolding count_allowed count
    attempts_counted n windows [] within room c = omega arith
    attempts_counted n windows (a ∷ rest) within room c =
        let shorter = reply_length windows a (omega arith) in
        elim (attempt_step n windows a within.0 (omega arith) c) [
          | inl (own, reply, next) ↦
              let later =
                attempts_counted (suc n) (reply_to windows a).1 rest within.1 (omega arith) next in
              rw own (
                rw reply (
                  allowed_one limit n (count_allowed key (reply_to windows a).1 rest)
                    (count (λ x. x.key == key) rest) later))
          | inr (other, next) ↦
              let later =
                attempts_counted n (reply_to windows a).1 rest within.1 (omega arith) next in
              rw other (omega arith)
        ]

  -- Of the attempts of a key in one window, from its first on, the memory backend allows exactly as many
  -- as the limit says, whatever attempts of other keys come between, as long as the
  -- table has room for every attempt's key, so that no entry is evicted.
  pub count_allowed_exact :
      (key : ℕ) (from : Time) (limit window : ℕ) (calls : List Attempt)
      → s.backend_is_redis ≡ false
      → length calls ≤ s.rate_limit_memory_max_keys
      → All (IsWithin key from limit window) calls
      → count_allowed key [] calls ≡ min limit (count (λ a. a.key == key) calls)
  unfolding filter
  count_allowed_exact key from limit window calls memory room within =
      let all =
        attempts_counted memory key from limit window 0 [] calls within (omega arith)
          (inl (refl, refl)) in
      omega arith
