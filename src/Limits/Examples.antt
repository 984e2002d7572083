-- ===== src/Limits/Examples.antt =====
-- The theorems on the rate limit at three attempts of one key and one of another.
use open_city_planner.Limits.{LimitSettings, check_rate_limit}
use open_city_planner.Limits.Attempts.{Attempt, IsWithin, count_allowed, count_allowed_exact}
use open_city_planner.Limits.Bounded.{check_rate_limit-bounded}
use open_city_planner.Base.{
  ℕ, List, All, length, count, Time, false, Option, [], none, ◌∷◌, ◌≤◌, ◌≡◌, arith, refl, ◌≢◌, ◌<◌,
  ◌+◌, ◌*◌,
}

abbrev limit_settings : LimitSettings
limit_settings = record {
  auth_rate_limit_attempts = 2;
  auth_rate_limit_window_seconds = 300;
  backend_is_redis = false;
  rate_limit_fail_closed = false;
  production = false;
  rate_limit_memory_max_keys = 100;
}

abbrev no_redis : ℕ → ℕ → Option (ℕ × ℕ)
no_redis key window = none

abbrev attempt : ℕ → Time → Attempt
attempt key at = record { at = at; key = key; attempts = none; window_seconds = none }

abbrev calls : List Attempt
calls = attempt 1 5000 ∷ attempt 1 5200 ∷ attempt 2 5300 ∷ attempt 1 60000 ∷ []

All-cons :
    (a : Attempt) (rest : List Attempt)
    → IsWithin limit_settings no_redis 1 5000 2 300 a
    → All (IsWithin limit_settings no_redis 1 5000 2 300) rest
    → All (IsWithin limit_settings no_redis 1 5000 2 300) (a ∷ rest)
All-cons a rest h k = (h, k)

own-IsWithin :
    (at : Time)
    → 5000 ≤ at
    → at < 5000 + 300 * 1000
    → IsWithin limit_settings no_redis 1 5000 2 300 (attempt 1 at)
own-IsWithin at early late = (early, late, λ _. (refl, refl))

two_is_not_one : ◌≢◌ {A = ℕ} 2 1
two_is_not_one = omega arith

other-IsWithin : IsWithin limit_settings no_redis 1 5000 2 300 (attempt 2 5300)
other-IsWithin = (omega arith, omega arith, λ h. absurd (two_is_not_one h))

calls-IsWithin : All (IsWithin limit_settings no_redis 1 5000 2 300) calls
calls-IsWithin =
    All-cons (attempt 1 5000) (attempt 1 5200 ∷ attempt 2 5300 ∷ attempt 1 60000 ∷ [])
      (own-IsWithin 5000 (omega arith) (omega arith))
      (All-cons (attempt 1 5200) (attempt 2 5300 ∷ attempt 1 60000 ∷ [])
        (own-IsWithin 5200 (omega arith) (omega arith))
        (All-cons (attempt 2 5300) (attempt 1 60000 ∷ []) other-IsWithin
          (All-cons (attempt 1 60000) [] (own-IsWithin 60000 (omega arith) (omega arith)) tt)))

count_allowed_exact_example : count_allowed limit_settings no_redis 1 [] calls ≡ 2
unfolding count
count_allowed_exact_example =
    count_allowed_exact limit_settings no_redis 1 5000 2 300 calls refl (omega arith) calls-IsWithin

check_rate_limit-bounded_example :
    length
      (check_rate_limit limit_settings no_redis
        (record { key = 1; count = 3; expires_at = 9000 } ∷ [])
        5000
        2
        none
        none).1
    ≤ 100
check_rate_limit-bounded_example =
    check_rate_limit-bounded limit_settings no_redis
      (record { key = 1; count = 3; expires_at = 9000 } ∷ []) 5000 2 none none (omega arith)
