-- ===== src/Limits/Bounded.antt =====
-- The size of the table of windows.
use open_city_planner.Limits.{
  LimitSettings, Window, from_redis, check_rate_limit, from_memory, check_memory, with_current,
  is_running,
}
use open_city_planner.Limits.Rows.{length-evict-le}
use open_city_planner.Base.{
  ℕ, Option, List, Time, length, ◌≤◌, get_or, Option-cases, inl, Bool-cases, filter, ◌||◌, inr,
}

module _ (s : LimitSettings) (redis : ℕ → ℕ → Option (ℕ × ℕ)) (windows : List Window) (now : Time)
    (key : ℕ) where
  memory-bounded :
      (limit window : ℕ)
      → length (from_memory s redis windows now key limit window).1 ≤ s.rate_limit_memory_max_keys
  unfolding from_memory check_memory
  memory-bounded limit window =
      length-evict-le s.rate_limit_memory_max_keys
        (with_current now key window (filter (is_running now) windows))

  redis-bounded :
      (limit window : ℕ)
      → length windows ≤ s.rate_limit_memory_max_keys
      → length (from_redis s redis windows now key limit window).1 ≤ s.rate_limit_memory_max_keys
  unfolding from_redis
  redis-bounded limit window h = elim (Option-cases (redis key window)) [
    | inl raised ↦ elim (Bool-cases (s.rate_limit_fail_closed || s.production)) [
      | inl closed ↦ rw (raised, closed, from_redis) h
      | inr lenient ↦ rw (raised, lenient, from_redis) (memory-bounded limit window)
    ]
    | inr (answer, found) ↦ rw (found, from_redis) h
  ]

  -- No check of any key, with any backend and whether Redis answers or raises, lets the table of
  -- windows grow past its cap.
  pub check_rate_limit-bounded :
      (attempts window_seconds : Option ℕ)
      → length windows ≤ s.rate_limit_memory_max_keys
      → length (check_rate_limit s redis windows now key attempts window_seconds).1
        ≤ s.rate_limit_memory_max_keys
  unfolding check_rate_limit from_redis from_memory
  check_rate_limit-bounded attempts window_seconds h =
      let limit = get_or attempts s.auth_rate_limit_attempts in
      let window = get_or window_seconds s.auth_rate_limit_window_seconds in
      elim (Bool-cases s.backend_is_redis) [
        | inl y ↦ rw (y, check_rate_limit) (redis-bounded limit window h)
        | inr n ↦ rw (n, check_rate_limit) (memory-bounded limit window)
      ]
