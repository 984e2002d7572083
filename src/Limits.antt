-- ===== src/Limits.antt =====
-- backend/app/services/rate_limit.py: the fixed windows in memory, and the check. What the script in
-- Redis answers is a parameter. Times are milliseconds, as `int(… + 0.999)` rounds them up.
pub mod Rows
pub mod Fixed
pub mod Attempts
pub mod Bounded
pub mod Examples
use open_city_planner.Base.{
  Bool, Time, List, ◌+◌, ℕ, ◌∷◌, get_or, not, ◌==◌, filter, if◌then◌else◌, Option, find, ltb, some,
  leb, max, ◌++◌, ◌*◌, length, ◌||◌, ◌-◌, [], none, ◌/◌,
}

-- An entry of `_memory_windows`, in the order of the dictionary. Of a key only equality is asked.
pub record Window : Type 0 where
  pub key : ℕ
  pub count : ℕ
  pub expires_at : Time

pub record LimitSettings : Type 0 where
  pub auth_rate_limit_attempts : ℕ
  pub auth_rate_limit_window_seconds : ℕ
  pub backend_is_redis : Bool
  pub rate_limit_fail_closed : Bool
  pub production : Bool
  pub rate_limit_memory_max_keys : ℕ

unfoldable pub has_key : ℕ → Window → Bool
has_key key w = w.key == key

unfoldable pub is_running : Time → Window → Bool
is_running now w = not (leb w.expires_at now)

-- `while len(…) > max_keys: popitem(last=False)`
unfoldable pub evict : ℕ → List Window → List Window
evict max_keys [] = []
evict max_keys (w ∷ windows) =
    let rest = evict max_keys windows in
    if ltb max_keys (length (w ∷ windows)) then rest else w ∷ windows

-- the window of the key, or a new one
unfoldable pub current_window : Time → ℕ → ℕ → List Window → Window
unfolding has_key
current_window now key window windows =
    get_or (find (has_key key) windows)
      (record { key = key; count = 0; expires_at = now + window * 1000 })

unfoldable pub count_up : Window → Window
count_up w = record w { count = w.count + 1 }

-- the entries with the counted one at the end, before any is evicted
unfoldable pub with_current : Time → ℕ → ℕ → List Window → List Window
unfolding has_key current_window count_up
with_current now key window windows =
    filter (λ w. not (has_key key w)) windows
    ++ count_up (current_window now key window windows) ∷ []

unfoldable pub check_memory : LimitSettings → List Window → Time → ℕ → ℕ → (ℕ × ℕ) × List Window
unfolding is_running count_up current_window with_current evict
check_memory s windows now key window =
    let running = filter (is_running now) windows in
    let current = count_up (current_window now key window running) in
    (
      (current.count, max 1 ((current.expires_at - now + 999) / 1000)),
      evict s.rate_limit_memory_max_keys (with_current now key window running),
    )

pub data Reply : Type 0 where
  allowed unavailable : Reply
  limited : ℕ → Reply

unfoldable pub judge : ℕ → ℕ × ℕ → Reply
judge limit (n, retry_after) = if ltb limit n then limited (max 1 retry_after) else allowed

-- `redis` answers the count and the time to live, or raises.
module _ (s : LimitSettings) (redis : ℕ → ℕ → Option (ℕ × ℕ)) where
  unfoldable pub from_memory : List Window → Time → ℕ → ℕ → ℕ → Reply × List Window
  unfolding check_memory judge
  from_memory windows now key limit window =
      let (answer, windows') = check_memory s windows now key window in
      (judge limit answer, windows')

  unfoldable pub from_redis : List Window → Time → ℕ → ℕ → ℕ → Reply × List Window
  unfolding judge
  from_redis windows now key limit window = elim (redis key window) [
    | some answer ↦ (judge limit (answer.0, max 1 answer.1), windows)
    | none ↦
        if s.rate_limit_fail_closed || s.production
        then (unavailable, windows)
        else from_memory windows now key limit window
  ]

  unfoldable pub check_rate_limit :
      List Window → Time → ℕ → Option ℕ → Option ℕ → Reply × List Window
  check_rate_limit windows now key attempts window_seconds =
      let limit = get_or attempts s.auth_rate_limit_attempts in
      let window = get_or window_seconds s.auth_rate_limit_window_seconds in
      if s.backend_is_redis
      then from_redis windows now key limit window
      else from_memory windows now key limit window
