-- ===== src/Outbox/Email/Delays.antt =====
-- The delays between the attempts, and what a failed attempt makes of a row.
use open_city_planner.Outbox.Email.Finish.{
  fail_event, retry_delay, failed_status, is_permanent, retry_delays,
}
use open_city_planner.Outbox.Email.{SendError, Event, failed, pending}
use open_city_planner.Base.{
  ℕ, ◌≤◌, Time, ◌+◌, ◌≡◌, none, true, ◌⊎◌, false, ◌<◌, arith, Bool-cases, nth, suc, ◌||◌, leb, min,
  ◌-◌, zero, inl, inr, refl,
}

delays_step :
    (i : ℕ)
    → i ≤ 5
    → (60 ≤ nth retry_delays i 0)
      × (nth retry_delays i 0 ≤ 86400)
      × (nth retry_delays i 0 ≤ nth retry_delays (min (i + 1) 5) 0)
delays_step zero h = (omega arith, omega arith, omega arith)
delays_step (suc zero) h = (omega arith, omega arith, omega arith)
delays_step (suc (suc zero)) h = (omega arith, omega arith, omega arith)
delays_step (suc (suc (suc zero))) h = (omega arith, omega arith, omega arith)
delays_step (suc (suc (suc (suc zero)))) h = (omega arith, omega arith, omega arith)
delays_step (suc (suc (suc (suc (suc zero))))) h = (omega arith, omega arith, omega arith)
delays_step (suc (suc (suc (suc (suc (suc i)))))) h = absurd (omega arith)

-- The delay lies between a minute and a day, and never shrinks from one attempt to the next.
retry_delay_bounds :
    (n : ℕ) → (60 ≤ retry_delay n) × (retry_delay n ≤ 86400) × (retry_delay n ≤ retry_delay (n + 1))
unfolding retry_delay
retry_delay_bounds zero = (omega arith, omega arith, omega arith)
retry_delay_bounds (suc n) =
    let (low, high, step) = delays_step (min (suc n - 1) 5) (omega arith) in
    let same : min (suc n + 1 - 1) 5 ≡ min (min (suc n - 1) 5 + 1) 5 = omega arith in
    (low, high, rw same step)

-- what a failed attempt makes of the row
pub fail_event_lem :
    (max_attempts : ℕ) (now : Time) (error : SendError) (e : Event)
    → let e' = fail_event max_attempts now error e in
      (e'.attempt_count ≡ e.attempt_count)
      × (e'.processing_started_at ≡ none)
      × (((e'.status ≡ failed)
            × ((is_permanent error ≡ true) ⊎ (max_attempts ≤ e.attempt_count))
            × (e'.scheduled_at ≡ e.scheduled_at))
          ⊎ ((e'.status ≡ pending)
              × (is_permanent error ≡ false)
              × (e.attempt_count < max_attempts)
              × (now + 60 ≤ e'.scheduled_at)
              × (e'.scheduled_at ≤ now + 86400)))
unfolding fail_event failed_status
fail_event_lem max_attempts now error e =
    elim (Bool-cases (is_permanent error || leb max_attempts e.attempt_count)) [
      | inl stop ↦ (refl, refl, inl (ground arith, ground arith, ground arith))
      | inr again ↦
          let (low, high, step) = retry_delay_bounds e.attempt_count in
          (refl, refl, inr (ground arith, ground arith, ground arith, ground arith, ground arith))
    ]
