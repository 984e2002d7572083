-- ===== src/Outbox/Polygon/Settled.antt =====
-- What a turn leaves of its row.
use open_city_planner.Outbox.Polygon.{
  Handled, done, raised, broken, Event, completed, settle, fail, start, dead_letter, max_attempts,
  retry, complete, pending,
}
use open_city_planner.Base.{
  Time, ◌≡◌, ℕ, ◌+◌, Uuid, ◌⊎◌, ◌≤◌, if_cases, leb, inl, some, inr, ◌<◌, arith, ◌*◌, ◌^◌, refl,
  none,
}

-- The row that was selected, and the row after its turn at the given time, by how its handler ended.
abbrev pub IsSettled : (Event → Handled) → Time → Event → Event → Type 0
IsSettled handler now e e' =
    ((e'.id ≡ e.id) × (e'.attempt_count ≡ e.attempt_count + 1))
    × (((handler (start now e) ≡ done) × (e'.status ≡ completed) × (e'.completed_at ≡ some now))
        ⊎ ((error : ℕ) × (handler (start now e) ≡ raised error)
            × (e'.last_error ≡ some error)
            × (((e'.status ≡ dead_letter) × (max_attempts ≤ e'.attempt_count))
                ⊎ ((e'.status ≡ pending)
                    × (e'.attempt_count < max_attempts)
                    × (e'.next_attempt_at ≡ now + 60 * 2 ^ e'.attempt_count)))))

module _ (handler : Event → Handled) (clock : Uuid → Time) where
  fail-IsSettled :
      (now : Time) (error : ℕ) (e : Event)
      → handler (start now e) ≡ raised error
      → IsSettled handler now e (fail now error (start now e))
  unfolding fail start retry
  fail-IsSettled now error e why =
      if_cases (λ x. IsSettled handler now e x) (leb max_attempts (e.attempt_count + 1))
        (record (start now e) { last_error = some error; status = dead_letter })
        (retry now (record (start now e) { last_error = some error }))
        (λ h. ((refl, refl), inr (error, why, refl, inl (refl, ground arith))))
        (λ h. ((refl, refl), inr (error, why, refl, inr (refl, ground arith, refl))))

  Handled-cases : (h : Handled) → (h ≡ done) ⊎ ((error : ℕ) × (h ≡ raised error)) ⊎ (h ≡ broken)
  Handled-cases done = inl refl
  Handled-cases (raised error) = inr (inl (error, refl))
  Handled-cases broken = inr (inr refl)

  complete-IsSettled :
      (now : Time) (e : Event)
      → handler (start now e) ≡ done
      → IsSettled handler now e (complete now (start now e))
  unfolding start complete
  complete-IsSettled now e fine = ((refl, refl), inl (fine, refl, refl))

  pub settle_cases :
      (e : Event)
      → ((e' : Event) × (settle handler clock e ≡ some e') × IsSettled handler (clock e.id) e e')
        ⊎ ((settle handler clock e ≡ none) × (handler (start (clock e.id) e) ≡ broken))
  unfolding settle complete
  settle_cases e = elim (Handled-cases (handler (start (clock e.id) e))) [
    | inl fine ↦ inl (
      complete (clock e.id) (start (clock e.id) e),
      rw (fine, settle) refl,
      complete-IsSettled (clock e.id) e fine,
    )
    | inr (inl (error, why)) ↦ inl (
      fail (clock e.id) error (start (clock e.id) e),
      rw (why, settle) refl,
      fail-IsSettled (clock e.id) error e why,
    )
    | inr (inr lost) ↦ inr (rw (lost, settle) refl, lost)
  ]
