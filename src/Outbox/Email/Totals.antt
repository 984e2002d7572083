-- ===== src/Outbox/Email/Totals.antt =====
-- The totals that `process_due_email_outbox` returns, and when its loop stops.
use open_city_planner.Outbox.Email.Process.{
  Totals, add_result, process_events, process_due_email_outbox, recover_stale,
}
use open_city_planner.Outbox.Email.{DeliveryType, Event, Recipient, SendError, Db}
use open_city_planner.Outbox.Email.Claim.{first_due, is_due, claim_event, start_event}
use open_city_planner.Outbox.Email.Finish.{finish_event}
use open_city_planner.Outbox.Email.Order.{claim_event_empty, claim_event_found, first_due-none}
use open_city_planner.Base.{
  Bool, ◌≡◌, ◌+◌, arith, Option, true, ℕ, false, Time, refl, ◌≤◌, suc, Option-cases, ◌⊎◌, none, All,
  inl, some, inr, zero, subst, sym, ap,
}

IsBalanced : Totals → Type 0
IsBalanced t = t.processed ≡ t.sent + t.failed

add_result-IsBalanced :
    (b : Bool) (t : Totals)
    → IsBalanced t
    → IsBalanced (add_result b t) × ((add_result b t).processed ≡ t.processed + 1)
unfolding IsBalanced add_result
add_result-IsBalanced true t h = (ground arith, refl)
add_result-IsBalanced false t h = (ground arith, refl)

module _ (deliver : DeliveryType → Event → Recipient → Option SendError) (max_attempts : ℕ)
    (clock : ℕ → Time) where
  -- What a run of `n` turns from the totals `t` gives.
  IsRun : ℕ → Totals → Totals × Db → Type 0
  IsRun n t r =
      IsBalanced r.0
      × (r.0.processed ≤ t.processed + n)
      × ((r.0.processed ≡ t.processed + n)
          ⊎ ((turn : ℕ) × (turn + 1 + r.0.processed ≡ t.processed + n)
              × All (λ e. is_due (clock turn) none e ≡ false) r.1.events))

  -- the result of the row that a turn claims
  abbrev pub turn_result : ℕ → Db → Event → Bool × Db
  turn_result turns db e =
      finish_event deliver max_attempts (claim_event db (clock turns) none).1 (clock turns) e.id

  pub process_events_claimed :
      (turns : ℕ) (t : Totals) (db : Db) (e : Event)
      → first_due (clock turns) none db.events ≡ some e
      → process_events deliver max_attempts clock (suc turns) t db
        ≡ process_events deliver max_attempts clock turns
            (add_result (turn_result turns db e).0 t)
            (turn_result turns db e).1
  unfolding process_events start_event
  process_events_claimed turns t db e found =
      rw (ap (λ c. c.0) (claim_event_found db (clock turns) none e found), process_events) refl

  pub process_events_drained :
      (turns : ℕ) (t : Totals) (db : Db)
      → first_due (clock turns) none db.events ≡ none
      → process_events deliver max_attempts clock (suc turns) t db ≡ (t, db)
  unfolding process_events
  process_events_drained turns t db empty =
      rw (ap (λ c. c.0) (claim_event_empty db (clock turns) none empty), process_events)
        (ap (λ c. (t, c.1)) (claim_event_empty db (clock turns) none empty))

  IsRun-suc :
      (n : ℕ) (b : Bool) (t : Totals) (r : Totals × Db)
      → IsBalanced t
      → (IsBalanced (add_result b t) → IsRun n (add_result b t) r)
      → IsRun (suc n) t r
  unfolding IsRun
  IsRun-suc n b t r h k =
      let (balanced, more) = add_result-IsBalanced b t h in
      let (balanced', bound, stop) = k balanced in
      (
        balanced',
        omega arith,
        elim stop [
          | inl full ↦ inl (omega arith)
          | inr (turn, last, drained) ↦ inr (turn, omega arith, drained)
        ],
      )

  process_events-IsRun :
      (turns : ℕ) (t : Totals) (db : Db)
      → IsBalanced t
      → IsRun turns t (process_events deliver max_attempts clock turns t db)
  unfolding process_events IsRun
  process_events-IsRun zero t db h = (h, omega arith, inl (omega arith))
  process_events-IsRun (suc turns) t db h =
      elim (Option-cases (first_due (clock turns) none db.events)) [
        | inl empty ↦ subst (IsRun (suc turns) t) (sym (process_events_drained turns t db empty)) (
          h,
          omega arith,
          inr (turns, omega arith, first_due-none (clock turns) none db.events empty),
        )
        | inr (e, found) ↦
            let (is_sent, db') = turn_result turns db e in
            subst (IsRun (suc turns) t) (sym (process_events_claimed turns t db e found)) (
              IsRun-suc turns is_sent t
                (process_events deliver max_attempts clock turns (add_result is_sent t) db') h
                (process_events-IsRun turns (add_result is_sent t) db'))
      ]

  -- The totals of a run add up, `processed` to `sent` and `failed`, and `processed` is at most the
  -- limit. A run that processes fewer rows than the limit leaves no row that is due at the time of
  -- its last turn, the one after `processed` others; turns are numbered down from the limit to 0.
  pub process_due_email_outbox_totals :
      (db : Db) (now : Time) (limit : ℕ)
      → let r = process_due_email_outbox deliver max_attempts clock db now limit in
        (r.0.processed ≡ r.0.sent + r.0.failed)
        × (r.0.processed ≤ limit)
        × ((r.0.processed ≡ limit)
            ⊎ ((turn : ℕ) × (turn + 1 + r.0.processed ≡ limit)
                × All (λ e. is_due (clock turn) none e ≡ false) r.1.events))
  unfolding process_due_email_outbox IsRun IsBalanced
  process_due_email_outbox_totals db now limit =
      let (balanced, bound, stop) =
        process_events-IsRun limit (record { processed = 0; sent = 0; failed = 0 })
          (recover_stale now db) refl in
      (
        balanced,
        ground arith,
        elim stop [
          | inl full ↦ inl (ground arith)
          | inr (turn, last, drained) ↦ inr (turn, ground arith, drained)
        ],
      )
