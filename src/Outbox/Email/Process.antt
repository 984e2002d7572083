-- ===== src/Outbox/Email/Process.antt =====
-- `process_due_email_outbox` and `attempt_welcome_delivery` of email_outbox.py.
use open_city_planner.Outbox.Email.{
  DeliveryType, Event, Db, Recipient, pending, status_eq, processing, SendError,
}
use open_city_planner.Outbox.Email.Claim.{claim_event}
use open_city_planner.Outbox.Email.Finish.{finish_event}
use open_city_planner.Base.{
  Bool, Time, ℕ, ◌+◌, Option, if◌then◌else◌, update, true, none, some, ltb, ◌&&◌, Uuid, false, suc,
  zero,
}

-- The minutes after which a row in `processing` is taken for abandoned, in seconds.
abbrev pub stale_after : ℕ
stale_after = 900

-- `processing_started_at IS NULL OR processing_started_at < stale_before`
abbrev started_before : Time → Option Time → Bool
started_before now none = true
started_before now (some started_at) = ltb (started_at + stale_after) now

unfoldable pub is_stale : Time → Event → Bool
is_stale now e = status_eq e.status processing && started_before now e.processing_started_at

unfoldable pub requeue : Time → Event → Event
requeue now e = record e { status = pending; processing_started_at = none; scheduled_at = now }

unfoldable pub recover_stale : Time → Db → Db
unfolding is_stale requeue
recover_stale now db = record db { events = update (is_stale now) (requeue now) db.events }

pub record Totals : Type 0 where
  pub processed : ℕ
  pub sent : ℕ
  pub failed : ℕ

-- `result["processed"] += 1`, then `result["sent" if … else "failed"] += 1`
unfoldable pub add_result : Bool → Totals → Totals
add_result is_sent t = record {
  processed = t.processed + 1;
  sent = if is_sent then t.sent + 1 else t.sent;
  failed = if is_sent then t.failed else t.failed + 1;
}

module _ (deliver : DeliveryType → Event → Recipient → Option SendError) (max_attempts : ℕ) where
  unfoldable pub attempt_welcome_delivery : Db → Time → Uuid → Bool × Db
  attempt_welcome_delivery db now user_id =
      let (found, db') = claim_event db now (some user_id) in
      elim found [ none ↦ (false, db') | some e ↦ finish_event deliver max_attempts db' now e.id ]

-- The clock gives the time of each turn of the loop; `for _ in range(limit)` is recursion on the
-- turns that are left.
module _ (deliver : DeliveryType → Event → Recipient → Option SendError) (max_attempts : ℕ)
    (clock : ℕ → Time) where
  unfoldable pub process_events : ℕ → Totals → Db → Totals × Db
  unfolding add_result
  process_events zero t db = (t, db)
  process_events (suc turns) t db =
      let (found, db') = claim_event db (clock turns) none in
      elim found [
        | none ↦ (t, db')
        | some e ↦
            let (is_sent, db'') = finish_event deliver max_attempts db' (clock turns) e.id in
            process_events turns (add_result is_sent t) db''
      ]

  unfoldable pub process_due_email_outbox : Db → Time → ℕ → Totals × Db
  unfolding process_events recover_stale
  process_due_email_outbox db now limit =
      process_events limit (record { processed = 0; sent = 0; failed = 0 }) (recover_stale now db)
