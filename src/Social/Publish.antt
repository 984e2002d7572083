-- ===== src/Social/Publish.antt =====
-- `publish_due_events` of backend/app/services/social_publishing.py: the recovery of abandoned rows,
-- the choice of a due row, and the loop. One worker is modelled.
use open_city_planner.Base.{
  Time, Uuid, ℕ, Bool, Option, List, ◌+◌, if◌then◌else◌, none, false, ◌&&◌, update, ltb, suc, some,
  ◌==◌, ◌||◌, ◌∷◌, zero, leb, [], ◌++◌, is_none,
}
use open_city_planner.Social.Attempt.{
  Outcome, Result, Services, attempt, was_published, was_retried, was_failed, was_dry_run,
  was_prepared, was_cancelled, was_interrupted, is_interrupted,
}
use open_city_planner.Social.{
  Event, Policy, Settings, event_is_enabled, Db, processing, pending_approval, Action, status_eq,
  put_event, pending, is_dry, AuditLog,
}

-- The minutes after which a row in `processing` is taken for abandoned, in seconds.
abbrev pub stale_after : ℕ
stale_after = 900

-- `processing_started_at < stale`, which is false on NULL
abbrev started_before : Time → Option Time → Bool
started_before now none = false
started_before now (some t) = ltb (t + stale_after) now

unfoldable pub is_stale : Time → Event → Bool
is_stale now e = status_eq e.status processing && started_before now e.processing_started_at

unfoldable pub recover : Time → Event → Event
recover now e = record e {
  status = if e.approval_required then pending_approval else pending;
  processing_started_at = none;
  next_attempt_at = now;
}

unfoldable pub recover_stale : Time → Db → Db
unfolding is_stale recover
recover_stale now db = record db { events = update (is_stale now) (recover now) db.events }

-- the WHERE clause
unfoldable pub is_due : Policy → Time → Event → Bool
unfolding event_is_enabled
is_due policy now e =
    event_is_enabled policy e.event_type
    && (leb e.next_attempt_at now
        && (status_eq e.status pending
            || status_eq e.status pending_approval && is_none e.screenshot_path))

-- the ORDER BY clause: `next_attempt_at`, then `created_at`
unfoldable pub is_before : Event → Event → Bool
is_before a b =
    ltb a.next_attempt_at b.next_attempt_at
    || a.next_attempt_at == b.next_attempt_at && leb a.created_at b.created_at

unfoldable pub earlier : Event → Option Event → Event
unfolding is_before
earlier e none = e
earlier e (some f) = if is_before e f then e else f

unfoldable pub first_due : Policy → Time → List Event → Option Event
unfolding is_due earlier
first_due policy now [] = none
first_due policy now (e ∷ events) =
    let rest = first_due policy now events in
    if is_due policy now e then some (earlier e rest) else rest

unfoldable pub start : Time → Event → Event
start now e = record e {
  status = processing;
  processing_started_at = some now;
  attempt_count = e.attempt_count + 1;
}

pub record Totals : Type 0 where
  pub processed : ℕ
  pub published : ℕ
  pub retried : ℕ
  pub failed : ℕ
  pub dry_run : ℕ
  pub prepared : ℕ
  pub cancelled : ℕ

abbrev pub no_totals : Totals
no_totals = record {
  processed = 0;
  published = 0;
  retried = 0;
  failed = 0;
  dry_run = 0;
  prepared = 0;
  cancelled = 0;
}

unfoldable pub add_outcome : Outcome → Totals → Totals
add_outcome was_published t = record t { processed = t.processed + 1; published = t.published + 1 }
add_outcome was_retried t = record t { processed = t.processed + 1; retried = t.retried + 1 }
add_outcome was_failed t = record t { processed = t.processed + 1; failed = t.failed + 1 }
add_outcome was_dry_run t = record t { processed = t.processed + 1; dry_run = t.dry_run + 1 }
add_outcome was_prepared t = record t { processed = t.processed + 1; prepared = t.prepared + 1 }
add_outcome was_interrupted t = record t { processed = t.processed + 1 }
add_outcome was_cancelled t = record t { processed = t.processed + 1; cancelled = t.cancelled + 1 }

abbrev log_actions : Uuid → List Action → List AuditLog
log_actions id [] = []
log_actions id (a ∷ actions) =
    record { actor_user_id = none; action = a; event_id = id } ∷ log_actions id actions

-- the commit at the end of a turn
unfoldable pub store : Result → Db → Db
store r db = record db {
  events = update (λ e. e.id == r.event.id) (λ _. r.event) db.events;
  publications = db.publications ++ r.publications;
  statuses = db.statuses ++ r.statuses;
  audit = db.audit ++ log_actions r.event.id r.actions;
}

module _ (settings : Settings) (policy : Policy) where
  -- the turn for the row that the query returns
  unfoldable pub publish_event : Services → Time → Event → Db → Outcome × Db
  unfolding start attempt store put_event
  publish_event services now e db =
      let e' = start now e in
      let db' = put_event e.id (λ _. e') db in
      let r = attempt settings services now (is_dry settings policy) db'.publications e' in
      (r.outcome, store r db')

  -- The services and the clock of each turn of the loop; `for _ in range(limit)` is recursion on
  -- the turns that are left. There are no counters where an exception leaves the function.
  module _ (services : ℕ → Services) (clock : ℕ → Time) where
    unfoldable pub publish_events : ℕ → Totals → Db → Option Totals × Db
    unfolding add_outcome publish_event
    publish_events zero t db = (some t, db)
    publish_events (suc turns) t db = elim (first_due policy (clock turns) db.events) [
      | none ↦ (some t, db)
      | some e ↦
          let (outcome, db') = publish_event (services turns) (clock turns) e db in
          let rest = publish_events turns (add_outcome outcome t) db' in
          if is_interrupted outcome then (none, db') else rest
    ]

    unfoldable pub publish_due_events : Db → Time → ℕ → Option Totals × Db
    unfolding publish_events recover_stale
    publish_due_events db now limit =
        let worked = publish_events limit no_totals (recover_stale now db) in
        if settings.mastodon_enabled && policy.enabled then worked else (some no_totals, db)
