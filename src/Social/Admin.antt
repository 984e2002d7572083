-- ===== src/Social/Admin.antt =====
-- The three operations of an administrator on a row, of backend/app/services/admin_social.py.
use open_city_planner.Social.{
  Event, Settings, Status, is_dry, put_event, Policy, pending, log, cancelled, Db, status_eq,
  pending_approval, processing, publication_approved, published, publication_cancelled, failed,
  retry_requested,
}
use open_city_planner.Base.{
  Time, Bool, Uuid, Option, true, none, false, ◌||◌, find, Text, if◌then◌else◌, ◌==◌, not, is_some,
  some, ◌&&◌,
}

pub data AdminError : Type 0 where
  lookup_error not_failed not_awaiting not_cancellable : AdminError
  publishing_paused publishing_disabled dry_run_active mastodon_not_configured : AdminError

-- the first of the blocking reasons of `_publication_actions`, for a row that awaits approval
unfoldable pub blocking_reason : Settings → Policy → Option AdminError
unfolding is_dry
blocking_reason settings policy =
    if not policy.enabled
    then some publishing_paused
    else if not settings.mastodon_enabled
    then some publishing_disabled
    else if is_dry settings policy
    then some dry_run_active
    else if not settings.mastodon_has_token
    then some mastodon_not_configured
    else none

unfoldable pub requeue : Time → Event → Event
requeue now e = record e {
  status = pending;
  attempt_count = 0;
  next_attempt_at = now;
  processing_started_at = none;
  last_error = none;
}

-- What is raised, or `none`, and the new state.
unfoldable pub retry_social_publication : Db → Time → Uuid → Uuid → Option AdminError × Db
unfolding put_event log requeue
retry_social_publication db now event_id actor = elim (find (λ e. e.id == event_id) db.events) [
  | none ↦ (some lookup_error, db)
  | some e ↦
      if status_eq e.status failed
      then (none, log (some actor) retry_requested e.id (put_event e.id (requeue now) db))
      else (some not_failed, db)
]

-- `status in {"PENDING", "PROCESSING", "PUBLISHED"} and not approval_required`
unfoldable pub is_approved_before : Event → Bool
is_approved_before e =
    (status_eq e.status pending || (status_eq e.status processing || status_eq e.status published))
    && not e.approval_required

unfoldable pub approve : Time → Uuid → Option Text → Event → Event
approve now actor alt_text e = record e {
  screenshot_alt_text = if is_some alt_text then alt_text else e.screenshot_alt_text;
  approval_required = false;
  approved_by_user_id = some actor;
  status = pending;
  next_attempt_at = now;
}

unfoldable pub approve_waiting :
    Settings → Policy → Db → Time → Event → Uuid → Option Text → Option AdminError × Db
unfolding put_event log approve blocking_reason
approve_waiting settings policy db now e actor alt_text = elim (blocking_reason settings policy) [
  | some reason ↦ (some reason, db)
  | none ↦ (
    none,
    log (some actor) publication_approved e.id (put_event e.id (approve now actor alt_text) db),
  )
]

-- An empty `alt_text` is `none`.
unfoldable pub approve_social_publication :
    Settings → Policy → Db → Time → Uuid → Uuid → Option Text → Option AdminError × Db
unfolding is_approved_before approve_waiting
approve_social_publication settings policy db now event_id actor alt_text =
    elim (find (λ e. e.id == event_id) db.events) [
      | none ↦ (some lookup_error, db)
      | some e ↦
          let approved = approve_waiting settings policy db now e actor alt_text in
          if is_approved_before e
          then (none, db)
          else if status_eq e.status pending_approval
          then approved
          else (some not_awaiting, db)
    ]

abbrev pub is_cancellable : Status → Bool
is_cancellable pending_approval = true
is_cancellable pending = true
is_cancellable failed = true
is_cancellable _ = false

unfoldable pub cancel : Event → Event
cancel e = record e { status = cancelled; screenshot_path = none }

unfoldable pub cancel_social_publication : Db → Uuid → Uuid → Option AdminError × Db
unfolding put_event log cancel
cancel_social_publication db event_id actor = elim (find (λ e. e.id == event_id) db.events) [
  | none ↦ (some lookup_error, db)
  | some e ↦
      if is_cancellable e.status
      then (none, log (some actor) publication_cancelled e.id (put_event e.id cancel db))
      else (some not_cancellable, db)
]
