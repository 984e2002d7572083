-- ===== src/Outbox/Email/Claim.antt =====
-- `_claim_event` and the two `enqueue` functions of email_outbox.py.
use open_city_planner.Base.{
  Bool, Uuid, Time, Option, ltb, false, some, ◌++◌, ◌||◌, ℕ, if◌then◌else◌, none, List, not, ◌+◌,
  true, ◌==◌, ◌∷◌, is_some, [], ◌&&◌, leb,
}
use open_city_planner.Outbox.Email.{
  Event, Campaign, put_event, put_campaign, scheduled, processing, status_eq, Recipient, in_process,
  DeliveryType, Delivery, pending, notification_mail, find_campaign, put_delivery, welcome,
  campaign_started, log, Db, is_welcome,
}

-- The fields of a row that differ between the two `enqueue` functions; the time is the current one.
unfoldable pub new_event : Uuid → Time → Bool → DeliveryType → Uuid → Option Uuid → Event
new_event id now is_welcome kind user_id notification_id = record {
  id = id;
  template_is_welcome = is_welcome;
  delivery_type = some kind;
  user_id = some user_id;
  campaign_id = none;
  campaign_delivery_id = none;
  notification_id = notification_id;
  status = pending;
  attempt_count = 0;
  last_error = none;
  created_at = now;
  scheduled_at = now;
  processing_started_at = none;
  sent_at = none;
}

unfoldable pub enqueue_welcome_email : Db → Time → Recipient → Uuid → Db
unfolding new_event
enqueue_welcome_email db now u id =
    if not u.is_verified || is_some u.welcome_email_sent_at
    then db
    else record db { events = db.events ++ new_event id now true welcome u.id none ∷ [] }

unfoldable pub enqueue_notification_email : Db → Time → Uuid → Uuid → Uuid → Db
unfolding new_event
enqueue_notification_email db now notification_id user_id id = record db {
  events =
      db.events ++ new_event id now false notification_mail user_id (some notification_id) ∷ [];
}

-- `user_id == …`, which is false on NULL
abbrev id_eq : Option Uuid → Uuid → Bool
id_eq none b = false
id_eq (some a) b = a == b

-- the WHERE clause
unfoldable pub is_due : Time → Option Uuid → Event → Bool
is_due now none e = status_eq e.status pending && leb e.scheduled_at now
is_due now (some user_id) e =
    status_eq e.status pending
    && (leb e.scheduled_at now && (id_eq e.user_id user_id && is_welcome e.delivery_type))

-- the ORDER BY clause: `scheduled_at`, then `created_at`
unfoldable pub is_before : Event → Event → Bool
is_before a b =
    ltb a.scheduled_at b.scheduled_at
    || a.scheduled_at == b.scheduled_at && leb a.created_at b.created_at

unfoldable pub earlier : Event → Option Event → Event
unfolding is_before
earlier e none = e
earlier e (some f) = if is_before e f then e else f

-- the first due row in that order
unfoldable pub first_due : Time → Option Uuid → List Event → Option Event
unfolding is_due earlier
first_due now user_id [] = none
first_due now user_id (e ∷ events) =
    let rest = first_due now user_id events in
    if is_due now user_id e then some (earlier e rest) else rest

unfoldable pub start_event : Time → Event → Event
start_event now e = record e {
  status = processing;
  processing_started_at = some now;
  attempt_count = e.attempt_count + 1;
}

unfoldable pub start_delivery : Time → ℕ → Delivery → Delivery
start_delivery now attempts d = record d {
  status = processing;
  processing_started_at = some now;
  attempt_count = attempts;
}

unfoldable pub start_campaign : Time → Campaign → Campaign
start_campaign now c = record c { status = in_process; started_at = some now }

unfoldable pub is_scheduled : Campaign → Bool
is_scheduled c = elim c.status [ scheduled ↦ true | _ ↦ false ]

-- `if campaign and campaign.status == "SCHEDULED"`
unfoldable pub begin_campaign : Time → Option Uuid → Db → Db
unfolding is_scheduled start_campaign put_campaign log
begin_campaign now campaign_id db = elim (find_campaign db campaign_id) [
  | none ↦ db
  | some c ↦
      if is_scheduled c
      then log none campaign_started c.id (put_campaign c.id (start_campaign now) db)
      else db
]

unfoldable pub claim_campaign : Time → Event → Db → Db
unfolding begin_campaign
claim_campaign now e db =
    if is_some e.campaign_delivery_id
    then begin_campaign now e.campaign_id
        (put_delivery e.campaign_delivery_id (start_delivery now e.attempt_count) db)
    else db

unfoldable pub claim : Time → Event → Db → Db
unfolding put_event
claim now e db = claim_campaign now (start_event now e) (put_event e.id (λ _. start_event now e) db)

unfoldable pub claim_event : Db → Time → Option Uuid → Option Event × Db
claim_event db now user_id = elim (first_due now user_id db.events) [
  | none ↦ (none, db)
  | some e ↦ (some (start_event now e), claim now e db)
]
