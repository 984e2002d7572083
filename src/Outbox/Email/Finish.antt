-- ===== src/Outbox/Email/Finish.antt =====
-- `_send_event`, `_refresh_campaign_counts` and `_finish_event` of email_outbox.py.
use open_city_planner.Base.{
  Bool, Uuid, Time, Option, ℕ, List, nth, false, true, get_or, some, if◌then◌else◌, ◌∷◌, none,
  count, update, ◌++◌, [], ◌||◌, min, find, is_some, ◌+◌, ◌-◌, ◌==◌, ◌&&◌, leb, not, length,
}
use open_city_planner.Outbox.Email.{
  Event, Status, Campaign, SendError, put_campaign, put_event, DeliveryType, completed,
  put_delivery, Delivery, Recipient, withdrawn, sent, LastError, skipped, welcome, failed,
  find_campaign, find_user, welcome_email_failed, raised, lookup_error, welcome_email_sent,
  email_delivery_failed, recipients_refused, recipient_gone, campaign_mail, status_eq,
  notification_mail, email_delivery_sent, cancelled, processing, pending, campaign_completed, log,
  Action, Db, is_welcome, CampaignStatus,
}

-- The retry delays in seconds.
abbrev pub retry_delays : List ℕ
retry_delays = 60 ∷ 300 ∷ 1800 ∷ 7200 ∷ 21600 ∷ 86400 ∷ []

-- `delays[min(attempt_count - 1, len(delays) - 1)]`; a claimed row has an attempt
unfoldable pub retry_delay : ℕ → ℕ
retry_delay attempt_count = nth retry_delays (min (attempt_count - 1) (length retry_delays - 1)) 0

unfoldable pub count_in : Uuid → Status → List Delivery → ℕ
count_in campaign_id status deliveries =
    count (λ d. d.campaign_id == campaign_id && status_eq d.status status) deliveries

-- `"COMPLETED" if campaign.status != "CANCELLED" else "CANCELLED"`
abbrev pub final_status : CampaignStatus → CampaignStatus
final_status withdrawn = withdrawn
final_status _ = completed

unfoldable pub is_completed : Campaign → Bool
is_completed c = elim c.status [ completed ↦ true | _ ↦ false ]

unfoldable pub set_counts : ℕ → ℕ → ℕ → Campaign → Campaign
set_counts sent_count failed_count skipped_count c = record c {
  sent_count = sent_count;
  failed_count = failed_count;
  skipped_count = skipped_count;
}

unfoldable pub complete : Time → Campaign → Campaign
complete now c = record c {
  status = final_status c.status;
  completed_at = some (get_or c.completed_at now);
}

unfoldable pub refreshed : List Delivery → Campaign → Campaign
unfolding set_counts count_in
refreshed deliveries c =
    set_counts (count_in c.id sent deliveries) (count_in c.id failed deliveries)
      (count_in c.id skipped deliveries + count_in c.id cancelled deliveries) c

-- `not any(counts.get(status, 0) for status in ("PENDING", "PROCESSING"))`
unfoldable pub is_done : Uuid → List Delivery → Bool
unfolding count_in
is_done id deliveries = count_in id pending deliveries + count_in id processing deliveries == 0

-- The new row of a campaign, from the deliveries as the session has flushed them.
unfoldable pub counted : Time → List Delivery → Campaign → Campaign
unfolding refreshed complete is_done
counted now deliveries c =
    if is_done c.id deliveries
    then complete now (refreshed deliveries c)
    else refreshed deliveries c

unfoldable pub refresh_campaign_counts : Time → Option Uuid → Db → Db
unfolding counted put_campaign log
refresh_campaign_counts now campaign_id db = elim (find_campaign db campaign_id) [
  | none ↦ db
  | some c ↦
      let c' = counted now db.deliveries c in
      let db' = put_campaign c.id (λ _. c') db in
      if is_completed c' && not (is_completed c) then log none campaign_completed c.id db' else db'
]

-- what is sent: the column, or the kind that the template stands for
unfoldable pub delivery_kind : Event → DeliveryType
delivery_kind e = get_or e.delivery_type (if e.template_is_welcome then welcome else campaign_mail)

unfoldable pub has_notification : Db → Option Uuid → Bool
has_notification db none = false
has_notification db (some id) = is_some (find (λ n. n == id) db.notifications)

-- `delivery is None or campaign is None or delivery.status == "CANCELLED"`
unfoldable pub can_send_campaign : Db → Event → Bool
can_send_campaign db e = elim e.campaign_delivery_id [
  | none ↦ false
  | some id ↦ elim (find (λ d. d.id == id) db.deliveries) [
    | none ↦ false
    | some d ↦ is_some (find_campaign db e.campaign_id) && not (status_eq d.status cancelled)
  ]
]

-- `deliver` renders and sends the mail; `none` where that raises nothing.
module _ (deliver : DeliveryType → Event → Recipient → Option SendError) where
  -- what is raised, or `none`
  unfoldable pub send_event : Db → DeliveryType → Event → Recipient → Option SendError
  unfolding has_notification can_send_campaign
  send_event db welcome e u = deliver welcome e u
  send_event db notification_mail e u =
      if has_notification db e.notification_id
      then deliver notification_mail e u
      else some lookup_error
  send_event db campaign_mail e u =
      if can_send_campaign db e then deliver campaign_mail e u else some lookup_error

unfoldable pub fail_delivery : Status → Option LastError → Delivery → Delivery
fail_delivery status last_error d = record d {
  status = status;
  processing_started_at = none;
  last_error = last_error;
}

unfoldable pub refresh_if_delivery : Time → Event → Db → Db
unfolding refresh_campaign_counts
refresh_if_delivery now e db =
    if is_some e.campaign_delivery_id then refresh_campaign_counts now e.campaign_id db else db

-- the row of a recipient whose account is gone
unfoldable pub drop_row : Event → Event
drop_row e = record e {
  status = failed;
  processing_started_at = none;
  last_error = some recipient_gone;
}

-- the recipient's account is gone
unfoldable pub drop_event : Time → Event → Db → Db
drop_event now e db = refresh_if_delivery now e (
    put_delivery e.campaign_delivery_id (fail_delivery skipped (some recipient_gone))
      (put_event e.id drop_row db))

unfoldable pub settle_row : Time → Event → Event
settle_row sent_at e = record e {
  status = sent;
  sent_at = some sent_at;
  processing_started_at = none;
}

-- a welcome mail that was sent before
unfoldable pub settle_event : Time → Event → Db → Db
unfolding put_event
settle_event sent_at e db = put_event e.id (settle_row sent_at) db

unfoldable pub is_permanent : SendError → Bool
is_permanent lookup_error = true
is_permanent recipients_refused = true
is_permanent _ = false

unfoldable pub failed_status : ℕ → SendError → ℕ → Status
unfolding is_permanent
failed_status max_attempts error attempts =
    if is_permanent error || leb max_attempts attempts then failed else pending

unfoldable pub fail_event : ℕ → Time → SendError → Event → Event
unfolding failed_status
fail_event max_attempts now error e = record e {
  status = failed_status max_attempts error e.attempt_count;
  processing_started_at = none;
  last_error = some (raised error);
  scheduled_at =
      if status_eq (failed_status max_attempts error e.attempt_count) pending
      then now + retry_delay e.attempt_count
      else e.scheduled_at;
}

unfoldable pub count_delivery : ℕ → Delivery → Delivery
count_delivery attempts d = record d { attempt_count = attempts }

-- the exception handler; the rollback has undone what `_send_event` did to the session
unfoldable pub retry_or_fail : ℕ → Time → SendError → Event → Db → Db
unfolding put_event fail_event log
retry_or_fail max_attempts now error e db =
    let e' = fail_event max_attempts now error e in
    log e.user_id
      (if is_welcome e.delivery_type then welcome_email_failed else email_delivery_failed) e.id
      (refresh_if_delivery now e (
        put_delivery e.campaign_delivery_id
          (λ d. count_delivery e.attempt_count (fail_delivery e'.status e'.last_error d))
          (put_event e.id (λ _. e') db)))

unfoldable pub sent_event : Time → DeliveryType → Event → Event
sent_event now kind e = record e {
  delivery_type = some kind;
  status = sent;
  sent_at = some now;
  processing_started_at = none;
  last_error = none;
}

unfoldable pub sent_delivery : Time → Delivery → Delivery
sent_delivery now d = record d {
  status = sent;
  sent_at = some now;
  processing_started_at = none;
  last_error = none;
}

-- `user.welcome_email_sent_at = sent_at` for a welcome mail
unfoldable pub mark_welcomed : Time → DeliveryType → Recipient → Db → Db
mark_welcomed now welcome u db = record db {
  users = update (λ x. x.id == u.id) (λ x. record x { welcome_email_sent_at = some now }) db.users;
}
mark_welcomed now notification_mail u db = db
mark_welcomed now campaign_mail u db = db

unfoldable pub record_mail : DeliveryType → Recipient → Db → Db
record_mail kind u db = record db {
  mails = db.mails ++ record { kind = kind; to_user = u.id } ∷ [];
}

unfoldable pub sent_action : DeliveryType → Action
sent_action welcome = welcome_email_sent
sent_action _ = email_delivery_sent

unfoldable pub mark_sent : Time → DeliveryType → Event → Recipient → Db → Db
unfolding put_event log
mark_sent now kind e u db = log (some u.id) (sent_action kind) e.id (
    refresh_if_delivery now e (
      put_delivery e.campaign_delivery_id (sent_delivery now) (
        mark_welcomed now kind u
          (put_event e.id (λ _. sent_event now kind e) (record_mail kind u db)))))

-- `welcome_email_sent_at`, where it is asked for: of a welcome mail's recipient
abbrev pub already_welcomed : DeliveryType → Recipient → Option Time
already_welcomed welcome u = u.welcome_email_sent_at
already_welcomed notification_mail u = none
already_welcomed campaign_mail u = none

module _ (deliver : DeliveryType → Event → Recipient → Option SendError) (max_attempts : ℕ) where
  -- the part of `_finish_event` from the locked user on
  unfoldable pub finish_for : Db → Time → Event → Recipient → Bool × Db
  finish_for db now e u = elim (send_event deliver db (delivery_kind e) e u) [
    | none ↦ (true, mark_sent now (delivery_kind e) e u db)
    | some error ↦ (false, retry_or_fail max_attempts now error e db)
  ]

  unfoldable pub finish_claimed : Db → Time → Event → Bool × Db
  finish_claimed db now e = elim (find_user db e.user_id) [
    | none ↦ (false, drop_event now e db)
    | some u ↦ elim (already_welcomed (delivery_kind e) u) [
      | some sent_at ↦ (true, settle_event sent_at e db)
      | none ↦ finish_for db now e u
    ]
  ]

  unfoldable pub finish_event : Db → Time → Uuid → Bool × Db
  finish_event db now event_id = elim (find (λ e. e.id == event_id) db.events) [
    | none ↦ (false, db)
    | some e ↦ if status_eq e.status processing then finish_claimed db now e else (false, db)
  ]
