-- ===== src/Outbox/Email/Keeps.antt =====
-- What the changes to deliveries, campaigns and the audit log leave alone: the rows of the outbox,
-- the users and the mails.
use open_city_planner.Outbox.Email.{
  Db, log, put_delivery, Event, put_campaign, Recipient, SentMail, Delivery, Action, find_campaign,
  put_event, DeliveryType, SendError, welcome, notification_mail, skipped, campaign_mail,
  recipient_gone,
}
use open_city_planner.Outbox.Email.Claim.{
  begin_campaign, claim_campaign, start_delivery, is_scheduled,
}
use open_city_planner.Outbox.Email.Finish.{
  refresh_campaign_counts, refresh_if_delivery, is_completed, counted, retry_or_fail, mark_sent,
  drop_event, mark_welcomed, drop_row, sent_event, fail_event, record_mail, fail_delivery,
  sent_delivery, count_delivery,
}
use open_city_planner.Base.{
  ◌∙◌, List, Option, Time, Uuid, ◌≡◌, Bool-cases, Option-cases, is_some, some, inl, none, inr, ◌&&◌,
  not, refl, ℕ,
}

abbrev pub Core : Type 0
Core = List Event × List Recipient × List SentMail

abbrev pub core : Db → Core
core db = (db.events, db.users, db.mails)

pub core-put_delivery :
    (id : Option Uuid) (f : Delivery → Delivery) (db : Db) → core (put_delivery id f db) ≡ core db
unfolding put_delivery
core-put_delivery none f db = refl
core-put_delivery (some id) f db = refl

pub core-begin_campaign :
    (now : Time) (id : Option Uuid) (db : Db) → core (begin_campaign now id db) ≡ core db
unfolding begin_campaign log put_campaign
core-begin_campaign now id db = elim (Option-cases (find_campaign db id)) [
  | inl gone ↦ rw (gone, begin_campaign) refl
  | inr (c, found) ↦ elim (Bool-cases (is_scheduled c)) [
    | inl y ↦ rw (found, y, begin_campaign) refl
    | inr n ↦ rw (found, n, begin_campaign) refl
  ]
]

pub core-claim_campaign :
    (now : Time) (e : Event) (db : Db) → core (claim_campaign now e db) ≡ core db
unfolding claim_campaign
core-claim_campaign now e db = elim (Bool-cases (is_some e.campaign_delivery_id)) [
  | inl y ↦ rw y (
      core-begin_campaign now e.campaign_id
        (put_delivery e.campaign_delivery_id (start_delivery now e.attempt_count) db)
      ∙ core-put_delivery e.campaign_delivery_id (start_delivery now e.attempt_count) db)
  | inr n ↦ rw n refl
]

pub core-refresh_campaign_counts :
    (now : Time) (id : Option Uuid) (db : Db) → core (refresh_campaign_counts now id db) ≡ core db
unfolding refresh_campaign_counts log put_campaign
core-refresh_campaign_counts now id db = elim (Option-cases (find_campaign db id)) [
  | inl gone ↦ rw (gone, refresh_campaign_counts) refl
  | inr (c, found) ↦
      elim (Bool-cases (is_completed (counted now db.deliveries c) && not (is_completed c))) [
        | inl y ↦ rw (found, y, refresh_campaign_counts) refl
        | inr n ↦ rw (found, n, refresh_campaign_counts) refl
      ]
]

pub core-refresh_if_delivery :
    (now : Time) (e : Event) (db : Db) → core (refresh_if_delivery now e db) ≡ core db
unfolding refresh_if_delivery
core-refresh_if_delivery now e db = elim (Bool-cases (is_some e.campaign_delivery_id)) [
  | inl y ↦ rw y (core-refresh_campaign_counts now e.campaign_id db)
  | inr n ↦ rw n refl
]

pub core-log :
    (user_id : Option Uuid) (a : Action) (id : Uuid) (db : Db)
    → core (log user_id a id db) ≡ core db
unfolding log
core-log user_id a id db = refl

pub core-drop_event :
    (now : Time) (e : Event) (db : Db)
    → core (drop_event now e db) ≡ core (put_event e.id drop_row db)
unfolding drop_event
core-drop_event now e db =
    core-refresh_if_delivery now e (
      put_delivery e.campaign_delivery_id (fail_delivery skipped (some recipient_gone))
        (put_event e.id drop_row db))
    ∙ core-put_delivery e.campaign_delivery_id (fail_delivery skipped (some recipient_gone))
        (put_event e.id drop_row db)

pub core-retry_or_fail :
    (max_attempts : ℕ) (now : Time) (error : SendError) (e : Event) (db : Db)
    → core (retry_or_fail max_attempts now error e db)
      ≡ core (put_event e.id (λ _. fail_event max_attempts now error e) db)
unfolding retry_or_fail log
core-retry_or_fail max_attempts now error e db =
    let e' = fail_event max_attempts now error e in
    let set : Delivery → Delivery =
      λ d. count_delivery e.attempt_count (fail_delivery e'.status e'.last_error d) in
    core-refresh_if_delivery now e
      (put_delivery e.campaign_delivery_id set (put_event e.id (λ _. e') db))
    ∙ core-put_delivery e.campaign_delivery_id set (put_event e.id (λ _. e') db)

pub core-mark_sent :
    (now : Time) (kind : DeliveryType) (e : Event) (u : Recipient) (db : Db)
    → core (mark_sent now kind e u db)
      ≡ core (
          mark_welcomed now kind u
            (put_event e.id (λ _. sent_event now kind e) (record_mail kind u db)))
unfolding mark_sent log
core-mark_sent now kind e u db =
    let db' =
      mark_welcomed now kind u
        (put_event e.id (λ _. sent_event now kind e) (record_mail kind u db)) in
    core-refresh_if_delivery now e (put_delivery e.campaign_delivery_id (sent_delivery now) db')
    ∙ core-put_delivery e.campaign_delivery_id (sent_delivery now) db'

pub events-mark_welcomed :
    (now : Time) (kind : DeliveryType) (u : Recipient) (db : Db)
    → (mark_welcomed now kind u db).events ≡ db.events
unfolding mark_welcomed
events-mark_welcomed now welcome u db = refl
events-mark_welcomed now notification_mail u db = refl
events-mark_welcomed now campaign_mail u db = refl
