-- ===== src/Outbox/Email.antt =====
-- backend/app/services/email_outbox.py: the claim of a due mail and what its delivery leads to. The
-- calls of email_service.py are a parameter, `deliver`. One worker is modelled: the rows that
-- `skip_locked` passes over are those of no other.
pub mod Claim
pub mod Finish
pub mod Process
pub mod Keeps
pub mod Order
pub mod Delays
pub mod Retries
pub mod Totals
pub mod Welcome
pub mod Once
pub mod Counted
pub mod Counts
pub mod Examples
use open_city_planner.Base.{
  none, Bool, true, List, Option, Uuid, false, update, Time, some, ℕ, ◌++◌, ◌==◌, ◌∷◌, find, [],
}

pub data DeliveryType : Type 0 where
  welcome campaign_mail notification_mail : DeliveryType

-- The states of an outbox row and of a campaign's delivery; only a delivery is ever `skipped`.
pub data Status : Type 0 where
  pending processing sent failed cancelled skipped : Status

abbrev pub status_eq : Status → Status → Bool
status_eq pending pending = true
status_eq processing processing = true
status_eq sent sent = true
status_eq failed failed = true
status_eq cancelled cancelled = true
status_eq skipped skipped = true
status_eq _ _ = false

-- The classes of exceptions that `_finish_event` catches. `lookup_error` and `recipients_refused`
-- are the permanent ones.
pub data SendError : Type 0 where
  template_validation lookup_error os_error recipients_refused runtime_error : SendError
  sqlalchemy_error value_error : SendError

pub data LastError : Type 0 where
  recipient_gone : LastError
  raised : SendError → LastError

-- `template_is_welcome` is `template_key == "welcome"`.
pub record Event : Type 0 where
  pub id : Uuid
  pub template_is_welcome : Bool
  pub delivery_type : Option DeliveryType
  pub user_id : Option Uuid
  pub campaign_id : Option Uuid
  pub campaign_delivery_id : Option Uuid
  pub notification_id : Option Uuid
  pub status : Status
  pub attempt_count : ℕ
  pub last_error : Option LastError
  pub created_at : Time
  pub scheduled_at : Time
  pub processing_started_at : Option Time
  pub sent_at : Option Time

pub record Recipient : Type 0 where
  pub id : Uuid
  pub is_verified : Bool
  pub welcome_email_sent_at : Option Time

pub record Delivery : Type 0 where
  pub id : Uuid
  pub campaign_id : Uuid
  pub status : Status
  pub attempt_count : ℕ
  pub processing_started_at : Option Time
  pub sent_at : Option Time
  pub last_error : Option LastError

pub data CampaignStatus : Type 0 where
  draft scheduled in_process completed withdrawn : CampaignStatus

pub record Campaign : Type 0 where
  pub id : Uuid
  pub status : CampaignStatus
  pub started_at : Option Time
  pub completed_at : Option Time
  pub recipient_count : ℕ
  pub sent_count : ℕ
  pub failed_count : ℕ
  pub skipped_count : ℕ

pub data Action : Type 0 where
  campaign_started campaign_completed welcome_email_failed email_delivery_failed : Action
  welcome_email_sent email_delivery_sent : Action

pub record AuditLog : Type 0 where
  pub target_user_id : Option Uuid
  pub action : Action
  pub resource_id : Uuid

-- A mail that was handed over: its kind and its recipient.
pub record SentMail : Type 0 where
  pub kind : DeliveryType
  pub to_user : Uuid

pub record Db : Type 0 where
  pub events : List Event
  pub users : List Recipient
  pub deliveries : List Delivery
  pub campaigns : List Campaign
  pub notifications : List Uuid
  pub audit : List AuditLog
  pub mails : List SentMail

unfoldable pub put_event : Uuid → (Event → Event) → Db → Db
put_event id f db = record db { events = update (λ e. e.id == id) f db.events }

-- `if event.campaign_delivery_id: delivery = await session.get(…); if delivery: …`
unfoldable pub put_delivery : Option Uuid → (Delivery → Delivery) → Db → Db
put_delivery none f db = db
put_delivery (some id) f db = record db { deliveries = update (λ d. d.id == id) f db.deliveries }

unfoldable pub put_campaign : Uuid → (Campaign → Campaign) → Db → Db
put_campaign id f db = record db { campaigns = update (λ c. c.id == id) f db.campaigns }

unfoldable pub log : Option Uuid → Action → Uuid → Db → Db
log user_id action resource_id db = record db {
  audit =
      db.audit
      ++ record { target_user_id = user_id; action = action; resource_id = resource_id } ∷ [];
}

unfoldable pub find_campaign : Db → Option Uuid → Option Campaign
find_campaign db none = none
find_campaign db (some id) = find (λ c. c.id == id) db.campaigns

unfoldable pub find_user : Db → Option Uuid → Option Recipient
find_user db none = none
find_user db (some id) = find (λ u. u.id == id) db.users

-- `delivery_type == "WELCOME"`
abbrev pub is_welcome : Option DeliveryType → Bool
is_welcome (some welcome) = true
is_welcome _ = false
