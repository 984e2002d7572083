-- ===== src/Social.antt =====
-- backend/app/models/social_publication.py and social_policy.py: the outbox of the posts to Mastodon,
-- its settings and what the worker records. A JSON payload is the fields that the services read.
pub mod Enqueue
pub mod Admin
pub mod Attempt
pub mod Publish
pub mod Diagram
pub mod Moves
pub mod Keyed
pub mod Evolves
pub mod Steps
pub mod Follow
pub mod Govern
pub mod Reach
pub mod Outcomes
pub mod Totalled
pub mod Merged
pub mod Waiting
pub mod Posts
pub mod Fits
pub mod Labels
pub mod Examples
use open_city_planner.Base.{
  ℕ, Bool, true, false, Uuid, Time, Digest, Text, Option, none, some, List, [], ◌∷◌, ◌++◌, ◌||◌,
  ◌&&◌, ◌==◌, not, update, find,
}

-- The states of `ck_social_outbox_status`.
pub data Status : Type 0 where
  pending_approval pending processing published failed cancelled dry_run : Status

abbrev pub status_eq : Status → Status → Bool
status_eq pending_approval pending_approval = true
status_eq pending pending = true
status_eq processing processing = true
status_eq published published = true
status_eq failed failed = true
status_eq cancelled cancelled = true
status_eq dry_run dry_run = true
status_eq _ _ = false

-- The registered events; the number stands for any other string.
pub data EventType : Type 0 where
  area_created area_public_data_updated area_boundary_updated : EventType
  area_statistics_updated area_statistics_bulk_updated polygon_adopted_from_osm : EventType
  unregistered : ℕ → EventType

abbrev pub event_type_eq : EventType → EventType → Bool
event_type_eq area_created area_created = true
event_type_eq area_public_data_updated area_public_data_updated = true
event_type_eq area_boundary_updated area_boundary_updated = true
event_type_eq area_statistics_updated area_statistics_updated = true
event_type_eq area_statistics_bulk_updated area_statistics_bulk_updated = true
event_type_eq polygon_adopted_from_osm polygon_adopted_from_osm = true
event_type_eq (unregistered n) (unregistered m) = n == m
event_type_eq _ _ = false

-- `event_type in KNOWN_SOCIAL_EVENTS`
abbrev pub is_known : EventType → Bool
is_known (unregistered n) = false
is_known _ = true

pub data ResourceType : Type 0 where
  analysis_area analysis_area_collection user_polygon : ResourceType

abbrev pub resource_type_eq : ResourceType → ResourceType → Bool
resource_type_eq analysis_area analysis_area = true
resource_type_eq analysis_area_collection analysis_area_collection = true
resource_type_eq user_polygon user_polygon = true
resource_type_eq _ _ = false

pub data ApprovalMode : Type 0 where
  automatic manual only_dry_run : ApprovalMode

abbrev pub is_manual : ApprovalMode → Bool
is_manual manual = true
is_manual _ = false

abbrev pub is_only_dry_run : ApprovalMode → Bool
is_only_dry_run only_dry_run = true
is_only_dry_run _ = false

-- The fields of an area: the publishable ones, and any other.
pub data Field : Type 0 where
  name area_type parent_id geometry area_m2 source statistics unpublished : Field

-- A set of fields by its characteristic function; the payload holds its members in order.
abbrev pub Fields : Type 0
Fields = Field → Bool

-- What is raised: the three classes that the worker catches, with `retryable`, and `retry_after` of a
-- MastodonError; and any other exception.
pub data Raised : Type 0 where
  resource_gone : Raised
  mastodon_error : Bool → Option ℕ → Raised
  screenshot_error : Bool → Raised
  other_error : Raised

-- `last_error`: that the resource was deleted, or what was raised
pub data LastError : Type 0 where
  deleted : LastError
  caught : Raised → LastError

-- `mastodon_status_id` and `mastodon_status_url`
pub record Remote : Type 0 where
  pub id : ℕ
  pub url : ℕ

-- `approval_required`, `changed_fields`, `changed_rows` and `approved_by_user_id` are the payload's.
pub record Event : Type 0 where
  pub id : Uuid
  pub event_type : EventType
  pub resource_type : ResourceType
  pub resource_id : Uuid
  pub approval_required : Bool
  pub changed_fields : Fields
  pub changed_rows : ℕ
  pub approved_by_user_id : Option Uuid
  pub status : Status
  pub attempt_count : ℕ
  pub next_attempt_at : Time
  pub processing_started_at : Option Time
  pub published_at : Option Time
  pub last_error : Option LastError
  pub remote : Option Remote
  pub mastodon_media_id : Option ℕ
  pub screenshot_path : Option ℕ
  pub screenshot_alt_text : Option Text
  pub content_hash : Option Digest
  pub is_dry_run : Bool
  pub created_at : Time

pub record Publication : Type 0 where
  pub outbox_event_id : Uuid
  pub event_type : EventType
  pub resource_id : Uuid
  pub content_hash : Digest
  pub remote : Option Remote
  pub remote_media_id : Option ℕ
  pub is_dry_run : Bool
  pub published_at : Time

pub data Action : Type 0 where
  publication_cancelled status_published publication_failed : Action
  retry_requested publication_approved : Action

pub record AuditLog : Type 0 where
  pub actor_user_id : Option Uuid
  pub action : Action
  pub event_id : Uuid

-- `statuses` holds the idempotency keys of the statuses that Mastodon accepted, by their events.
pub record Db : Type 0 where
  pub events : List Event
  pub publications : List Publication
  pub statuses : List Uuid
  pub audit : List AuditLog

-- The environment's settings that the services read.
pub record Settings : Type 0 where
  pub mastodon_enabled : Bool
  pub mastodon_dry_run : Bool
  pub mastodon_has_token : Bool
  pub mastodon_max_attempts : ℕ

-- The row of `social_publishing_settings`.
pub record Policy : Type 0 where
  pub enabled : Bool
  pub approval_mode : ApprovalMode
  pub debounce_seconds : ℕ
  pub enabled_events : List EventType

unfoldable pub has_type : EventType → List EventType → Bool
has_type t [] = false
has_type t (u ∷ us) = event_type_eq t u || has_type t us

unfoldable pub event_is_enabled : Policy → EventType → Bool
unfolding has_type
event_is_enabled policy t = is_known t && has_type t policy.enabled_events

-- `settings.mastodon_dry_run or policy.approval_mode == "DRY_RUN"`
unfoldable pub is_dry : Settings → Policy → Bool
is_dry settings policy = settings.mastodon_dry_run || is_only_dry_run policy.approval_mode

-- the rows of the partial unique index on a resource
unfoldable pub is_waiting : Event → Bool
is_waiting e = status_eq e.status pending || status_eq e.status pending_approval

unfoldable pub is_about : ResourceType → Uuid → Event → Bool
is_about t id e = resource_type_eq e.resource_type t && e.resource_id == id

-- the row that an `enqueue` function looks for
unfoldable pub is_waiting_for : ResourceType → Uuid → Event → Bool
unfolding is_waiting is_about
is_waiting_for t id e = is_about t id e && is_waiting e

unfoldable pub put_event : Uuid → (Event → Event) → Db → Db
put_event id f db = record db { events = update (λ e. e.id == id) f db.events }

unfoldable pub log : Option Uuid → Action → Uuid → Db → Db
log actor action event_id db = record db {
  audit = db.audit ++ record { actor_user_id = actor; action = action; event_id = event_id } ∷ [];
}
