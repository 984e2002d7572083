-- ===== src/Social/Enqueue.antt =====
-- The three `enqueue` functions of backend/app/services/social_publishing.py and the withdrawal of
-- a deleted area's posts. The insert is checked against no index here: the theorems show that the
-- rows satisfy it.
use open_city_planner.Base.{
  Bool, List, Uuid, ℕ, none, false, ◌||◌, ◌&&◌, true, Time, count, if◌then◌else◌, ◌++◌, Option, ◌∷◌,
  update, ◌+◌, [], ◌==◌, filter, find, not, some, ltb,
}
use open_city_planner.Social.{
  Db, Event, EventType, Fields, Policy, Settings, Status, event_is_enabled, is_about, event_type_eq,
  Field, user_polygon, AuditLog, pending_approval, ResourceType, area_created, unpublished,
  cancelled, name, polygon_adopted_from_osm, area_type, publication_cancelled, is_manual,
  area_public_data_updated, pending, analysis_area, area_statistics_bulk_updated,
  analysis_area_collection, parent_id, deleted, is_waiting_for, processing, area_boundary_updated,
  geometry, area_statistics_updated, failed, put_event, area_m2, source, statistics,
}

-- `area_type in PUBLISHABLE_AREA_TYPES`
pub data AreaType : Type 0 where
  municipality district quarter custom : AreaType

abbrev pub is_publishable_type : AreaType → Bool
is_publishable_type custom = false
is_publishable_type _ = true

pub record Area : Type 0 where
  pub uuid : Uuid
  pub area_type : AreaType

-- `event_type in AREA_EVENTS`
abbrev pub is_area_event : EventType → Bool
is_area_event area_created = true
is_area_event area_public_data_updated = true
is_area_event area_boundary_updated = true
is_area_event area_statistics_updated = true
is_area_event _ = false

-- `changed_fields & PUBLISHABLE_AREA_FIELDS`
abbrev pub publishable : Fields → Fields
publishable fields unpublished = false
publishable fields f = fields f

abbrev pub publishable_fields : List Field
publishable_fields = name ∷ area_type ∷ parent_id ∷ geometry ∷ area_m2 ∷ source ∷ statistics ∷ []

unfoldable pub has_any : Fields → List Field → Bool
has_any fields [] = false
has_any fields (f ∷ fs) = fields f || has_any fields fs

abbrev pub union : Fields → Fields → Fields
union a b f = a f || b f

unfoldable pub may_enqueue : Settings → Policy → EventType → Bool
unfolding event_is_enabled
may_enqueue settings policy t =
    settings.mastodon_enabled && (policy.enabled && event_is_enabled policy t)

-- A new row; `due` is its `next_attempt_at`.
unfoldable pub new_event :
    Policy → Uuid → Time → Time → EventType → ResourceType → Uuid → Fields → ℕ → Event
new_event policy id now due t kind resource_id fields rows = record {
  id = id;
  event_type = t;
  resource_type = kind;
  resource_id = resource_id;
  approval_required = is_manual policy.approval_mode;
  changed_fields = fields;
  changed_rows = rows;
  approved_by_user_id = none;
  status = if is_manual policy.approval_mode then pending_approval else pending;
  attempt_count = 0;
  next_attempt_at = due;
  processing_started_at = none;
  published_at = none;
  last_error = none;
  remote = none;
  mastodon_media_id = none;
  screenshot_path = none;
  screenshot_alt_text = none;
  content_hash = none;
  is_dry_run = false;
  created_at = now;
}

unfoldable pub add_event : Event → Db → Db
add_event e db = record db { events = db.events ++ e ∷ [] }

-- the event type of the merged row
unfoldable pub merged_type : EventType → EventType → EventType
merged_type t old =
    if event_type_eq t area_created
      || not (event_type_eq old area_created) && event_type_eq t area_boundary_updated
    then t
    else old

unfoldable pub merge_area : EventType → Fields → Time → Event → Event
unfolding merged_type
merge_area t fields due e = record e {
  changed_fields = union e.changed_fields fields;
  event_type = merged_type t e.event_type;
  next_attempt_at = due;
}

unfoldable pub merge_rows : ℕ → Time → Event → Event
merge_rows rows due e = record e { changed_rows = e.changed_rows + rows; next_attempt_at = due }

-- The guards, all of which lead to `return None`.
unfoldable pub may_enqueue_area : Settings → Policy → Area → EventType → Fields → Bool
unfolding may_enqueue has_any
may_enqueue_area settings policy area t fields =
    is_publishable_type area.area_type
    && (is_area_event t
        && (has_any (publishable fields) publishable_fields && may_enqueue settings policy t))

unfoldable pub enqueue_area_publication :
    Settings → Policy → Db → Time → Area → EventType → Fields → Uuid → Option Event × Db
unfolding merge_area new_event add_event
enqueue_area_publication settings policy db now area t fields id =
    let due = now + policy.debounce_seconds in
    let allowed = publishable fields in
    let fresh = new_event policy id now due t analysis_area area.uuid allowed 0 in
    if may_enqueue_area settings policy area t fields
    then elim (find (is_waiting_for analysis_area area.uuid) db.events) [
      | some e ↦
          (some (merge_area t allowed due e), put_event e.id (λ _. merge_area t allowed due e) db)
      | none ↦ (some fresh, add_event fresh db)
    ]
    else (none, db)

abbrev pub collection_resource_id : Uuid
collection_resource_id = 0

abbrev pub no_fields : Fields
no_fields f = false

unfoldable pub enqueue_statistics_summary :
    Settings → Policy → Db → Time → ℕ → Uuid → Option Event × Db
unfolding merge_rows new_event add_event
enqueue_statistics_summary settings policy db now rows id =
    let due = now + policy.debounce_seconds in
    let fresh =
      new_event policy id now due area_statistics_bulk_updated analysis_area_collection
        collection_resource_id no_fields rows in
    if ltb 0 rows && may_enqueue settings policy area_statistics_bulk_updated
    then elim (find (is_waiting_for analysis_area_collection collection_resource_id) db.events) [
      | some e ↦ (some (merge_rows rows due e), put_event e.id (λ _. merge_rows rows due e) db)
      | none ↦ (some fresh, add_event fresh db)
    ]
    else (none, db)

abbrev pub polygon_adoption_delay_seconds : ℕ
polygon_adoption_delay_seconds = 30

unfoldable pub is_adoption : Uuid → Event → Bool
is_adoption polygon e =
    event_type_eq e.event_type polygon_adopted_from_osm && e.resource_id == polygon

unfoldable pub enqueue_polygon_adoption :
    Settings → Policy → Db → Time → Uuid → Uuid → Option Event × Db
unfolding new_event add_event
enqueue_polygon_adoption settings policy db now polygon id =
    let fresh =
      new_event policy id now (now + polygon_adoption_delay_seconds) polygon_adopted_from_osm
        user_polygon polygon no_fields 0 in
    if may_enqueue settings policy polygon_adopted_from_osm
    then elim (find (is_adoption polygon) db.events) [
      | some e ↦ (some e, db)
      | none ↦ (some fresh, add_event fresh db)
    ]
    else (none, db)

-- the statuses that a deleted polygon's rows are withdrawn from
abbrev pub is_open_status : Status → Bool
is_open_status pending_approval = true
is_open_status pending = true
is_open_status processing = true
is_open_status failed = true
is_open_status _ = false

unfoldable pub is_withdrawn : Uuid → Event → Bool
unfolding is_about
is_withdrawn polygon e = is_about user_polygon polygon e && is_open_status e.status

unfoldable pub withdraw : Event → Event
withdraw e = record e {
  screenshot_path = none;
  processing_started_at = none;
  status = cancelled;
  last_error = some deleted;
}

abbrev withdrawal_log : List Event → List AuditLog
withdrawal_log [] = []
withdrawal_log (e ∷ es) =
    record { actor_user_id = none; action = publication_cancelled; event_id = e.id }
    ∷ withdrawal_log es

unfoldable pub cancel_pending_polygon_publications : Db → Uuid → ℕ × Db
unfolding is_withdrawn withdraw
cancel_pending_polygon_publications db polygon = (
  count (is_withdrawn polygon) db.events,
  record db {
    events = update (is_withdrawn polygon) withdraw db.events;
    audit = db.audit ++ withdrawal_log (filter (is_withdrawn polygon) db.events);
  },
)
