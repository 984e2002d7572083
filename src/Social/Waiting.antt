-- ===== src/Social/Waiting.antt =====
-- The unique index on the waiting rows of a resource, under the three `enqueue` functions.
use open_city_planner.Social.{
  Event, ResourceType, resource_type_eq, user_polygon, event_type_eq, polygon_adopted_from_osm,
  is_waiting_for,
}
use open_city_planner.Base.{List, Bool, All, count, ◌≡◌, true, Uuid, ◌≤◌}

abbrev pub is_polygon_row : Event → Bool
is_polygon_row e = resource_type_eq e.resource_type user_polygon

abbrev pub adopts : Event → Bool
adopts e = event_type_eq e.event_type polygon_adopted_from_osm

-- `uq_social_outbox_pending_resource`: at most one row of a resource waits. The rows of polygons
-- announce adoptions.
abbrev pub IsIndexed : List Event → Type 0
IsIndexed es =
    All (λ e. is_polygon_row e ≡ true → adopts e ≡ true) es
    × ((kind : ResourceType) (id : Uuid) → count (is_waiting_for kind id) es ≤ 1)
