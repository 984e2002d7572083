-- ===== src/Social/Follow.antt =====
-- Every operation on the outbox follows the diagram and keeps the primary key.
use open_city_planner.Social.{
  Event, Settings, Db, Policy, put_event, EventType, ResourceType, Fields, is_manual,
  pending_approval, pending, Status, is_waiting_for, analysis_area_collection, analysis_area,
  polygon_adopted_from_osm, processing, area_statistics_bulk_updated, failed, published, dry_run,
  user_polygon, cancelled, event_type_eq, area_created, unregistered, area_public_data_updated,
  area_boundary_updated, area_statistics_updated,
}
use open_city_planner.Base.{
  Bool, List, Uuid, find, Time, ◌≡◌, some, ℕ, count, if_cases, true, false, ◌==◌, refl, ◌+◌,
  Bool-cases, ltb, arith, inr, ◌&&◌, inl, Option-cases, none, count-eq-zero_of_find, subst, ◌||◌,
  not, find-IsOnlyOf,
}
use open_city_planner.Social.Enqueue.{
  new_event, enqueue_area_publication, Area, cancel_pending_polygon_publications,
  enqueue_polygon_adoption, enqueue_statistics_summary, merge_area, add_event, is_withdrawn,
  is_open_status, merge_rows, withdraw, polygon_adoption_delay_seconds, may_enqueue_area,
  collection_resource_id, may_enqueue, is_adoption, publishable, no_fields, is_area_event,
  merged_type,
}
use open_city_planner.Social.Keyed.{IsKeyed, has_id}
use open_city_planner.Social.Steps.{IsStep, IsOnly, put-IsStep, all-IsStep, IsStep-refl, add-IsStep}
use open_city_planner.Social.Evolves.{IsLater, IsBorn, IsStart, awaiting, waiting}
use open_city_planner.Social.Diagram.{
  Phase, Route, at, here, IsOpen, awaits, waits, one_edge, works, discard, stuck,
}

pub found-IsOnly :
    (p : Event → Bool) (es : List Event) (e : Event) → IsKeyed es → find p es ≡ some e → IsOnly e es
found-IsOnly p es e keyed h = find-IsOnlyOf (λ (x : Event). x.id) p e es (keyed.0 e.id) h

module _ (m : Bool) where
  -- The outbox of the new state, from that of the old.
  abbrev pub IsDbStep : Db → Db → Type 0
  IsDbStep db db' = IsStep m db.events db'.events

  new_event-IsBorn :
      (policy : Policy) (id : Uuid) (now due : Time) (t : EventType) (kind : ResourceType)
      (resource : Uuid) (fields : Fields) (rows : ℕ)
      → IsBorn m (new_event policy id now due t kind resource fields rows)
  unfolding new_event
  new_event-IsBorn policy id now due t kind resource fields rows =
      if_cases (λ s. (p : Phase) × IsStart p × Route m p (at s (is_manual policy.approval_mode)))
        (is_manual policy.approval_mode) pending_approval pending
        (λ h. (at pending_approval true, awaiting, rw h here))
        (λ h. (at pending false, waiting, rw h here))

  -- a row that a query has found is changed
  found-IsDbStep :
      (db : Db) (p : Event → Bool) (f : Event → Event) (e : Event)
      → find p db.events ≡ some e
      → IsLater m e (f e)
      → IsDbStep db (put_event e.id (λ _. f e) db)
  unfolding put_event
  found-IsDbStep db p f e h later keyed =
      put-IsStep m e (λ _. f e) db.events (found-IsOnly p db.events e keyed h) later keyed

  -- a row that is loaded by its identity is changed
  pub get-IsDbStep :
      (db : Db) (id : Uuid) (f : Event → Event) (e : Event)
      → find (λ x. x.id == id) db.events ≡ some e
      → IsLater m e (f e)
      → IsDbStep db (put_event e.id f db)
  unfolding put_event
  get-IsDbStep db id f e h later keyed =
      put-IsStep m e f db.events (found-IsOnly (λ x. x.id == id) db.events e keyed h) later keyed

  -- no event of an area is the adoption of a polygon
  pub area_event_lem :
      (t : EventType) → is_area_event t ≡ true → event_type_eq t polygon_adopted_from_osm ≡ false
  area_event_lem area_created h = refl
  area_event_lem area_public_data_updated h = refl
  area_event_lem area_boundary_updated h = refl
  area_event_lem area_statistics_updated h = refl
  area_event_lem area_statistics_bulk_updated h = absurd (ground arith)
  area_event_lem polygon_adopted_from_osm h = absurd (ground arith)
  area_event_lem (unregistered n) h = absurd (ground arith)

  merge_area-IsLater :
      (t : EventType) (fields : Fields) (due : Time) (e : Event)
      → is_area_event t ≡ true
      → IsLater m e (merge_area t fields due e)
  unfolding merge_area merged_type is_adoption
  merge_area-IsLater t fields due e h = (
    refl,
    here,
    λ polygon.
        if_cases
          (λ u.
            (event_type_eq u polygon_adopted_from_osm && e.resource_id == polygon) ≡ true
            → (event_type_eq e.event_type polygon_adopted_from_osm && e.resource_id == polygon)
              ≡ true)
          (event_type_eq t area_created
            || not (event_type_eq e.event_type area_created)
              && event_type_eq t area_boundary_updated)
          t e.event_type (λ k i. absurd (ground (arith, area_event_lem t h))) (λ k i. i),
  )

  -- a second announcement of a polygon is not added
  alone_adoption :
      (polygon other : Uuid) (e : Event) (es : List Event)
      → e.resource_id ≡ polygon
      → find (is_adoption polygon) es ≡ none
      → is_adoption other e ≡ true
      → count (is_adoption other) es ≡ 0
  unfolding is_adoption
  alone_adoption polygon other e es own h k =
      count-eq-zero_of_find (is_adoption other) es
        (subst (λ i. find (is_adoption i) es ≡ none) (ground arith) h)

  module _ (settings : Settings) (policy : Policy) (db : Db) (now : Time) where
    pub enqueue_area-IsDbStep :
        (area : Area) (t : EventType) (fields : Fields) (id : Uuid)
        → count (has_id id) db.events ≡ 0
        → IsDbStep db (enqueue_area_publication settings policy db now area t fields id).1
    unfolding enqueue_area_publication merge_area new_event add_event is_adoption may_enqueue_area
    enqueue_area-IsDbStep area t fields id new =
        let due = now + policy.debounce_seconds in
        let fresh : Event =
          new_event policy id now due t analysis_area area.uuid (publishable fields) 0 in
        let p : Event → Bool = is_waiting_for analysis_area area.uuid in
        elim (Bool-cases (may_enqueue_area settings policy area t fields)) [
          | inr n ↦ rw (n, enqueue_area_publication) (IsStep-refl m db.events)
          | inl y ↦ elim (Option-cases (find p db.events)) [
            | inr (e, h) ↦
                rw (y, h, enqueue_area_publication)
                  (found-IsDbStep db p (merge_area t (publishable fields) due) e h
                    (merge_area-IsLater t (publishable fields) due e (ground arith)))
            | inl h ↦
                rw (y, h, enqueue_area_publication)
                  (add-IsStep m fresh db.events
                    (new_event-IsBorn policy id now due t analysis_area area.uuid
                      (publishable fields) 0)
                    new (λ polygon k. absurd (ground (arith, area_event_lem t))))
          ]
        ]

    pub enqueue_summary-IsDbStep :
        (rows : ℕ) (id : Uuid)
        → count (has_id id) db.events ≡ 0
        → IsDbStep db (enqueue_statistics_summary settings policy db now rows id).1
    unfolding enqueue_statistics_summary merge_rows new_event add_event is_adoption
    enqueue_summary-IsDbStep rows id new =
        let due = now + policy.debounce_seconds in
        let fresh : Event =
          new_event policy id now due area_statistics_bulk_updated analysis_area_collection
            collection_resource_id no_fields rows in
        let p : Event → Bool = is_waiting_for analysis_area_collection collection_resource_id in
        elim (Bool-cases (ltb 0 rows && may_enqueue settings policy area_statistics_bulk_updated)) [
          | inr n ↦ rw (n, enqueue_statistics_summary) (IsStep-refl m db.events)
          | inl y ↦ elim (Option-cases (find p db.events)) [
            | inr (e, h) ↦
                rw (y, h, enqueue_statistics_summary)
                  (found-IsDbStep db p (merge_rows rows due) e h (refl, here, λ polygon k. k))
            | inl h ↦
                rw (y, h, enqueue_statistics_summary)
                  (add-IsStep m fresh db.events
                    (new_event-IsBorn policy id now due area_statistics_bulk_updated
                      analysis_area_collection collection_resource_id no_fields rows)
                    new (λ polygon k. absurd (ground arith)))
          ]
        ]

    pub enqueue_adoption-IsDbStep :
        (polygon id : Uuid)
        → count (has_id id) db.events ≡ 0
        → IsDbStep db (enqueue_polygon_adoption settings policy db now polygon id).1
    unfolding enqueue_polygon_adoption new_event add_event
    enqueue_adoption-IsDbStep polygon id new =
        let due = now + polygon_adoption_delay_seconds in
        let fresh : Event =
          new_event policy id now due polygon_adopted_from_osm user_polygon polygon no_fields 0 in
        elim (Bool-cases (may_enqueue settings policy polygon_adopted_from_osm)) [
          | inr n ↦ rw (n, enqueue_polygon_adoption) (IsStep-refl m db.events)
          | inl y ↦ elim (Option-cases (find (is_adoption polygon) db.events)) [
            | inr (e, h) ↦ rw (y, h, enqueue_polygon_adoption) (IsStep-refl m db.events)
            | inl h ↦
                rw (y, h, enqueue_polygon_adoption)
                  (add-IsStep m fresh db.events
                    (new_event-IsBorn policy id now due polygon_adopted_from_osm user_polygon
                      polygon no_fields 0)
                    new (λ other k. alone_adoption polygon other fresh db.events refl h k))
          ]
        ]

  pub IsOpen-status : (s : Status) → is_open_status s ≡ true → IsOpen s
  IsOpen-status pending_approval h = awaits
  IsOpen-status pending h = waits
  IsOpen-status processing h = works
  IsOpen-status failed h = stuck
  IsOpen-status published h = absurd (ground arith)
  IsOpen-status dry_run h = absurd (ground arith)
  IsOpen-status cancelled h = absurd (ground arith)

  pub withdraw-IsDbStep :
      (db : Db) (polygon : Uuid) → IsDbStep db (cancel_pending_polygon_publications db polygon).1
  unfolding cancel_pending_polygon_publications is_withdrawn withdraw is_adoption
  withdraw-IsDbStep db polygon =
      all-IsStep m (is_withdrawn polygon) withdraw db.events
        (λ x h. (refl, one_edge (discard (IsOpen-status x.status (ground arith))), λ other k. k))
