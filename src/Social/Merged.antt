-- ===== src/Social/Merged.antt =====
-- What the three `enqueue` functions leave for an accepted request.
use open_city_planner.Social.{
  Db, Event, Settings, Policy, EventType, Fields, is_waiting, put_event, is_waiting_for,
  polygon_adopted_from_osm, analysis_area, analysis_area_collection, area_statistics_bulk_updated,
  pending_approval, user_polygon, pending, Field, is_about, is_manual,
}
use open_city_planner.Base.{
  Bool, Time, Uuid, ℕ, Option, find, ◌≡◌, update, none, List, some, if◌then◌else◌, ◌+◌, true,
  find_holds, false, ltb, Bool-cases, ◌==◌, find-append_none, ◌⊎◌, ◌&&◌, inr, arith, ◌∙◌, refl, ◌∷◌,
  [], inl, Option-cases, find-alone,
}
use open_city_planner.Social.Keyed.{IsKeyed}
use open_city_planner.Social.Steps.{IsOnly}
use open_city_planner.Social.Follow.{found-IsOnly}
use open_city_planner.Social.Enqueue.{
  Area, add_event, enqueue_polygon_adoption, enqueue_area_publication, enqueue_statistics_summary,
  may_enqueue, new_event, merge_area, merge_rows, may_enqueue_area, publishable,
  collection_resource_id, polygon_adoption_delay_seconds, no_fields, is_adoption, merged_type,
}

module _ (settings : Settings) (policy : Policy) (db : Db) (now : Time) where
  -- What an accepted change of an area leaves: a row of the area waits, with the change merged
  -- into it, and is returned.
  abbrev pub IsMerged : Area → EventType → Fields → Option Event × Db → Type 0
  IsMerged area t fields r =
      let p : Event → Bool = is_waiting_for analysis_area area.uuid in
      ((may_enqueue_area settings policy area t fields ≡ false) × (r ≡ (none, db)))
      ⊎ ((e : Event) × (r.0 ≡ some e)
          × (find p r.1.events ≡ some e)
          × (e.next_attempt_at ≡ now + policy.debounce_seconds)
          × ((f : Field) → publishable fields f ≡ true → e.changed_fields f ≡ true)
          × ((find p db.events ≡ none)
              ⊎ ((old : Event) × (find p db.events ≡ some old)
                  × ((f : Field) → old.changed_fields f ≡ true → e.changed_fields f ≡ true)
                  × (e.event_type ≡ merged_type t old.event_type))))

  -- the same of a summary, whose rows are added up
  abbrev pub IsAdded : ℕ → Option Event × Db → Type 0
  IsAdded rows r =
      let p : Event → Bool = is_waiting_for analysis_area_collection collection_resource_id in
      (((ltb 0 rows && may_enqueue settings policy area_statistics_bulk_updated) ≡ false)
        × (r ≡ (none, db)))
      ⊎ ((e : Event) × (r.0 ≡ some e)
          × (find p r.1.events ≡ some e)
          × (e.next_attempt_at ≡ now + policy.debounce_seconds)
          × (((find p db.events ≡ none) × (e.changed_rows ≡ rows))
              ⊎ ((old : Event) × (find p db.events ≡ some old)
                  × (e.changed_rows ≡ old.changed_rows + rows))))

  -- and of an adoption, which has one row
  abbrev pub IsAnnounced : Uuid → Option Event × Db → Type 0
  IsAnnounced polygon r =
      ((may_enqueue settings policy polygon_adopted_from_osm ≡ false) × (r ≡ (none, db)))
      ⊎ ((e : Event) × (r.0 ≡ some e) × (find (is_adoption polygon) r.1.events ≡ some e))

module _ (settings : Settings) (policy : Policy) (db : Db) (now : Time)
    (keyed : IsKeyed db.events) where
  -- the row that a query finds is written back, and found again
  find-put :
      (q : Event → Bool) (e e' : Event) (es : List Event)
      → IsOnly e es
      → q e ≡ true
      → q e' ≡ true
      → find q es ≡ some e
      → find q (update (λ x. x.id == e.id) (λ _. e') es) ≡ some e'
  unfolding find update
  find-put q e e' [] only a b h = absurd (ground arith)
  find-put q e e' (x ∷ es) only a b h = elim (Bool-cases (x.id == e.id)) [
    | inl y ↦ rw (y, b) refl
    | inr n ↦ elim (Bool-cases (q x)) [
      | inl k ↦
          let same : x ≡ e = ground arith in
          let hit : (x.id == e.id) ≡ true = rw same (ground arith) in absurd (ground arith)
      | inr k ↦ rw (n, k) (find-put q e e' es only.1 a b (ground arith))
    ]
  ]

  merged_found :
      (q : Event → Bool) (e e' : Event)
      → find q db.events ≡ some e
      → q e' ≡ q e
      → find q (put_event e.id (λ _. e') db).events ≡ some e'
  unfolding put_event
  merged_found q e e' h same =
      let held = find_holds q db.events e h in
      find-put q e e' db.events (found-IsOnly q db.events e keyed h) held (same ∙ held) h

  added_found :
      (q : Event → Bool) (e : Event)
      → find q db.events ≡ none
      → q e ≡ true
      → find q (add_event e db).events ≡ some e
  unfolding add_event
  added_found q e h k = find-append_none q db.events (e ∷ []) h ∙ find-alone q e k

  is_waiting_start :
      (e : Event) (b : Bool)
      → e.status ≡ (if b then pending_approval else pending)
      → is_waiting e ≡ true
  unfolding is_waiting
  is_waiting_start e true h = rw h refl
  is_waiting_start e false h = rw h refl

  pub area-IsMerged :
      (area : Area) (t : EventType) (fields : Fields) (id : Uuid)
      → IsMerged settings policy db now area t fields
          (enqueue_area_publication settings policy db now area t fields id)
  unfolding enqueue_area_publication merge_area new_event
  area-IsMerged area t fields id =
      let due = now + policy.debounce_seconds in
      let allowed = publishable fields in
      let fresh : Event = new_event policy id now due t analysis_area area.uuid allowed 0 in
      let p : Event → Bool = is_waiting_for analysis_area area.uuid in
      elim (Bool-cases (may_enqueue_area settings policy area t fields)) [
        | inr n ↦ rw (n, enqueue_area_publication) (inl (refl, refl))
        | inl y ↦ elim (Option-cases (find p db.events)) [
          | inr (e, h) ↦
              let e' : Event = merge_area t allowed due e in
              rw (y, h, enqueue_area_publication)
                (inr (
                  e',
                  refl,
                  merged_found p e e' h (unfold is_waiting_for is_about is_waiting in refl),
                  refl,
                  (λ f k. ground arith),
                  inr (e, refl, (λ f k. ground arith), refl),
                ))
          | inl h ↦
              rw (y, h, enqueue_area_publication)
                (inr (
                  fresh,
                  refl,
                  added_found p fresh h (
                      unfold is_waiting_for is_about in
                      ground (arith, is_waiting_start fresh (is_manual policy.approval_mode) refl)),
                  refl,
                  (λ f k. k),
                  inl refl,
                ))
        ]
      ]

  pub summary-IsAdded :
      (rows : ℕ) (id : Uuid)
      → IsAdded settings policy db now rows
          (enqueue_statistics_summary settings policy db now rows id)
  unfolding enqueue_statistics_summary merge_rows new_event
  summary-IsAdded rows id =
      let due = now + policy.debounce_seconds in
      let fresh : Event =
        new_event policy id now due area_statistics_bulk_updated analysis_area_collection
          collection_resource_id no_fields rows in
      let p : Event → Bool = is_waiting_for analysis_area_collection collection_resource_id in
      elim (Bool-cases (ltb 0 rows && may_enqueue settings policy area_statistics_bulk_updated)) [
        | inr n ↦ rw (n, enqueue_statistics_summary) (inl (refl, refl))
        | inl y ↦ elim (Option-cases (find p db.events)) [
          | inr (e, h) ↦
              rw (y, h, enqueue_statistics_summary)
                (inr (
                  merge_rows rows due e,
                  refl,
                  merged_found p e (merge_rows rows due e) h
                      (unfold is_waiting_for is_about is_waiting in refl),
                  refl,
                  inr (e, refl, refl),
                ))
          | inl h ↦
              rw (y, h, enqueue_statistics_summary)
                (inr (
                  fresh,
                  refl,
                  added_found p fresh h (
                      unfold is_waiting_for is_about in
                      ground (arith, is_waiting_start fresh (is_manual policy.approval_mode) refl)),
                  refl,
                  inl (refl, refl),
                ))
        ]
      ]

  pub adoption-IsAnnounced :
      (polygon id : Uuid)
      → IsAnnounced settings policy db now polygon
          (enqueue_polygon_adoption settings policy db now polygon id)
  unfolding enqueue_polygon_adoption new_event
  adoption-IsAnnounced polygon id =
      let fresh : Event =
        new_event policy id now (now + polygon_adoption_delay_seconds) polygon_adopted_from_osm
          user_polygon polygon no_fields 0 in
      elim (Bool-cases (may_enqueue settings policy polygon_adopted_from_osm)) [
        | inr n ↦ rw (n, enqueue_polygon_adoption) (inl (refl, refl))
        | inl y ↦ elim (Option-cases (find (is_adoption polygon) db.events)) [
          | inr (e, h) ↦ rw (y, h, enqueue_polygon_adoption) (inr (e, refl, h))
          | inl h ↦
              rw (y, h, enqueue_polygon_adoption)
                (inr (
                  fresh,
                  refl,
                  added_found (is_adoption polygon) fresh h (unfold is_adoption in ground arith),
                ))
        ]
      ]
