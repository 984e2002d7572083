-- ===== src/Outbox/Polygon/Examples.antt =====
-- A run over two events, of which the second fails for the eighth time.
use open_city_planner.Outbox.Polygon.{
  Handled, done, raised, broken, processing, completed, Event, new_event,
  process_due_polygon_outbox, updated, created, settle,
}
use open_city_planner.Base.{List, ◌∷◌, ◌+◌, [], ◌≡◌, refl, some, none, filter, update, map}

abbrev first : Event
unfolding new_event
first = new_event 1 100 10 created

abbrev second : Event
unfolding new_event
second = record (new_event 2 90 20 updated) { attempt_count = 7 }

abbrev events : List Event
events = first ∷ second ∷ []

-- the handler of an update raises
abbrev refuses : Event → Handled
refuses e = elim e.event_type [ updated ↦ raised 5 | _ ↦ done ]

-- the handler of a creation loses its session
abbrev loses : Event → Handled
loses e = elim e.event_type [ created ↦ broken | _ ↦ done ]

-- One event is completed, and the other one is in dead letter.
polygon_run :
    (process_due_polygon_outbox refuses (λ id. 200 + id) events 200 50).0
    ≡ some (record { processed = 1; failed = 0; dead_letter = 1 })
unfolding process_due_polygon_outbox filter update first settle
polygon_run = refl

-- The first one selected completes, and the second stays in processing.
broken_run :
    let r = process_due_polygon_outbox loses (λ id. 200 + id) events 200 50 in
    (r.0 ≡ none) × (map (λ (e : Event). e.status) r.1 ≡ processing ∷ completed ∷ [])
unfolding process_due_polygon_outbox filter update first settle
broken_run = (refl, refl)
