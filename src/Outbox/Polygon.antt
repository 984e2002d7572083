-- ===== src/Outbox/Polygon.antt =====
-- backend/app/services/polygon_outbox.py: what follows a change of a polygon. The three handlers of an event
-- are a parameter, `handler`. One worker is modelled.
pub mod Settled
pub mod Selected
pub mod Run
pub mod Examples
use open_city_planner.Base.{
  ℕ, Bool, true, false, Uuid, Time, Option, none, some, List, [], ◌∷◌, ◌++◌, ◌||◌, ◌&&◌, ◌==◌, ◌+◌,
  ◌*◌, ◌^◌, if◌then◌else◌, ltb, leb, update, filter, take,
}

pub data EventType : Type 0 where
  created updated deleted : EventType

pub data Status : Type 0 where
  pending processing completed dead_letter : Status

abbrev pub status_eq : Status → Status → Bool
status_eq pending pending = true
status_eq processing processing = true
status_eq completed completed = true
status_eq dead_letter dead_letter = true
status_eq _ _ = false

-- The payload is the handlers' and is left out; an error is its number.
pub record Event : Type 0 where
  pub id : Uuid
  pub polygon_id : Uuid
  pub event_type : EventType
  pub status : Status
  pub attempt_count : ℕ
  pub next_attempt_at : Time
  pub processing_started_at : Option Time
  pub completed_at : Option Time
  pub last_error : Option ℕ
  pub created_at : Time

-- the new row, with the defaults of the model
unfoldable pub new_event : Uuid → Time → Uuid → EventType → Event
new_event id now polygon_id event_type = record {
  id = id;
  polygon_id = polygon_id;
  event_type = event_type;
  status = pending;
  attempt_count = 0;
  next_attempt_at = now;
  processing_started_at = none;
  completed_at = none;
  last_error = none;
  created_at = now;
}

unfoldable pub enqueue_polygon_mutation_event :
    List Event → Time → Uuid → EventType → Uuid → List Event
unfolding new_event
enqueue_polygon_mutation_event events now polygon_id event_type id =
    events ++ new_event id now polygon_id event_type ∷ []

-- The minutes after which a row in `processing` is taken for abandoned, in seconds.
abbrev pub stale_after : ℕ
stale_after = 600

-- `processing_started_at IS NULL OR processing_started_at < stale`
abbrev pub started_before : Time → Option Time → Bool
started_before now none = true
started_before now (some t) = ltb (t + stale_after) now

unfoldable pub is_stale : Time → Event → Bool
is_stale now e = status_eq e.status processing && started_before now e.processing_started_at

unfoldable pub requeue : Event → Event
requeue e = record e { status = pending; processing_started_at = none }

unfoldable pub recover_stale : Time → List Event → List Event
unfolding is_stale requeue
recover_stale now events = update (is_stale now) requeue events

-- the WHERE clause
unfoldable pub is_due : Time → Event → Bool
is_due now e = status_eq e.status pending && leb e.next_attempt_at now

-- the ORDER BY clause: `next_attempt_at`, then `created_at`
unfoldable pub is_before : Event → Event → Bool
is_before a b =
    ltb a.next_attempt_at b.next_attempt_at
    || a.next_attempt_at == b.next_attempt_at && leb a.created_at b.created_at

unfoldable pub insert_due : Event → List Event → List Event
unfolding is_before
insert_due e [] = e ∷ []
insert_due e (x ∷ xs) = let rest = insert_due e xs in if is_before e x then e ∷ x ∷ xs else x ∷ rest

unfoldable pub order_due : List Event → List Event
unfolding insert_due
order_due [] = []
order_due (e ∷ es) = insert_due e (order_due es)

unfoldable pub select_due : Time → ℕ → List Event → List Event
unfolding is_due order_due
select_due now limit events = take limit (order_due (filter (is_due now) events))

unfoldable pub start : Time → Event → Event
start now e = record e {
  status = processing;
  processing_started_at = some now;
  attempt_count = e.attempt_count + 1;
}

unfoldable pub complete : Time → Event → Event
complete now e = record e { status = completed; completed_at = some now }

abbrev pub max_attempts : ℕ
max_attempts = 8

-- `timedelta(minutes=2 ** event.attempt_count)`
unfoldable pub retry : Time → Event → Event
retry now e = record e { status = pending; next_attempt_at = now + 60 * 2 ^ e.attempt_count }

unfoldable pub fail : Time → ℕ → Event → Event
unfolding retry
fail now error e =
    let e' = record e { last_error = some error } in
    if leb max_attempts e.attempt_count then record e' { status = dead_letter } else retry now e'

pub record Stats : Type 0 where
  pub processed : ℕ
  pub failed : ℕ
  pub dead_letter : ℕ

-- the counter that the new row stands for
abbrev pub add_result : Status → Stats → Stats
add_result completed s = record s { processed = s.processed + 1 }
add_result dead_letter s = record s { dead_letter = s.dead_letter + 1 }
add_result _ s = record s { failed = s.failed + 1 }

-- How a handler ends: it returns; it raises an error, by its number; or it raises an error of the
-- database, after which the session can only be rolled back.
pub data Handled : Type 0 where
  done : Handled
  raised : ℕ → Handled
  broken : Handled

-- The clock gives the time of each event's turn.
module _ (handler : Event → Handled) (clock : Uuid → Time) where
  -- the row after its turn, or nothing where the commit at the turn's end raises
  unfoldable pub settle : Event → Option Event
  unfolding start complete fail
  settle e =
      let e' = start (clock e.id) e in
      elim (handler e') [
        | done ↦ some (complete (clock e.id) e')
        | raised error ↦ some (fail (clock e.id) error e')
        | broken ↦ none
      ]

  -- The loop over the selected rows, each with its two commits. The counters are missing where a
  -- commit raises, which ends the run.
  unfoldable pub process_events : List Event → Stats → List Event → Option Stats × List Event
  process_events [] s table = (some s, table)
  process_events (e ∷ es) s table =
      let claimed = update (λ x. x.id == e.id) (λ _. start (clock e.id) e) table in
      elim (settle e) [
        | none ↦ (none, claimed)
        | some e' ↦
            process_events es (add_result e'.status s)
              (update (λ x. x.id == e.id) (λ _. e') claimed)
      ]

  unfoldable pub process_due_polygon_outbox : List Event → Time → ℕ → Option Stats × List Event
  unfolding process_events recover_stale select_due
  process_due_polygon_outbox events now limit =
      let table = recover_stale now events in
      process_events (select_due now limit table)
        (record { processed = 0; failed = 0; dead_letter = 0 }) table
