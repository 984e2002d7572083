-- ===== src/Social/Reach.antt =====
-- What holds of the outbox over every sequence of operations, with any settings at each of them.
use open_city_planner.Base.{
  Bool, Time, Uuid, count, ◌≡◌, ℕ, Option, Text, true, find, List, false, ◌==◌, some, arith, ◌≢◌,
  ◌∷◌, Bool-cases, sym, [], ap, inl, subst, inr,
}
use open_city_planner.Social.{Db, Settings, Policy, EventType, Fields, Event, published, dry_run}
use open_city_planner.Social.Follow.{
  IsDbStep, enqueue_area-IsDbStep, enqueue_summary-IsDbStep, enqueue_adoption-IsDbStep,
  withdraw-IsDbStep,
}
use open_city_planner.Social.Steps.{IsStep-refl, IsStep-trans}
use open_city_planner.Social.Enqueue.{
  Area, enqueue_area_publication, enqueue_statistics_summary, enqueue_polygon_adoption,
  cancel_pending_polygon_publications,
}
use open_city_planner.Social.Govern.{
  retry-IsDbStep, cancel-IsDbStep, approve-IsDbStep, publish_due-IsDbStep,
}
use open_city_planner.Social.Keyed.{has_id, IsKeyed}
use open_city_planner.Social.Admin.{
  retry_social_publication, cancel_social_publication, approve_social_publication,
}
use open_city_planner.Social.Attempt.{Services}
use open_city_planner.Social.Publish.{publish_due_events}
use open_city_planner.Social.Evolves.{Evolves, IsLater}
use open_city_planner.Social.Diagram.{is_final, status_of, Route-IsAwaited, Route-final}

-- One call of an operation; an approval only where `may_approve` is true. A new row has a new
-- identity.
pub data Step (may_approve : Bool) (db : Db) : Db → Type 0 where
  enqueue_area :
      (settings : Settings) (policy : Policy) (now : Time) (area : Area) (t : EventType)
      (fields : Fields) (id : Uuid)
      → count (has_id id) db.events ≡ 0
      → Step may_approve db (enqueue_area_publication settings policy db now area t fields id).1
  enqueue_summary :
      (settings : Settings) (policy : Policy) (now : Time) (rows : ℕ) (id : Uuid)
      → count (has_id id) db.events ≡ 0
      → Step may_approve db (enqueue_statistics_summary settings policy db now rows id).1
  enqueue_adoption :
      (settings : Settings) (policy : Policy) (now : Time) (polygon id : Uuid)
      → count (has_id id) db.events ≡ 0
      → Step may_approve db (enqueue_polygon_adoption settings policy db now polygon id).1
  delete_polygon :
      (polygon : Uuid) → Step may_approve db (cancel_pending_polygon_publications db polygon).1
  retry_failed :
      (now : Time) (event_id actor : Uuid)
      → Step may_approve db (retry_social_publication db now event_id actor).1
  cancel_waiting :
      (event_id actor : Uuid) → Step may_approve db (cancel_social_publication db event_id actor).1
  approve_waiting_row :
      (settings : Settings) (policy : Policy) (now : Time) (event_id actor : Uuid)
      (alt_text : Option Text)
      → may_approve ≡ true
      → Step may_approve db
          (approve_social_publication settings policy db now event_id actor alt_text).1
  publish_due :
      (settings : Settings) (policy : Policy) (services : ℕ → Services) (clock : ℕ → Time)
      (now : Time) (limit : ℕ)
      → Step may_approve db (publish_due_events settings policy services clock db now limit).1

pub data Reach (may_approve : Bool) (db : Db) : Db → Type 0 where
  init : Reach may_approve db db
  next :
      {db' db'' : Db}
      → Reach may_approve db db'
      → Step may_approve db' db''
      → Reach may_approve db db''

module _ (m : Bool) where
  Step-IsDbStep : (db db' : Db) → Step m db db' → IsDbStep m db db'
  Step-IsDbStep db db' (enqueue_area s p now area t fields id new) =
      enqueue_area-IsDbStep m s p db now area t fields id new
  Step-IsDbStep db db' (enqueue_summary s p now rows id new) =
      enqueue_summary-IsDbStep m s p db now rows id new
  Step-IsDbStep db db' (enqueue_adoption s p now polygon id new) =
      enqueue_adoption-IsDbStep m s p db now polygon id new
  Step-IsDbStep db db' (delete_polygon polygon) = withdraw-IsDbStep m db polygon
  Step-IsDbStep db db' (retry_failed now id actor) = retry-IsDbStep m db now id actor
  Step-IsDbStep db db' (cancel_waiting id actor) = cancel-IsDbStep m db id actor
  Step-IsDbStep db db' (approve_waiting_row s p now id actor alt allowed) =
      approve-IsDbStep m db s p now id actor alt allowed
  Step-IsDbStep db db' (publish_due s p services clock now limit) =
      publish_due-IsDbStep m s p services clock db now limit

  Reach-IsDbStep : {db db' : Db} → Reach m db db' → IsDbStep m db db'
  Reach-IsDbStep {db} init = IsStep-refl m db.events
  Reach-IsDbStep {db} (next r s) =
      IsStep-trans m db.events _ _ (Reach-IsDbStep r) (Step-IsDbStep _ _ s)

  -- Over any sequence of operations with any settings, each row of the outbox stays and moves along
  -- a path of the diagram, every new row has come along a path from `pending` or from an
  -- outstanding approval, and no two
  -- rows share an identity or announce the same polygon's adoption, if none did.
  pub outbox_follows_diagram :
      (db db' : Db)
      → IsKeyed db.events
      → Reach m db db'
      → Evolves m db.events db'.events × IsKeyed db'.events
  outbox_follows_diagram db db' keyed r = Reach-IsDbStep r keyed

  -- the row of an identity, later
  abbrev pub HasLater : Uuid → Event → List Event → Type 0
  HasLater id e es = (e' : Event) × (find (λ x. x.id == id) es ≡ some e') × IsLater m e e'

  find_later :
      (id : Uuid) (x x' e : Event) (es es' : List Event)
      → x'.id ≡ x.id
      → IsLater m x x'
      → (find (λ x. x.id == id) es ≡ some e → HasLater id e es')
      → find (λ x. x.id == id) (x ∷ es) ≡ some e
      → HasLater id e (x' ∷ es')
  unfolding find
  find_later id x x' e es es' same later rest h = elim (Bool-cases (x.id == id)) [
    | inl y ↦
        let own : x ≡ e = ground arith in (x', ground arith, subst (λ a. IsLater m a x') own later)
    | inr n ↦ let (e', found, moved) = rest (ground arith) in (e', ground arith, moved)
  ]

  Evolves-find :
      (id : Uuid) (e : Event) (es es' : List Event)
      → Evolves m es es'
      → find (λ x. x.id == id) es ≡ some e
      → HasLater id e es'
  Evolves-find id e [] es' h k = absurd (unfold find in ground arith)
  Evolves-find id e (x ∷ es) [] h k = absurd h
  Evolves-find id e (x ∷ es) (x' ∷ es') h k =
      find_later id x x' e es es' h.0.0 h.0 (Evolves-find id e es es' h.1) k

  Reach-find :
      (db db' : Db) (id : Uuid) (e : Event)
      → IsKeyed db.events
      → Reach m db db'
      → find (λ x. x.id == id) db.events ≡ some e
      → HasLater id e db'.events
  Reach-find db db' id e keyed r h =
      Evolves-find id e db.events db'.events (Reach-IsDbStep r keyed).0 h

-- Over any sequence of operations without an administrator's approval, with any settings, a row
-- whose approval is outstanding and that is not published or rehearsed stays so: its approval
-- stays outstanding, and it is neither published nor rehearsed.
pub approval_gates_publication :
    (db db' : Db) (id : Uuid) (e : Event)
    → IsKeyed db.events
    → Reach false db db'
    → find (λ x. x.id == id) db.events ≡ some e
    → e.approval_required ≡ true
    → e.status ≢ published
    → e.status ≢ dry_run
    → (e' : Event) × (find (λ x. x.id == id) db'.events ≡ some e')
      × (e'.approval_required ≡ true)
      × (e'.status ≢ published)
      × (e'.status ≢ dry_run)
approval_gates_publication db db' id e keyed r h flag a b =
    let (e', found, later) = Reach-find false db db' id e keyed r h in
    let (x, y, z) = Route-IsAwaited later.1 (flag, a, b) in (e', found, x, y, z)

-- Over any sequence of operations, approvals included, a row that is published, rehearsed or
-- cancelled keeps its status.
pub final_rows_stay :
    (db db' : Db) (id : Uuid) (e : Event)
    → IsKeyed db.events
    → Reach true db db'
    → find (λ x. x.id == id) db.events ≡ some e
    → is_final e.status ≡ true
    → (e' : Event) × (find (λ x. x.id == id) db'.events ≡ some e') × (e'.status ≡ e.status)
final_rows_stay db db' id e keyed r h final =
    let (e', found, later) = Reach-find true db db' id e keyed r h in
    (e', found, sym (ap status_of (Route-final later.1 final)))
