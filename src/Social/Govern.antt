-- ===== src/Social/Govern.antt =====
-- The administrator's operations and the publishing job follow the diagram.
use open_city_planner.Social.{
  Status, Db, status_eq, Settings, Policy, Event, log, pending_approval, processing, pending,
  put_event, published, failed, cancelled, dry_run, is_dry, event_type_eq, polygon_adopted_from_osm,
}
use open_city_planner.Base.{
  Bool, ◌≡◌, Time, true, Uuid, arith, Option, Text, Option-cases, subst, find, ◌==◌, refl, sym, inl,
  some, inr, Bool-cases, false, ℕ, List, if_cases, ◌&&◌, suc, update, zero, ap, none,
}
use open_city_planner.Social.Admin.{
  is_cancellable, retry_social_publication, approve_social_publication, cancel_social_publication,
  approve_waiting, requeue, approve, cancel, blocking_reason, is_approved_before,
}
use open_city_planner.Social.Diagram.{
  Phase, Route, Edge, IsOpen, phase, awaits, at, one_edge, waits, stuck, discard, reset, allow,
  claim, claim_draft,
}
use open_city_planner.Social.Publish.{
  recover_stale, is_stale, is_due, publish_event, recover, start, store, first_due, publish_events,
  publish_due_events, Totals, no_totals, add_outcome,
}
use open_city_planner.Social.Follow.{IsDbStep, get-IsDbStep}
use open_city_planner.Social.Steps.{
  all-IsStep, IsStep-refl, IsOnly, IsStep, put-IsStep, IsStep-trans, IsOnly-update,
}
use open_city_planner.Social.Moves.{edge_back, attempt-IsMove, subject}
use open_city_planner.Social.Attempt.{Services, Result, attempt, Outcome, is_interrupted}
use open_city_planner.Social.Keyed.{first_due_lem, only_row}
use open_city_planner.Social.Evolves.{IsLater}
use open_city_planner.Social.Enqueue.{is_adoption}

-- the tests on the status
status_eq_lem : (s t : Status) → status_eq s t ≡ true → s ≡ t
status_eq_lem pending_approval t h = ground arith
status_eq_lem pending t h = ground arith
status_eq_lem processing t h = ground arith
status_eq_lem published t h = ground arith
status_eq_lem failed t h = ground arith
status_eq_lem cancelled t h = ground arith
status_eq_lem dry_run t h = ground arith

cancellable-IsOpen : (s : Status) → is_cancellable s ≡ true → IsOpen s
cancellable-IsOpen pending_approval h = awaits
cancellable-IsOpen pending h = waits
cancellable-IsOpen failed h = stuck
cancellable-IsOpen processing h = absurd (ground arith)
cancellable-IsOpen published h = absurd (ground arith)
cancellable-IsOpen dry_run h = absurd (ground arith)
cancellable-IsOpen cancelled h = absurd (ground arith)

-- an edge that starts at a known status
from_status :
    (m : Bool) (s : Status) (p : Phase) (e : Event)
    → e.status ≡ s
    → Edge m (at s e.approval_required) p
    → Route m (phase e) p
from_status m s p e h edge =
    one_edge (subst (λ x. Edge m (at x e.approval_required) p) (sym h) edge)

module _ (m : Bool) (db : Db) where
  pub retry-IsDbStep :
      (now : Time) (event_id actor : Uuid)
      → IsDbStep m db (retry_social_publication db now event_id actor).1
  unfolding retry_social_publication requeue log is_adoption
  retry-IsDbStep now event_id actor = elim (Option-cases (find (λ e. e.id == event_id) db.events)) [
    | inl h ↦ rw (h, retry_social_publication) (IsStep-refl m db.events)
    | inr (e, h) ↦ elim (Bool-cases (status_eq e.status failed)) [
      | inr n ↦ rw (h, n, retry_social_publication) (IsStep-refl m db.events)
      | inl y ↦
          rw (h, y, retry_social_publication)
            (get-IsDbStep m db event_id (requeue now) e h (
              refl,
              from_status m failed (at pending e.approval_required) e
                  (status_eq_lem e.status failed y) reset,
              λ polygon k. k,
            ))
    ]
  ]

  pub cancel-IsDbStep :
      (event_id actor : Uuid) → IsDbStep m db (cancel_social_publication db event_id actor).1
  unfolding cancel_social_publication cancel log is_adoption
  cancel-IsDbStep event_id actor = elim (Option-cases (find (λ e. e.id == event_id) db.events)) [
    | inl h ↦ rw (h, cancel_social_publication) (IsStep-refl m db.events)
    | inr (e, h) ↦ elim (Bool-cases (is_cancellable e.status)) [
      | inr n ↦ rw (h, n, cancel_social_publication) (IsStep-refl m db.events)
      | inl y ↦
          rw (h, y, cancel_social_publication)
            (get-IsDbStep m db event_id cancel e h
              (refl, one_edge (discard (cancellable-IsOpen e.status y)), λ polygon k. k))
    ]
  ]

  approve_waiting-IsDbStep :
      (settings : Settings) (policy : Policy) (now : Time) (event_id actor : Uuid)
      (alt_text : Option Text) (e : Event)
      → m ≡ true
      → find (λ x. x.id == event_id) db.events ≡ some e
      → e.status ≡ pending_approval
      → IsDbStep m db (approve_waiting settings policy db now e actor alt_text).1
  unfolding approve_waiting approve log is_adoption
  approve_waiting-IsDbStep settings policy now event_id actor alt_text e allowed h s =
      elim (Option-cases (blocking_reason settings policy)) [
        | inr (reason, b) ↦ rw (b, approve_waiting) (IsStep-refl m db.events)
        | inl b ↦
            rw (b, approve_waiting)
              (get-IsDbStep m db event_id (approve now actor alt_text) e h (
                refl,
                from_status m pending_approval (at pending false) e s (allow allowed),
                λ polygon k. k,
              ))
      ]

  pub approve-IsDbStep :
      (settings : Settings) (policy : Policy) (now : Time) (event_id actor : Uuid)
      (alt_text : Option Text)
      → m ≡ true
      → IsDbStep m db (approve_social_publication settings policy db now event_id actor alt_text).1
  unfolding approve_social_publication
  approve-IsDbStep settings policy now event_id actor alt_text allowed =
      elim (Option-cases (find (λ e. e.id == event_id) db.events)) [
        | inl h ↦ rw (h, approve_social_publication) (IsStep-refl m db.events)
        | inr (e, h) ↦ elim (Bool-cases (is_approved_before e)) [
          | inl y ↦ rw (h, y, approve_social_publication) (IsStep-refl m db.events)
          | inr n ↦ elim (Bool-cases (status_eq e.status pending_approval)) [
            | inr k ↦ rw (h, n, k, approve_social_publication) (IsStep-refl m db.events)
            | inl k ↦
                rw (h, n, k, approve_social_publication)
                  (approve_waiting-IsDbStep settings policy now event_id actor alt_text e allowed h
                    (status_eq_lem e.status pending_approval k))
          ]
        ]
      ]

  pub recover-IsDbStep : (now : Time) → IsDbStep m db (recover_stale now db)
  unfolding recover_stale is_stale recover is_adoption
  recover-IsDbStep now = all-IsStep m (is_stale now) (recover now) db.events (λ x h. (
    refl,
    from_status m processing _ x (status_eq_lem x.status processing (ground arith))
        (edge_back m x.approval_required),
    λ polygon k. k,
  ))

module _ (m : Bool) (settings : Settings) (policy : Policy) where
  start_edge :
      (now : Time) (e : Event)
      → is_due policy now e ≡ true
      → Route m (phase e) (at processing e.approval_required)
  unfolding is_due
  start_edge now e h = elim (Bool-cases (status_eq e.status pending)) [
    | inl y ↦ from_status m pending _ e (status_eq_lem e.status pending y) claim
    | inr n ↦
        from_status m pending_approval _ e (status_eq_lem e.status pending_approval (ground arith))
          claim_draft
  ]

  write_back :
      (e e' : Event) (es : List Event)
      → IsOnly e es
      → IsLater m e e'
      → IsStep m es (update (λ x. x.id == e'.id) (λ _. e') es)
  write_back e e' es only later =
      subst (λ i. IsStep m es (update (λ x. x.id == i) (λ _. e') es)) (sym later.0)
        (put-IsStep m e (λ _. e') es only later)

  same_subject :
      (e e' : Event) → subject e' ≡ subject e → Route m (phase e) (phase e') → IsLater m e e'
  unfolding is_adoption
  same_subject e e' h route = (
    ap (λ c. c.0) h,
    route,
    λ polygon k.
        subst (λ c. (event_type_eq c.1 polygon_adopted_from_osm && c.2 == polygon) ≡ true) h k,
  )

  publish_event-IsDbStep :
      (services : Services) (now : Time) (e : Event) (db : Db)
      → first_due policy now db.events ≡ some e
      → IsDbStep m db (publish_event settings policy services now e db).1
  unfolding publish_event start store put_event is_adoption
  publish_event-IsDbStep services now e db h keyed =
      let (due, row) = first_due_lem policy now db.events e h in
      let only : IsOnly e db.events = only_row e.id e db.events (keyed.0 e.id) row refl in
      let e1 : Event = start now e in
      let es1 : List Event = update (λ x. x.id == e.id) (λ _. e1) db.events in
      let r : Result = attempt settings services now (is_dry settings policy) db.publications e1 in
      let (moved, edge) =
        attempt-IsMove m settings services now (is_dry settings policy) db.publications e1 refl in
      IsStep-trans m db.events es1 _
        (put-IsStep m e (λ _. e1) db.events only (refl, start_edge now e due, λ polygon k. k))
        (write_back e1 r.event es1 (IsOnly-update e1 e.id refl db.events)
          (same_subject e1 r.event moved edge))
        keyed

  module _ (services : ℕ → Services) (clock : ℕ → Time) where
    publish_events-IsDbStep :
        (turns : ℕ) (t : Totals) (db : Db)
        → IsDbStep m db (publish_events settings policy services clock turns t db).1
    unfolding publish_events
    publish_events-IsDbStep zero t db = IsStep-refl m db.events
    publish_events-IsDbStep (suc turns) t db =
        elim (Option-cases (first_due policy (clock turns) db.events)) [
          | inl h ↦ rw (h, publish_events) (IsStep-refl m db.events)
          | inr (e, h) ↦
              let r : Outcome × Db =
                publish_event settings policy (services turns) (clock turns) e db in
              let rest : Option Totals × Db =
                publish_events settings policy services clock turns (add_outcome r.0 t) r.1 in
              let first : IsDbStep m db r.1 =
                publish_event-IsDbStep (services turns) (clock turns) e db h in
              rw (h, publish_events)
                (if_cases (λ (x : Option Totals × Db). IsDbStep m db x.1) (is_interrupted r.0)
                  (none, r.1) rest (λ k. first)
                  (λ k.
                    IsStep-trans m db.events r.1.events rest.1.events first
                      (publish_events-IsDbStep turns (add_outcome r.0 t) r.1)))
        ]

    pub publish_due-IsDbStep :
        (db : Db) (now : Time) (limit : ℕ)
        → IsDbStep m db (publish_due_events settings policy services clock db now limit).1
    unfolding publish_due_events
    publish_due-IsDbStep db now limit =
        if_cases (λ (r : Option Totals × Db). IsDbStep m db r.1)
          (settings.mastodon_enabled && policy.enabled)
          (publish_events settings policy services clock limit no_totals (recover_stale now db))
          (some no_totals, db)
          (λ h.
            IsStep-trans m db.events (recover_stale now db).events
              (publish_events settings policy services clock limit no_totals
                (recover_stale now db)).1.events
              (recover-IsDbStep m db now)
              (publish_events-IsDbStep limit no_totals (recover_stale now db)))
          (λ h. IsStep-refl m db.events)
