-- ===== src/Outbox/Email/Retries.antt =====
-- What a failed delivery leads to.
use open_city_planner.Outbox.Email.Finish.{
  fail_event, retry_or_fail, finish_for, finish_claimed, sent_event, drop_row, settle_row,
  drop_event, settle_event, record_mail, mark_sent, send_event, delivery_kind, already_welcomed,
  finish_event,
}
use open_city_planner.Outbox.Email.{
  SendError, Event, failed, pending, Db, sent, put_event, DeliveryType, Recipient, find_user,
  Status, status_eq, processing, cancelled, skipped,
}
use open_city_planner.Outbox.Email.Keeps.{
  core-drop_event, core-retry_or_fail, core-mark_sent, events-mark_welcomed,
}
use open_city_planner.Outbox.Email.Delays.{fail_event_lem}
use open_city_planner.Base.{
  ℕ, ◌≤◌, Time, ◌+◌, ◌≡◌, none, true, ◌⊎◌, false, ◌<◌, arith, Bool-cases, inl, inr, refl, Uuid,
  Bool, find, ◌==◌, some, find-update, find_holds, ◌∙◌, Option, Option-cases, ap, ◌≢◌, subst,
}

status_eq_processing : (s : Status) → status_eq s processing ≡ true → s ≡ processing
status_eq_processing processing h = refl
status_eq_processing pending h = absurd (ground arith)
status_eq_processing sent h = absurd (ground arith)
status_eq_processing failed h = absurd (ground arith)
status_eq_processing cancelled h = absurd (ground arith)
status_eq_processing skipped h = absurd (ground arith)

not_processing : (s : Status) → status_eq s processing ≡ false → s ≢ processing
not_processing s other same =
    let hit : status_eq processing processing ≡ false =
      subst (λ x. status_eq x processing ≡ false) same other in
    ground arith

-- A row that a call of `_finish_event` leaves: what the call returns, and the row.
abbrev pub IsSettled : ℕ → Time → Event → Bool → Event → Type 0
IsSettled max_attempts now e is_sent e' =
    (e'.id ≡ e.id)
    × (e'.attempt_count ≡ e.attempt_count)
    × (e'.processing_started_at ≡ none)
    × (((is_sent ≡ true) × (e'.status ≡ sent))
        ⊎ (((is_sent ≡ false) × (e'.status ≡ failed))
            ⊎ ((is_sent ≡ false)
                × (e'.status ≡ pending)
                × (e.attempt_count < max_attempts)
                × (now + 60 ≤ e'.scheduled_at)
                × (e'.scheduled_at ≤ now + 86400))))

fail_event-IsSettled :
    (max_attempts : ℕ) (now : Time) (error : SendError) (e : Event)
    → IsSettled max_attempts now e false (fail_event max_attempts now error e)
fail_event-IsSettled max_attempts now error e =
    let (attempts, stopped, row) = fail_event_lem max_attempts now error e in
    (
      unfold fail_event in refl,
      attempts,
      stopped,
      elim row [
        | inl (is_failed, why, same) ↦ inr (inl (refl, is_failed))
        | inr (again, why, few, low, high) ↦ inr (inr (refl, again, few, low, high))
      ],
    )

drop_row-IsSettled :
    (max_attempts : ℕ) (now : Time) (e : Event) → IsSettled max_attempts now e false (drop_row e)
unfolding drop_row
drop_row-IsSettled max_attempts now e = (refl, refl, refl, inr (inl (refl, refl)))

settle_row-IsSettled :
    (max_attempts : ℕ) (now t : Time) (e : Event)
    → IsSettled max_attempts now e true (settle_row t e)
unfolding settle_row
settle_row-IsSettled max_attempts now t e = (refl, refl, refl, inl (refl, refl))

sent_event-IsSettled :
    (max_attempts : ℕ) (now : Time) (kind : DeliveryType) (e : Event)
    → IsSettled max_attempts now e true (sent_event now kind e)
unfolding sent_event
sent_event-IsSettled max_attempts now kind e = (refl, refl, refl, inl (refl, refl))

module _ (id : Uuid) (db : Db) (e : Event) (found : find (λ x. x.id == id) db.events ≡ some e) where
  same_id : e.id ≡ id
  same_id = ground (arith, find_holds (λ x. x.id == id) db.events e found)

  -- the row, after a step whose outbox is that of `put_event`
  find_put :
      (f : Event → Event) (db' : Db)
      → ((x : Event) → x.id ≡ e.id → (f x).id ≡ e.id)
      → db'.events ≡ (put_event e.id f db).events
      → find (λ x. x.id == id) db'.events ≡ some (f e)
  unfolding put_event
  find_put f db' keeps h =
      let q : Event → Bool = λ x. x.id == id in
      let p : Event → Bool = λ x. x.id == e.id in
      let kept = find-update q p f db.events (λ x t. ground (arith, keeps x, same_id)) e found in
      let hit : (e.id == e.id) ≡ true = ground arith in rw h (kept ∙ rw hit refl)

  module _ (deliver : DeliveryType → Event → Recipient → Option SendError) (max_attempts : ℕ)
      (now : Time) where
    -- The result has a settled row under the identity that was asked for.
    Settles : Bool × Db → Type 0
    Settles r =
        (e' : Event) × (find (λ x. x.id == id) r.1.events ≡ some e')
        × IsSettled max_attempts now e r.0 e'

    drop-Settles : Settles (false, drop_event now e db)
    unfolding Settles drop_row
    drop-Settles = (
      drop_row e,
      find_put drop_row (drop_event now e db) (λ x h. h) (ap (λ c. c.0) (core-drop_event now e db)),
      drop_row-IsSettled max_attempts now e,
    )

    settle-Settles : (t : Time) → Settles (true, settle_event t e db)
    unfolding Settles settle_row settle_event
    settle-Settles t = (
      settle_row t e,
      find_put (settle_row t) (settle_event t e db) (λ x h. h) refl,
      settle_row-IsSettled max_attempts now t e,
    )

    retry-Settles : (error : SendError) → Settles (false, retry_or_fail max_attempts now error e db)
    unfolding Settles
    retry-Settles error = (
      fail_event max_attempts now error e,
      find_put (λ _. fail_event max_attempts now error e)
          (retry_or_fail max_attempts now error e db) (λ x h. unfold fail_event in refl)
          (ap (λ c. c.0) (core-retry_or_fail max_attempts now error e db)),
      fail_event-IsSettled max_attempts now error e,
    )

    sent-Settles : (kind : DeliveryType) (u : Recipient) → Settles (true, mark_sent now kind e u db)
    unfolding Settles sent_event record_mail put_event
    sent-Settles kind u = (
      sent_event now kind e,
      find_put (λ _. sent_event now kind e) (mark_sent now kind e u db) (λ x h. refl)
          (ap (λ c. c.0) (core-mark_sent now kind e u db)
            ∙ events-mark_welcomed now kind u
                (put_event e.id (λ _. sent_event now kind e) (record_mail kind u db))),
      sent_event-IsSettled max_attempts now kind e,
    )

    finish_for-Settles : (u : Recipient) → Settles (finish_for deliver max_attempts db now e u)
    unfolding finish_for
    finish_for-Settles u = elim (Option-cases (send_event deliver db (delivery_kind e) e u)) [
      | inl fine ↦ rw (fine, finish_for) (sent-Settles (delivery_kind e) u)
      | inr (error, raised) ↦ rw (raised, finish_for) (retry-Settles error)
    ]

    finish_claimed-Settles : Settles (finish_claimed deliver max_attempts db now e)
    unfolding finish_claimed
    finish_claimed-Settles = elim (Option-cases (find_user db e.user_id)) [
      | inl gone ↦ rw (gone, finish_claimed) drop-Settles
      | inr (u, there) ↦ elim (Option-cases (already_welcomed (delivery_kind e) u)) [
        | inl first ↦ rw (there, first, finish_claimed) (finish_for-Settles u)
        | inr (t, before) ↦ rw (there, before, finish_claimed) (settle-Settles t)
      ]
    ]

-- A call of `_finish_event` either finds no row, or one that is not in `processing`, and then returns
-- false and changes nothing; or it finds a row in `processing`, which it never leaves there: it
-- returns true and the row is `sent`, or returns false and the row is `failed`, or returns false and
-- the row is `pending` again, with fewer attempts than the bound, due between a minute and a day
-- later. The number of attempts stays.
pub finish_event_settles :
    (deliver : DeliveryType → Event → Recipient → Option SendError) (max_attempts : ℕ) (now : Time)
    (db : Db) (id : Uuid)
    → ((finish_event deliver max_attempts db now id ≡ (false, db))
        × ((find (λ x. x.id == id) db.events ≡ none)
            ⊎ ((e : Event) × (find (λ x. x.id == id) db.events ≡ some e)
                × (e.status ≢ processing))))
      ⊎ ((e : Event) × (e' : Event) × (find (λ x. x.id == id) db.events ≡ some e)
          × (e.status ≡ processing)
          × (find (λ x. x.id == id) (finish_event deliver max_attempts db now id).1.events
              ≡ some e')
          × (IsSettled max_attempts now e (finish_event deliver max_attempts db now id).0 e'))
unfolding finish_event Settles
finish_event_settles deliver max_attempts now db id =
    elim (Option-cases (find (λ x. x.id == id) db.events)) [
      | inl gone ↦ inl (rw (gone, finish_event) refl, inl gone)
      | inr (e, found) ↦ elim (Bool-cases (status_eq e.status processing)) [
        | inl claimed ↦
            let (e', row, settled) =
              finish_claimed-Settles id db e found deliver max_attempts now in
            inr (
              e,
              e',
              found,
              status_eq_processing e.status claimed,
              rw (found, claimed, finish_event) row,
              rw (found, claimed, finish_event) settled,
            )
        | inr other ↦
            inl
              (rw (found, other, finish_event) refl, inr (e, found, not_processing e.status other))
      ]
    ]
