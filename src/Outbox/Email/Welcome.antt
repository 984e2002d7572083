-- ===== src/Outbox/Email/Welcome.antt =====
-- No user is sent the welcome mail twice, however rows are queued, claimed, retried and recovered.
-- A worker that dies between the delivery and the commit is not modelled.
use open_city_planner.Outbox.Email.Finish.{
  mark_welcomed, record_mail, already_welcomed, finish_claimed, finish_for, finish_event, mark_sent,
  sent_event, delivery_kind, send_event, drop_event, retry_or_fail, drop_row, fail_event,
  settle_event,
}
use open_city_planner.Outbox.Email.Keeps.{
  core, core-mark_sent, core-drop_event, core-retry_or_fail, core-claim_campaign,
}
use open_city_planner.Outbox.Email.{
  SentMail, Recipient, is_welcome, DeliveryType, Db, welcome, notification_mail, campaign_mail,
  put_event, Event, find_user, SendError, status_eq, processing,
}
use open_city_planner.Outbox.Email.Claim.{
  claim, claim_event, first_due, start_event, claim_campaign,
}
use open_city_planner.Outbox.Email.Order.{claim_event_empty, claim_event_found}
use open_city_planner.Base.{
  Bool, List, Uuid, All, count, Time, ◌≡◌, ◌≤◌, some, none, ◌&&◌, ◌==◌, false, update, ◌++◌, ◌∷◌,
  [], arith, ◌+◌, if_cases, if◌then◌else◌, refl, count-append, ◌∙◌, Option, subst, All_find, sym,
  Option-cases, ℕ, find, inl, inr, ap, Bool-cases,
}

abbrev pub welcomes : Uuid → SentMail → Bool
welcomes id m = is_welcome (some m.kind) && m.to_user == id

-- A user whose `welcome_email_sent_at` is not set has been sent no welcome mail.
abbrev pub IsUnwelcomed : List SentMail → Recipient → Type 0
IsUnwelcomed mails u = u.welcome_email_sent_at ≡ none → count (welcomes u.id) mails ≡ 0

abbrev pub IsWelcomedOnce : List Recipient × List SentMail → Type 0
IsWelcomedOnce c = All (IsUnwelcomed c.1) c.0 × ((id : Uuid) → count (welcomes id) c.1 ≤ 1)

abbrev pub HasWelcomedOnce : Db → Type 0
HasWelcomedOnce db = IsWelcomedOnce (db.users, db.mails)

-- the invariant is about the users and the mails only
pub same-HasWelcomedOnce :
    (db' db : Db) → core db' ≡ core db → HasWelcomedOnce db → HasWelcomedOnce db'
same-HasWelcomedOnce db' db e h = subst (λ c. IsWelcomedOnce (c.1, c.2)) (sym e) h

count-record :
    (id : Uuid) (m : SentMail) (mails : List SentMail)
    → count (welcomes id) (mails ++ m ∷ [])
      ≡ count (welcomes id) mails + (if welcomes id m then 1 else 0)
unfolding count
count-record id m mails = count-append (welcomes id) mails (m ∷ []) ∙ omega arith

welcome_users :
    (now : Time) (id : Uuid) (m : SentMail) (mails : List SentMail) (users : List Recipient)
    → m.to_user ≡ id
    → All (IsUnwelcomed mails) users
    → All
        (IsUnwelcomed (mails ++ m ∷ []))
        (update (λ x. x.id == id) (λ x. record x { welcome_email_sent_at = some now }) users)
unfolding update
welcome_users now id m mails [] to_id h = tt
welcome_users now id m mails (x ∷ users) to_id h = (
  if_cases (IsUnwelcomed (mails ++ m ∷ [])) (x.id == id)
      (record x { welcome_email_sent_at = some now }) x (λ same unset. absurd (ground arith))
      (λ other unset. ground (arith, count-record x.id m mails, h.0 unset)),
  welcome_users now id m mails users to_id h.1,
)

other_users :
    (m : SentMail) (mails : List SentMail) (users : List Recipient)
    → is_welcome (some m.kind) ≡ false
    → All (IsUnwelcomed mails) users
    → All (IsUnwelcomed (mails ++ m ∷ [])) users
other_users m mails [] k h = tt
other_users m mails (x ∷ users) k h =
    (λ unset. ground (arith, count-record x.id m mails, h.0 unset), other_users m mails users k h.1)

other-IsWelcomedOnce :
    (m : SentMail) (users : List Recipient) (mails : List SentMail)
    → is_welcome (some m.kind) ≡ false
    → IsWelcomedOnce (users, mails)
    → IsWelcomedOnce (users, mails ++ m ∷ [])
other-IsWelcomedOnce m users mails k h =
    (other_users m mails users k h.0, λ id. ground (arith, count-record id m mails, h.1 id))

welcome-IsWelcomedOnce :
    (now : Time) (u : Recipient) (users : List Recipient) (mails : List SentMail)
    → let m : SentMail = record { kind = welcome; to_user = u.id } in
      IsWelcomedOnce (users, mails)
      → count (welcomes u.id) mails ≡ 0
      → IsWelcomedOnce (
        update (λ x. x.id == u.id) (λ x. record x { welcome_email_sent_at = some now }) users,
        mails ++ m ∷ [],
      )
welcome-IsWelcomedOnce now u users mails h unsent =
    let m : SentMail = record { kind = welcome; to_user = u.id } in
    (
      welcome_users now u.id m mails users refl h.0,
      λ id. ground (arith, count-record id m mails, h.1 id),
    )

mark_welcomed-IsWelcomedOnce :
    (now : Time) (u : Recipient) (kind : DeliveryType) (db : Db) (f : Event → Event) (id : Uuid)
    → HasWelcomedOnce db
    → IsUnwelcomed db.mails u
    → already_welcomed kind u ≡ none
    → HasWelcomedOnce (mark_welcomed now kind u (put_event id f (record_mail kind u db)))
unfolding mark_welcomed record_mail put_event
mark_welcomed-IsWelcomedOnce now u welcome db f id h unsent first =
    welcome-IsWelcomedOnce now u db.users db.mails h (unsent first)
mark_welcomed-IsWelcomedOnce now u notification_mail db f id h unsent first =
    other-IsWelcomedOnce (record { kind = notification_mail; to_user = u.id }) db.users db.mails
      refl h
mark_welcomed-IsWelcomedOnce now u campaign_mail db f id h unsent first =
    other-IsWelcomedOnce (record { kind = campaign_mail; to_user = u.id }) db.users db.mails refl h

user-IsUnwelcomed :
    (db : Db) (id : Option Uuid) (u : Recipient)
    → HasWelcomedOnce db
    → find_user db id ≡ some u
    → IsUnwelcomed db.mails u
unfolding find_user
user-IsUnwelcomed db none u h e = absurd (ground arith)
user-IsUnwelcomed db (some id) u h e =
    All_find (IsUnwelcomed db.mails) (λ x. x.id == id) db.users u h.0 e

pub claim_event-HasWelcomedOnce :
    (db : Db) (now : Time) (user_id : Option Uuid)
    → HasWelcomedOnce db
    → HasWelcomedOnce (claim_event db now user_id).1
unfolding claim put_event
claim_event-HasWelcomedOnce db now user_id h =
    elim (Option-cases (first_due now user_id db.events)) [
      | inl empty ↦
          subst HasWelcomedOnce (sym (ap (λ c. c.1) (claim_event_empty db now user_id empty))) h
      | inr (e, found) ↦
          let db' = put_event e.id (λ _. start_event now e) db in
          subst HasWelcomedOnce (sym (ap (λ c. c.1) (claim_event_found db now user_id e found))) (
            same-HasWelcomedOnce (claim_campaign now (start_event now e) db') db'
              (core-claim_campaign now (start_event now e) db') h)
    ]

module _ (deliver : DeliveryType → Event → Recipient → Option SendError) (max_attempts : ℕ)
    (now : Time) where
  sent-HasWelcomedOnce :
      (kind : DeliveryType) (e : Event) (u : Recipient) (db : Db)
      → HasWelcomedOnce db
      → IsUnwelcomed db.mails u
      → already_welcomed kind u ≡ none
      → HasWelcomedOnce (mark_sent now kind e u db)
  sent-HasWelcomedOnce kind e u db h unsent first =
      same-HasWelcomedOnce (mark_sent now kind e u db)
        (mark_welcomed now kind u
          (put_event e.id (λ _. sent_event now kind e) (record_mail kind u db)))
        (core-mark_sent now kind e u db)
        (mark_welcomed-IsWelcomedOnce now u kind db (λ _. sent_event now kind e) e.id h unsent
          first)

  finish_for-HasWelcomedOnce :
      (db : Db) (e : Event) (u : Recipient)
      → HasWelcomedOnce db
      → IsUnwelcomed db.mails u
      → already_welcomed (delivery_kind e) u ≡ none
      → HasWelcomedOnce (finish_for deliver max_attempts db now e u).1
  unfolding finish_for
  finish_for-HasWelcomedOnce db e u h unsent first =
      elim (Option-cases (send_event deliver db (delivery_kind e) e u)) [
        | inl fine ↦
            rw (fine, finish_for) (sent-HasWelcomedOnce (delivery_kind e) e u db h unsent first)
        | inr (error, raised) ↦
            rw (raised, finish_for)
              (same-HasWelcomedOnce (retry_or_fail max_attempts now error e db)
                (put_event e.id (λ _. fail_event max_attempts now error e) db)
                (core-retry_or_fail max_attempts now error e db) (unfold put_event in h))
      ]

  finish_claimed-HasWelcomedOnce :
      (db : Db) (e : Event)
      → HasWelcomedOnce db
      → HasWelcomedOnce (finish_claimed deliver max_attempts db now e).1
  unfolding finish_claimed put_event
  finish_claimed-HasWelcomedOnce db e h = elim (Option-cases (find_user db e.user_id)) [
    | inl gone ↦
        rw (gone, finish_claimed)
          (same-HasWelcomedOnce (drop_event now e db) (put_event e.id drop_row db)
            (core-drop_event now e db) h)
    | inr (u, there) ↦ elim (Option-cases (already_welcomed (delivery_kind e) u)) [
      | inl first ↦
          rw (there, first, finish_claimed)
            (finish_for-HasWelcomedOnce db e u h (user-IsUnwelcomed db e.user_id u h there) first)
      | inr (t, before) ↦ rw (there, before, finish_claimed) (unfold settle_event in h)
    ]
  ]

  pub finish_event-HasWelcomedOnce :
      (db : Db) (id : Uuid)
      → HasWelcomedOnce db
      → HasWelcomedOnce (finish_event deliver max_attempts db now id).1
  unfolding finish_event
  finish_event-HasWelcomedOnce db id h = elim (Option-cases (find (λ x. x.id == id) db.events)) [
    | inl gone ↦ rw (gone, finish_event) h
    | inr (e, found) ↦ elim (Bool-cases (status_eq e.status processing)) [
      | inl claimed ↦ rw (found, claimed, finish_event) (finish_claimed-HasWelcomedOnce db e h)
      | inr other ↦ rw (found, other, finish_event) h
    ]
  ]
