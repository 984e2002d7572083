-- ===== src/Outbox/Email/Once.antt =====
-- The outbox over its whole life: the states that queueing, claiming, sending, recovering and the
-- other services reach. What the workers are, when they run and what fails differ in each step.
use open_city_planner.Outbox.Email.Claim.{
  enqueue_notification_email, enqueue_welcome_email, claim_event, first_due,
}
use open_city_planner.Outbox.Email.{Db, DeliveryType, Event, Recipient, SendError, SentMail}
use open_city_planner.Outbox.Email.Welcome.{
  claim_event-HasWelcomedOnce, HasWelcomedOnce, IsUnwelcomed, welcomes,
  finish_event-HasWelcomedOnce, same-HasWelcomedOnce,
}
use open_city_planner.Outbox.Email.Process.{
  attempt_welcome_delivery, process_due_email_outbox, process_events, Totals, recover_stale,
  add_result,
}
use open_city_planner.Outbox.Email.Keeps.{core}
use open_city_planner.Outbox.Email.Totals.{process_events_drained, process_events_claimed}
use open_city_planner.Outbox.Email.Finish.{finish_event}
use open_city_planner.Base.{
  Uuid, ◌≡◌, Time, update, Bool-cases, Option, count, [], ◌==◌, not, ◌++◌, ◌||◌, ℕ, ◌≤◌, ◌∷◌, true,
  All-update, All-append, is_some, Option-cases, inl, suc, inr, some, none, subst, sym, zero, List,
  arith, All, refl,
}

module _ (deliver : DeliveryType → Event → Recipient → Option SendError) (max_attempts : ℕ) where
  attempt-HasWelcomedOnce :
      (db : Db) (now : Time) (user_id : Uuid)
      → HasWelcomedOnce db
      → HasWelcomedOnce (attempt_welcome_delivery deliver max_attempts db now user_id).1
  unfolding attempt_welcome_delivery
  attempt-HasWelcomedOnce db now user_id h =
      elim (Option-cases (claim_event db now (some user_id)).0) [
        | inl empty ↦
            rw (empty, attempt_welcome_delivery)
              (claim_event-HasWelcomedOnce db now (some user_id) h)
        | inr (e, found) ↦
            rw (found, attempt_welcome_delivery)
              (finish_event-HasWelcomedOnce deliver max_attempts now
                (claim_event db now (some user_id)).1 e.id
                (claim_event-HasWelcomedOnce db now (some user_id) h))
      ]

module _ (deliver : DeliveryType → Event → Recipient → Option SendError) (max_attempts : ℕ)
    (clock : ℕ → Time) where
  process_events-HasWelcomedOnce :
      (turns : ℕ) (t : Totals) (db : Db)
      → HasWelcomedOnce db
      → HasWelcomedOnce (process_events deliver max_attempts clock turns t db).1
  unfolding process_events
  process_events-HasWelcomedOnce zero t db h = h
  process_events-HasWelcomedOnce (suc turns) t db h =
      elim (Option-cases (first_due (clock turns) none db.events)) [
        | inl empty ↦
            subst (λ r. HasWelcomedOnce r.1)
              (sym (process_events_drained deliver max_attempts clock turns t db empty)) h
        | inr (e, found) ↦
            let run =
              finish_event deliver max_attempts (claim_event db (clock turns) none).1 (clock turns)
                e.id in
            subst (λ r. HasWelcomedOnce r.1)
              (sym (process_events_claimed deliver max_attempts clock turns t db e found))
              (process_events-HasWelcomedOnce turns (add_result run.0 t) run.1 (
                finish_event-HasWelcomedOnce deliver max_attempts (clock turns)
                  (claim_event db (clock turns) none).1 e.id
                  (claim_event-HasWelcomedOnce db (clock turns) none h)))
      ]

  process-HasWelcomedOnce :
      (db : Db) (now : Time) (limit : ℕ)
      → HasWelcomedOnce db
      → HasWelcomedOnce (process_due_email_outbox deliver max_attempts clock db now limit).1
  unfolding process_due_email_outbox recover_stale
  process-HasWelcomedOnce db now limit h =
      process_events-HasWelcomedOnce limit (record { processed = 0; sent = 0; failed = 0 })
        (recover_stale now db) h

signed_up-HasWelcomedOnce :
    (db : Db) (u : Recipient)
    → IsUnwelcomed db.mails u
    → HasWelcomedOnce db
    → HasWelcomedOnce (record db { users = db.users ++ u ∷ [] })
signed_up-HasWelcomedOnce db u unsent h =
    (All-append (IsUnwelcomed db.mails) db.users (u ∷ []) h.0 (unsent, tt), h.1)

verified-HasWelcomedOnce :
    (db : Db) (id : Uuid)
    → HasWelcomedOnce db
    → HasWelcomedOnce (record db {
      users = update (λ u. u.id == id) (λ u. record u { is_verified = true }) db.users;
    })
verified-HasWelcomedOnce db id h = (
  All-update (IsUnwelcomed db.mails) (λ u. u.id == id) (λ u. record u { is_verified = true })
      db.users (λ u hit k. k) h.0,
  h.1,
)

enqueue-HasWelcomedOnce :
    (db : Db) (now : Time) (u : Recipient) (id : Uuid)
    → HasWelcomedOnce db
    → HasWelcomedOnce (enqueue_welcome_email db now u id)
unfolding enqueue_welcome_email
enqueue-HasWelcomedOnce db now u id h =
    elim (Bool-cases (not u.is_verified || is_some u.welcome_email_sent_at)) [
      | inl skip ↦ rw (skip, enqueue_welcome_email) h
      | inr queue ↦ rw (queue, enqueue_welcome_email) h
    ]

count-no_mails : (id : Uuid) (mails : List SentMail) → mails ≡ [] → count (welcomes id) mails ≡ 0
unfolding count
count-no_mails id mails e = rw e refl

unsent_users :
    (mails : List SentMail) (users : List Recipient) → mails ≡ [] → All (IsUnwelcomed mails) users
unsent_users mails [] e = tt
unsent_users mails (u ∷ users) e = (λ _. count-no_mails u.id mails e, unsent_users mails users e)

start-HasWelcomedOnce : (db : Db) → db.mails ≡ [] → HasWelcomedOnce db
start-HasWelcomedOnce db e =
    (unsent_users db.mails db.users e, λ id. ground (arith, count-no_mails id db.mails e))

-- The reachable states. `signed_up` adds an account that was sent nothing; `edited` is any change of
-- the other tables.
pub data Reach : Db → Type 0 where
  start : (db : Db) → db.mails ≡ [] → Reach db
  signed_up :
      (db : Db) (u : Recipient)
      → count (welcomes u.id) db.mails ≡ 0
      → Reach db
      → Reach (record db { users = db.users ++ u ∷ [] })
  verified :
      (db : Db) (id : Uuid)
      → Reach db
      → Reach (record db {
        users = update (λ u. u.id == id) (λ u. record u { is_verified = true }) db.users;
      })
  edited : (db : Db) (db' : Db) → core db' ≡ core db → Reach db → Reach db'
  queued_welcome :
      (db : Db) (now : Time) (u : Recipient) (id : Uuid)
      → Reach db
      → Reach (enqueue_welcome_email db now u id)
  queued_notification :
      (db : Db) (now : Time) (notification_id : Uuid) (user_id : Uuid) (id : Uuid)
      → Reach db
      → Reach (enqueue_notification_email db now notification_id user_id id)
  attempted :
      (deliver : DeliveryType → Event → Recipient → Option SendError) (max_attempts : ℕ) (db : Db)
      (now : Time) (user_id : Uuid)
      → Reach db
      → Reach (attempt_welcome_delivery deliver max_attempts db now user_id).1
  processed :
      (deliver : DeliveryType → Event → Recipient → Option SendError) (max_attempts : ℕ)
      (clock : ℕ → Time) (db : Db) (now : Time) (limit : ℕ)
      → Reach db
      → Reach (process_due_email_outbox deliver max_attempts clock db now limit).1

Reach-HasWelcomedOnce : (db : Db) → Reach db → HasWelcomedOnce db
unfolding enqueue_notification_email
Reach-HasWelcomedOnce _ (start db none_sent) = start-HasWelcomedOnce db none_sent
Reach-HasWelcomedOnce _ (signed_up db u unsent r) =
    signed_up-HasWelcomedOnce db u (λ _. unsent) (Reach-HasWelcomedOnce db r)
Reach-HasWelcomedOnce _ (verified db id r) =
    verified-HasWelcomedOnce db id (Reach-HasWelcomedOnce db r)
Reach-HasWelcomedOnce _ (edited db db' e r) =
    same-HasWelcomedOnce db' db e (Reach-HasWelcomedOnce db r)
Reach-HasWelcomedOnce _ (queued_welcome db now u id r) =
    enqueue-HasWelcomedOnce db now u id (Reach-HasWelcomedOnce db r)
Reach-HasWelcomedOnce _ (queued_notification db now n u id r) = Reach-HasWelcomedOnce db r
Reach-HasWelcomedOnce _ (attempted deliver max_attempts db now u r) =
    attempt-HasWelcomedOnce deliver max_attempts db now u (Reach-HasWelcomedOnce db r)
Reach-HasWelcomedOnce _ (processed deliver max_attempts clock db now limit r) =
    process-HasWelcomedOnce deliver max_attempts clock db now limit (Reach-HasWelcomedOnce db r)

-- In every reachable state each user has been sent at most one welcome mail.
pub Reach-welcomes : (db : Db) → Reach db → (id : Uuid) → count (welcomes id) db.mails ≤ 1
Reach-welcomes db r = (Reach-HasWelcomedOnce db r).1
