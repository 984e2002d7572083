-- ===== src/Social/Totalled.antt =====
-- The counters that `publish_due_events` returns.
use open_city_planner.Social.Publish.{
  Totals, add_outcome, publish_event, store, publish_due_events, publish_events, start,
  recover_stale, first_due, no_totals,
}
use open_city_planner.Social.{Settings, Policy, put_event, Db, Event, is_dry}
use open_city_planner.Social.Attempt.{
  Outcome, Services, was_published, was_retried, was_failed, Result, was_dry_run, was_prepared,
  was_cancelled, attempt, was_interrupted, is_interrupted,
}
use open_city_planner.Base.{
  arith, ℕ, ◌≡◌, Bool, ◌+◌, Time, Uuid, ◌≤◌, suc, length, Option-cases, inl, inr, zero, if_cases,
  ◌&&◌, refl, length-append, none, false, List, Option, ◌⊎◌, some,
}
use open_city_planner.Social.Outcomes.{IsTold, IsSent, attempt_outcome}

-- the turns that the counters account for
abbrev pub counted : Totals → ℕ
counted t = t.published + t.retried + t.failed + t.dry_run + t.prepared + t.cancelled

-- The turns whose request Mastodon may have accepted.
abbrev pub may_have_sent : Totals → ℕ
may_have_sent t = t.published + t.retried + t.failed + t.cancelled

abbrev IsCounted : Totals → Type 0
IsCounted t = t.processed ≡ counted t

add_outcome-IsCounted :
    (o : Outcome) (t : Totals)
    → is_interrupted o ≡ false
    → IsCounted t
    → IsCounted (add_outcome o t)
unfolding add_outcome
add_outcome-IsCounted was_published t k h = omega arith
add_outcome-IsCounted was_retried t k h = omega arith
add_outcome-IsCounted was_failed t k h = omega arith
add_outcome-IsCounted was_dry_run t k h = omega arith
add_outcome-IsCounted was_prepared t k h = omega arith
add_outcome-IsCounted was_cancelled t k h = omega arith
add_outcome-IsCounted was_interrupted t k h = absurd (ground arith)

processed-add_outcome : (o : Outcome) (t : Totals) → (add_outcome o t).processed ≡ t.processed + 1
unfolding add_outcome
processed-add_outcome o t = ground arith

-- 1 for a turn whose request Mastodon may have accepted
abbrev posts : Outcome → ℕ
posts was_prepared = 0
posts was_dry_run = 0
posts _ = 1

sent-add_outcome :
    (o : Outcome) (t : Totals)
    → is_interrupted o ≡ false
    → may_have_sent (add_outcome o t) ≡ may_have_sent t + posts o
unfolding add_outcome
sent-add_outcome was_published t k = omega arith
sent-add_outcome was_retried t k = omega arith
sent-add_outcome was_failed t k = omega arith
sent-add_outcome was_dry_run t k = omega arith
sent-add_outcome was_prepared t k = omega arith
sent-add_outcome was_cancelled t k = omega arith
sent-add_outcome was_interrupted t k = absurd (ground arith)

posts-le : (o : Outcome) → posts o ≤ 1
posts-le o = ground arith

module _ (settings : Settings) (policy : Policy) where
  length-sent-le :
      (dry : Bool) (id : Uuid) (flag : Bool) (statuses : List Uuid)
      → IsSent dry id flag statuses
      → length statuses ≤ 1
  length-sent-le dry id flag statuses (inl none_sent) = rw none_sent (omega arith)
  length-sent-le dry id flag statuses (inr (one, flag_off, wet)) = rw one (omega arith)

  told_posts :
      (services : Services) (dry : Bool) (now : Time) (id : Uuid) (flag : Bool) (attempts : ℕ)
      (r : Result) (o : Outcome)
      → IsTold services settings dry now id flag attempts r o
      → length r.statuses ≤ posts o
  told_posts services dry now id flag attempts r was_published h =
      length-sent-le dry id flag r.statuses h.3
  told_posts services dry now id flag attempts r was_retried h =
      length-sent-le dry id flag r.statuses h.2
  told_posts services dry now id flag attempts r was_failed h =
      length-sent-le dry id flag r.statuses h.2
  told_posts services dry now id flag attempts r was_cancelled h =
      length-sent-le dry id flag r.statuses h.2
  told_posts services dry now id flag attempts r was_prepared h = rw (h.3.1) (omega arith)
  told_posts services dry now id flag attempts r was_dry_run h = rw (h.4) (omega arith)
  told_posts services dry now id flag attempts r was_interrupted h =
      length-sent-le dry id flag r.statuses h.0

  statuses-publish_event :
      (services : Services) (now : Time) (e : Event) (db : Db)
      → let (o, db') = publish_event settings policy services now e db in
        length db'.statuses ≤ length db.statuses + posts o
  unfolding publish_event store put_event start
  statuses-publish_event services now e db =
      let dry = is_dry settings policy in
      let r : Result = attempt settings services now dry db.publications (start now e) in
      let few : length r.statuses ≤ posts r.outcome =
        elim (attempt_outcome settings dry now services db.publications (start now e)) [
          | inl (ended, right) ↦
              told_posts services dry now e.id e.approval_required (e.attempt_count + 1) r r.outcome
                right.1
          | inr interrupted ↦
              rw (interrupted.0)
                (length-sent-le dry e.id e.approval_required r.statuses interrupted.4)
        ] in
      omega (arith, length-append db.statuses r.statuses, few)

  module _ (services : ℕ → Services) (clock : ℕ → Time) where
    -- The counters from the given ones on, if there are any, and the requests that Mastodon has
    -- accepted.
    IsSum : ℕ → Totals → Db → Option Totals × Db → Type 0
    IsSum turns t db r =
        (length r.1.statuses ≤ length db.statuses + turns)
        × ((r.0 ≡ none)
            ⊎ ((t' : Totals) × (r.0 ≡ some t')
                × IsCounted t'
                × (t'.processed ≤ t.processed + turns)
                × (length r.1.statuses + may_have_sent t ≤ length db.statuses + may_have_sent t')))

    IsSum-next :
        (turns : ℕ) (t : Totals) (db : Db) (r : Outcome × Db) (rest : Option Totals × Db)
        → is_interrupted r.0 ≡ false
        → length r.1.statuses ≤ length db.statuses + posts r.0
        → IsSum turns (add_outcome r.0 t) r.1 rest
        → IsSum (suc turns) t db rest
    unfolding IsSum
    IsSum-next turns t db r rest more step (all, inl ended) =
        (omega (arith, all, step, posts-le r.0), inl ended)
    IsSum-next turns t db r rest more step (all, inr (t', is_some, counts, few, sent)) = (
      omega (arith, all, step, posts-le r.0),
      inr (
        t',
        is_some,
        counts,
        omega (arith, few, processed-add_outcome r.0 t),
        omega (arith, sent, step, sent-add_outcome r.0 t more),
      ),
    )

    publish_events-IsSum :
        (turns : ℕ) (t : Totals) (db : Db)
        → IsCounted t
        → IsSum turns t db (publish_events settings policy services clock turns t db)
    unfolding publish_events IsSum
    publish_events-IsSum zero t db h = (omega arith, inr (t, refl, h, omega arith, omega arith))
    publish_events-IsSum (suc turns) t db h =
        elim (Option-cases (first_due policy (clock turns) db.events)) [
          | inl k ↦ rw (k, publish_events) (omega arith, inr (t, refl, h, omega arith, omega arith))
          | inr (e, k) ↦
              let r : Outcome × Db =
                publish_event settings policy (services turns) (clock turns) e db in
              let step = statuses-publish_event (services turns) (clock turns) e db in
              let rest : Option Totals × Db =
                publish_events settings policy services clock turns (add_outcome r.0 t) r.1 in
              rw (k, publish_events)
                (if_cases (λ (x : Option Totals × Db). IsSum (suc turns) t db x)
                  (is_interrupted r.0) (none, r.1) rest
                  (λ stop. (omega (arith, step, posts-le r.0), inl refl))
                  (λ more. IsSum-next turns t db r rest more step (
                    publish_events-IsSum turns (add_outcome r.0 t) r.1
                      (add_outcome-IsCounted r.0 t more h))))
        ]

    -- A run adds up: if it returns its counters, they add up to the processed rows, which are at
    -- most `limit`, and Mastodon has accepted at most as many requests as turns are counted as
    -- published, retried, failed or cancelled, as an answer may have been lost. A run that an exception
    -- has ended returns none. In both cases Mastodon has accepted at most `limit` requests.
    pub publish_totals :
        (db : Db) (now : Time) (limit : ℕ)
        → let (r, db') = publish_due_events settings policy services clock db now limit in
          (length db'.statuses ≤ length db.statuses + limit)
          × ((r ≡ none)
              ⊎ ((t : Totals) × (r ≡ some t)
                  × (t.processed ≡ counted t)
                  × (t.processed ≤ limit)
                  × (length db'.statuses ≤ length db.statuses + may_have_sent t)))
    unfolding publish_due_events recover_stale IsSum
    publish_totals db now limit =
        let (all, sum) =
          if_cases (λ (r : Option Totals × Db). IsSum limit no_totals db r)
            (settings.mastodon_enabled && policy.enabled)
            (publish_events settings policy services clock limit no_totals (recover_stale now db))
            (some no_totals, db)
            (λ h. publish_events-IsSum limit no_totals (recover_stale now db) refl)
            (λ h. (omega arith, inr (no_totals, refl, refl, omega arith, omega arith))) in
        (
          all,
          elim sum [
            | inl ended ↦ inl ended
            | inr (t, is_some, counts, few, sent) ↦
                inr (t, is_some, counts, omega (arith, few), omega (arith, sent))
          ],
        )
