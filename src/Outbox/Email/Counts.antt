-- ===== src/Outbox/Email/Counts.antt =====
-- The counts of a campaign after `_refresh_campaign_counts`.
use open_city_planner.Outbox.Email.Finish.{
  counted, count_in, complete, is_done, refreshed, set_counts, final_status,
  refresh_campaign_counts, is_completed,
}
use open_city_planner.Outbox.Email.{
  Delivery, Campaign, pending, processing, find_campaign, Db, put_campaign, log, sent, failed,
  skipped, cancelled,
}
use open_city_planner.Outbox.Email.Counted.{
  count_statuses, counted_done, counted_open, counted_idempotent,
}
use open_city_planner.Base.{
  Bool, Time, count, List, Uuid, ◌+◌, ◌≡◌, ◌==◌, ◌∷◌, [], refl, arith, false, true, ◌&&◌,
  Bool-cases, inl, ◌∙◌, inr, ap, update, some, find_holds, not, find-update, Option-cases, get_or,
  ◌⊎◌, none,
}

update_const :
    (id key : Uuid) (c' : Campaign) (xs : List Campaign)
    → c'.id ≡ id
    → key ≡ id
    → update (λ x. x.id == key) (λ _. c') (update (λ x. x.id == id) (λ _. c') xs)
      ≡ update (λ x. x.id == id) (λ _. c') xs
unfolding update
update_const id key c' [] h k = refl
update_const id key c' (x ∷ xs) h k = elim (Bool-cases (x.id == id)) [
  | inl hit ↦
      let again : (c'.id == key) ≡ true = ground arith in
      rw hit (rw again (ap (λ r. c' ∷ r) (update_const id key c' xs h k)))
  | inr miss ↦
      let again : (x.id == key) ≡ false = ground arith in
      rw miss (rw again (ap (λ r. x ∷ r) (update_const id key c' xs h k)))
]

counted-id :
    (now : Time) (deliveries : List Delivery) (c : Campaign) → (counted now deliveries c).id ≡ c.id
unfolding refreshed set_counts complete
counted-id now deliveries c = elim (Bool-cases (is_done c.id deliveries)) [
  | inl y ↦ ap (λ x. x.id) (counted_done now deliveries c y)
  | inr n ↦ ap (λ x. x.id) (counted_open now deliveries c n)
]

-- the tables of a refresh; the log apart, these are the campaigns
refresh_lem :
    (now : Time) (id : Uuid) (db : Db) (c : Campaign)
    → find_campaign db (some id) ≡ some c
    → let r = refresh_campaign_counts now (some id) db in
      (r.deliveries ≡ db.deliveries)
      × (r.campaigns ≡ update (λ x. x.id == c.id) (λ _. counted now db.deliveries c) db.campaigns)
unfolding refresh_campaign_counts put_campaign log
refresh_lem now id db c found =
    elim (Bool-cases (is_completed (counted now db.deliveries c) && not (is_completed c))) [
      | inl y ↦
          (rw (found, y, refresh_campaign_counts) refl, rw (found, y, refresh_campaign_counts) refl)
      | inr n ↦
          (rw (found, n, refresh_campaign_counts) refl, rw (found, n, refresh_campaign_counts) refl)
    ]

find_refreshed :
    (now : Time) (id : Uuid) (db : Db) (c : Campaign)
    → find_campaign db (some id) ≡ some c
    → find_campaign (refresh_campaign_counts now (some id) db) (some id)
      ≡ some (counted now db.deliveries c)
unfolding find_campaign
find_refreshed now id db c found =
    let c' = counted now db.deliveries c in
    let q : Campaign → Bool = λ x. x.id == id in
    let p : Campaign → Bool = λ x. x.id == c.id in
    let same : c.id ≡ id = ground (arith, find_holds q db.campaigns c found) in
    let hit : (c.id == c.id) ≡ true = ground arith in
    let kept =
      find-update q p (λ _. c') db.campaigns
        (λ x t. ground (arith, counted-id now db.deliveries c, same)) c found in
    rw ((refresh_lem now id db c found).1) (kept ∙ rw hit refl)

-- a refresh that finds a campaign counted already changes nothing
refresh_settled :
    (later : Time) (id : Uuid) (db : Db) (c : Campaign)
    → find_campaign db (some id) ≡ some c
    → counted later db.deliveries c ≡ c
    → update (λ x. x.id == c.id) (λ _. c) db.campaigns ≡ db.campaigns
    → refresh_campaign_counts later (some id) db ≡ db
unfolding refresh_campaign_counts put_campaign log
refresh_settled later id db c found same stays =
    let quiet : (is_completed c && not (is_completed c)) ≡ false = ground arith in
    rw (found, refresh_campaign_counts)
      (rw same (rw quiet (ap (λ xs. record db { campaigns = xs }) stays)))

refresh_gone :
    (now : Time) (id : Uuid) (db : Db)
    → find_campaign db (some id) ≡ none
    → refresh_campaign_counts now (some id) db ≡ db
unfolding refresh_campaign_counts
refresh_gone now id db gone = rw (gone, refresh_campaign_counts) refl

-- The refresh of a campaign's counts is idempotent: a second one, at any later time and with the
-- same deliveries, changes nothing, neither the log nor the time of the campaign's end.
refresh_campaign_counts_twice :
    (now later : Time) (id : Uuid) (db : Db)
    → refresh_campaign_counts later (some id) (refresh_campaign_counts now (some id) db)
      ≡ refresh_campaign_counts now (some id) db
refresh_campaign_counts_twice now later id db = elim (Option-cases (find_campaign db (some id))) [
  | inl gone ↦ rw (refresh_gone now id db gone) (refresh_gone later id db gone)
  | inr (c, found) ↦
      let r = refresh_campaign_counts now (some id) db in
      let c' = counted now db.deliveries c in
      let (same_deliveries, campaigns) = refresh_lem now id db c found in
      let same_id = counted-id now db.deliveries c in
      refresh_settled later id r c' (find_refreshed now id db c found)
        (rw same_deliveries (counted_idempotent now later db.deliveries c))
        (rw campaigns (update_const c.id c'.id c' db.campaigns same_id same_id))
]

counted_sum :
    (now : Time) (deliveries : List Delivery) (c : Campaign)
    → let c' = counted now deliveries c in
      c'.sent_count
        + c'.failed_count
        + c'.skipped_count
        + (count_in c.id pending deliveries + count_in c.id processing deliveries)
      ≡ count (λ d. d.campaign_id == c.id) deliveries
unfolding refreshed set_counts complete
counted_sum now deliveries c = elim (Bool-cases (is_done c.id deliveries)) [
  | inl y ↦ rw (counted_done now deliveries c y) (count_statuses c.id deliveries)
  | inr n ↦ rw (counted_open now deliveries c n) (count_statuses c.id deliveries)
]

counted_each :
    (now : Time) (deliveries : List Delivery) (c : Campaign)
    → let c' = counted now deliveries c in
      (c'.sent_count ≡ count_in c.id sent deliveries)
      × (c'.failed_count ≡ count_in c.id failed deliveries)
      × (c'.skipped_count ≡ count_in c.id skipped deliveries + count_in c.id cancelled deliveries)
unfolding refreshed set_counts complete
counted_each now deliveries c = elim (Bool-cases (is_done c.id deliveries)) [
  | inl y ↦ rw (counted_done now deliveries c y) (refl, refl, refl)
  | inr n ↦ rw (counted_open now deliveries c n) (refl, refl, refl)
]

counted_end :
    (now : Time) (deliveries : List Delivery) (c : Campaign)
    → let c' = counted now deliveries c in
      ((is_done c.id deliveries ≡ true)
        × (c'.status ≡ final_status c.status)
        × (c'.completed_at ≡ some (get_or c.completed_at now)))
      ⊎ ((is_done c.id deliveries ≡ false)
          × (c'.status ≡ c.status)
          × (c'.completed_at ≡ c.completed_at))
unfolding refreshed set_counts complete
counted_end now deliveries c = elim (Bool-cases (is_done c.id deliveries)) [
  | inl y ↦ rw (counted_done now deliveries c y) (inl (y, refl, refl))
  | inr n ↦ rw (counted_open now deliveries c n) (inr (n, refl, refl))
]

-- After a refresh the row of the campaign counts its deliveries by their status: those sent, those
-- failed, and as skipped those skipped or cancelled; with those still open these are all of its
-- deliveries. Where none is open the campaign has an end,
-- and is completed unless it was withdrawn; otherwise its status stays.
pub refresh_campaign_counts_exact :
    (now : Time) (id : Uuid) (db : Db) (c : Campaign)
    → find_campaign db (some id) ≡ some c
    → (c' : Campaign) × (find_campaign (refresh_campaign_counts now (some id) db) (some id)
        ≡ some c')
      × (c'.sent_count ≡ count_in id sent db.deliveries)
      × (c'.failed_count ≡ count_in id failed db.deliveries)
      × (c'.skipped_count ≡ count_in id skipped db.deliveries + count_in id cancelled db.deliveries)
      × (c'.sent_count
            + c'.failed_count
            + c'.skipped_count
            + (count_in id pending db.deliveries + count_in id processing db.deliveries)
          ≡ count (λ d. d.campaign_id == id) db.deliveries)
      × (((is_done id db.deliveries ≡ true)
            × (c'.status ≡ final_status c.status)
            × (c'.completed_at ≡ some (get_or c.completed_at now)))
          ⊎ ((is_done id db.deliveries ≡ false)
              × (c'.status ≡ c.status)
              × (c'.completed_at ≡ c.completed_at)))
unfolding refreshed set_counts complete find_campaign
refresh_campaign_counts_exact now id db c found =
    let same : c.id ≡ id = ground (arith, find_holds (λ x. x.id == id) db.campaigns c found) in
    (
      counted now db.deliveries c,
      find_refreshed now id db c found,
      rw (← same) (counted_each now db.deliveries c).0,
      rw (← same) (counted_each now db.deliveries c).1,
      rw (← same) (counted_each now db.deliveries c).2,
      rw (← same) (counted_sum now db.deliveries c),
      rw (← same) (counted_end now db.deliveries c),
    )
