-- ===== src/Outbox/Email/Counted.antt =====
-- The row of a campaign with its counts, `counted`.
use open_city_planner.Outbox.Email.Finish.{
  counted, count_in, complete, is_done, refreshed, set_counts, final_status,
}
use open_city_planner.Outbox.Email.{
  Delivery, Campaign, sent, failed, skipped, cancelled, pending, processing, Status, status_eq,
  CampaignStatus, draft, scheduled, in_process, completed, withdrawn,
}
use open_city_planner.Base.{
  Bool, Time, count, List, Uuid, ◌+◌, ◌≡◌, ◌==◌, ◌∷◌, [], refl, arith, if◌then◌else◌, false, true,
  ◌&&◌, Bool-cases, inl, ◌∙◌, inr, ap,
}

one_status :
    (b : Bool) (s : Status)
    → (if b && status_eq s sent then 1 else 0)
        + (if b && status_eq s failed then 1 else 0)
        + ((if b && status_eq s skipped then 1 else 0)
            + (if b && status_eq s cancelled then 1 else 0))
        + ((if b && status_eq s pending then 1 else 0)
            + (if b && status_eq s processing then 1 else 0))
      ≡ (if b then 1 else 0)
one_status false s = refl
one_status true pending = refl
one_status true processing = refl
one_status true sent = refl
one_status true failed = refl
one_status true cancelled = refl
one_status true skipped = refl

pub count_statuses :
    (id : Uuid) (deliveries : List Delivery)
    → count_in id sent deliveries
        + count_in id failed deliveries
        + (count_in id skipped deliveries + count_in id cancelled deliveries)
        + (count_in id pending deliveries + count_in id processing deliveries)
      ≡ count (λ d. d.campaign_id == id) deliveries
unfolding count count_in
count_statuses id [] = refl
count_statuses id (d ∷ deliveries) =
    omega (arith, count_statuses id deliveries, one_status (d.campaign_id == id) d.status)

pub counted_open :
    (now : Time) (deliveries : List Delivery) (c : Campaign)
    → is_done c.id deliveries ≡ false
    → counted now deliveries c ≡ refreshed deliveries c
unfolding counted
counted_open now deliveries c h = rw (h, counted) refl

pub counted_done :
    (now : Time) (deliveries : List Delivery) (c : Campaign)
    → is_done c.id deliveries ≡ true
    → counted now deliveries c ≡ complete now (refreshed deliveries c)
unfolding counted
counted_done now deliveries c h = rw (h, counted) refl

final_status_again : (s : CampaignStatus) → final_status (final_status s) ≡ final_status s
final_status_again draft = refl
final_status_again scheduled = refl
final_status_again in_process = refl
final_status_again completed = refl
final_status_again withdrawn = refl

complete_again :
    (now later : Time) (deliveries : List Delivery) (c : Campaign)
    → complete later (refreshed deliveries (complete now (refreshed deliveries c)))
      ≡ complete now (refreshed deliveries c)
unfolding complete refreshed set_counts
complete_again now later deliveries c =
    ap (λ s. record (complete now (refreshed deliveries c)) { status = s })
      (final_status_again c.status)

-- counting again changes nothing
pub counted_idempotent :
    (now later : Time) (deliveries : List Delivery) (c : Campaign)
    → counted later deliveries (counted now deliveries c) ≡ counted now deliveries c
unfolding refreshed set_counts complete
counted_idempotent now later deliveries c = elim (Bool-cases (is_done c.id deliveries)) [
  | inl y ↦ rw (counted_done now deliveries c y) (
      counted_done later deliveries (complete now (refreshed deliveries c)) y
      ∙ complete_again now later deliveries c)
  | inr n ↦
      rw (counted_open now deliveries c n)
        (counted_open later deliveries (refreshed deliveries c) n)
]
