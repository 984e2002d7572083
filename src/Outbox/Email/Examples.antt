-- ===== src/Outbox/Email/Examples.antt =====
-- The theorems on the outbox at two queued mails, one of them of a campaign.
use open_city_planner.Outbox.Email.{
  Campaign, Db, Delivery, DeliveryType, Recipient, find_campaign, sent, Event, welcome, in_process,
  pending, SendError, processing, os_error, completed, failed, skipped, cancelled,
}
use open_city_planner.Outbox.Email.Finish.{finish_event, refresh_campaign_counts, count_in, is_done}
use open_city_planner.Outbox.Email.Claim.{claim_event, is_due, start_event}
use open_city_planner.Outbox.Email.Process.{process_due_email_outbox}
use open_city_planner.Outbox.Email.Welcome.{welcomes}
use open_city_planner.Outbox.Email.Counts.{refresh_campaign_counts_exact}
use open_city_planner.Outbox.Email.Once.{Reach-welcomes, Reach, start}
use open_city_planner.Outbox.Email.Order.{IsFirstDue, claim_event_exact}
use open_city_planner.Outbox.Email.Totals.{process_due_email_outbox_totals}
use open_city_planner.Outbox.Email.Retries.{IsSettled, finish_event_settles}
use open_city_planner.Base.{
  count, Uuid, ◌∷◌, Time, true, some, none, ◌≡◌, find, refl, ◌≤◌, All, Option, [], ◌+◌, false, ◌⊎◌,
  ◌==◌, ℕ, update, ◌≢◌,
}

abbrev bob : Recipient
bob = record { id = 1; is_verified = true; welcome_email_sent_at = none }

abbrev queued : Uuid → Time → Event
queued id at = record {
  id = id;
  template_is_welcome = true;
  delivery_type = some welcome;
  user_id = some 1;
  campaign_id = none;
  campaign_delivery_id = none;
  notification_id = none;
  status = pending;
  attempt_count = 0;
  last_error = none;
  created_at = at;
  scheduled_at = at;
  processing_started_at = none;
  sent_at = none;
}

abbrev part : Delivery
part = record {
  id = 70;
  campaign_id = 7;
  status = sent;
  attempt_count = 1;
  processing_started_at = none;
  sent_at = some 90;
  last_error = none;
}

abbrev campaign : Campaign
campaign = record {
  id = 7;
  status = in_process;
  started_at = some 80;
  completed_at = none;
  recipient_count = 1;
  sent_count = 0;
  failed_count = 0;
  skipped_count = 0;
}

abbrev outbox : Db
outbox = record {
  events = queued 11 100 ∷ queued 12 50 ∷ [];
  users = bob ∷ [];
  deliveries = part ∷ [];
  campaigns = campaign ∷ [];
  notifications = [];
  audit = [];
  mails = [];
}

-- every delivery fails at first
abbrev fails : DeliveryType → Event → Recipient → Option SendError
fails kind e u = some os_error

abbrev delivers : DeliveryType → Event → Recipient → Option SendError
delivers kind e u = none

claim_event_exact_example :
    ((claim_event outbox 200 none ≡ (none, outbox))
      × All (λ e. is_due 200 none e ≡ false) outbox.events)
    ⊎ ((f : Event) × IsFirstDue 200 none outbox.events f
        × ((claim_event outbox 200 none).0 ≡ some (start_event 200 f))
        × ((claim_event outbox 200 none).1.events
            ≡ update (λ e. e.id == f.id) (λ _. start_event 200 f) outbox.events))
claim_event_exact_example = claim_event_exact outbox 200 none

abbrev claimed : Db
claimed = (claim_event outbox 200 none).1

finish_event_settles_example :
    ((finish_event fails 8 claimed 200 12 ≡ (false, claimed))
      × ((find (λ x. x.id == 12) claimed.events ≡ none)
          ⊎ ((e : Event) × (find (λ x. x.id == 12) claimed.events ≡ some e)
              × (e.status ≢ processing))))
    ⊎ ((e : Event) × (e' : Event) × (find (λ x. x.id == 12) claimed.events ≡ some e)
        × (e.status ≡ processing)
        × (find (λ x. x.id == 12) (finish_event fails 8 claimed 200 12).1.events ≡ some e')
        × IsSettled 8 200 e (finish_event fails 8 claimed 200 12).0 e')
finish_event_settles_example = finish_event_settles fails 8 200 claimed 12

process_due_email_outbox_totals_example :
    let r = process_due_email_outbox delivers 8 (λ turn. 200) outbox 200 5 in
    (r.0.processed ≡ r.0.sent + r.0.failed)
    × (r.0.processed ≤ 5)
    × ((r.0.processed ≡ 5)
        ⊎ ((turn : ℕ) × (turn + 1 + r.0.processed ≡ 5)
            × All (λ e. is_due 200 none e ≡ false) r.1.events))
process_due_email_outbox_totals_example =
    process_due_email_outbox_totals delivers 8 (λ turn. 200) outbox 200 5

abbrev delivered : Db
delivered = (process_due_email_outbox delivers 8 (λ turn. 200) outbox 200 5).1

Reach-welcomes_example : count (welcomes 1) delivered.mails ≤ 1
Reach-welcomes_example =
    Reach-welcomes delivered
      (Reach.processed delivers 8 (λ turn. 200) outbox 200 5 (start outbox refl)) 1

found_campaign : find_campaign outbox (some 7) ≡ some campaign
unfolding find_campaign find
found_campaign = refl

refresh_campaign_counts_exact_example :
    (c' : Campaign) × (find_campaign (refresh_campaign_counts 200 (some 7) outbox) (some 7)
      ≡ some c')
    × (c'.sent_count ≡ count_in 7 sent outbox.deliveries)
    × (c'.failed_count ≡ count_in 7 failed outbox.deliveries)
    × (c'.skipped_count
        ≡ count_in 7 skipped outbox.deliveries + count_in 7 cancelled outbox.deliveries)
    × (c'.sent_count
          + c'.failed_count
          + c'.skipped_count
          + (count_in 7 pending outbox.deliveries + count_in 7 processing outbox.deliveries)
        ≡ count (λ d. d.campaign_id == 7) outbox.deliveries)
    × (((is_done 7 outbox.deliveries ≡ true)
          × (c'.status ≡ completed)
          × (c'.completed_at ≡ some 200))
        ⊎ ((is_done 7 outbox.deliveries ≡ false)
            × (c'.status ≡ in_process)
            × (c'.completed_at ≡ none)))
refresh_campaign_counts_exact_example =
    refresh_campaign_counts_exact 200 7 outbox campaign found_campaign
