-- ===== src/Social/Examples.antt =====
-- The theorems on the publishing at two posts: one whose approval is outstanding and a published one.
use open_city_planner.Social.{
  Db, Event, Policy, Settings, Status, published, area_created, pending_approval, manual,
  analysis_area, polygon_adopted_from_osm, processing, mastodon_error, dry_run, other_error,
}
use open_city_planner.Social.Publish.{publish_due_events, Totals}
use open_city_planner.Base.{
  All, Bool, Uuid, count, find, length, codes, is_space, ◌∷◌, ◌==◌, true, false, ◌≡◌, ◌++◌, refl,
  ◌≤◌, [], some, ◌+◌, arith, ◌≢◌, none, filter, ◌⊎◌,
}
use open_city_planner.Social.Evolves.{Evolves}
use open_city_planner.Social.Attempt.{Services, returned, raises, attempt}
use open_city_planner.Social.Posts.{fit_status, safe_label, is_markup}
use open_city_planner.Social.Fits.{fit_status_fits}
use open_city_planner.Social.Labels.{safe_label_is_plain}
use open_city_planner.Social.Attempt.{was_interrupted, is_interrupted, try_turn}
use open_city_planner.Social.Outcomes.{IsInterrupted, IsDone, brief, attempt_outcome}
use open_city_planner.Social.Reach.{
  Reach, next, outbox_follows_diagram, final_rows_stay, publish_due, approval_gates_publication,
  init,
}
use open_city_planner.Social.Enqueue.{is_adoption, no_fields}
use open_city_planner.Social.Totalled.{may_have_sent, counted, publish_totals}
use open_city_planner.Social.Keyed.{IsKeyed}

abbrev live : Settings
live = record {
  mastodon_enabled = true;
  mastodon_dry_run = false;
  mastodon_has_token = true;
  mastodon_max_attempts = 5;
}

abbrev reviewed : Policy
reviewed = record {
  enabled = true;
  approval_mode = manual;
  debounce_seconds = 300;
  enabled_events = area_created ∷ polygon_adopted_from_osm ∷ [];
}

abbrev row : Uuid → Uuid → Bool → Status → Event
row id area flag status = record {
  id = id;
  event_type = area_created;
  resource_type = analysis_area;
  resource_id = area;
  approval_required = flag;
  changed_fields = no_fields;
  changed_rows = 0;
  approved_by_user_id = none;
  status = status;
  attempt_count = 0;
  next_attempt_at = 100;
  processing_started_at = none;
  published_at = none;
  last_error = none;
  remote = none;
  mastodon_media_id = none;
  screenshot_path = none;
  screenshot_alt_text = none;
  content_hash = none;
  is_dry_run = false;
  created_at = 50;
}

abbrev draft : Event
draft = row 1 10 true pending_approval

abbrev done_row : Event
done_row = row 2 20 false published

abbrev outbox : Db
outbox = record { events = draft ∷ done_row ∷ []; publications = []; statuses = []; audit = [] }

-- every call succeeds
abbrev working : Services
working = record {
  render = λ e. returned 77;
  target = λ e. returned [];
  capture = λ e. returned 5;
  upload_media = λ e. returned 6;
  create_status = λ e. returned (record { id = 8; url = 9 });
  accepts = λ e. false;
  ends = λ e. true;
}

-- Mastodon makes the status, but its answer is lost
abbrev refusing : Services
refusing = record {
  render = λ e. returned 77;
  target = λ e. returned [];
  capture = λ e. returned 5;
  upload_media = λ e. returned 6;
  create_status = λ e. raises (mastodon_error true none);
  accepts = λ e. true;
  ends = λ e. true;
}

outbox-IsKeyed : IsKeyed outbox.events
unfolding count is_adoption
outbox-IsKeyed = ((λ id. ground arith), (λ polygon. ground arith))

abbrev published_outbox : Db
unfolding publish_due_events
published_outbox = (publish_due_events live reviewed (λ n. working) (λ n. 200) outbox 150 3).1

-- the job runs once
one_run : (m : Bool) → Reach m outbox published_outbox
unfolding published_outbox
one_run m = next init (publish_due live reviewed (λ n. working) (λ n. 200) 150 3)

outbox_follows_diagram_example :
    Evolves true outbox.events published_outbox.events × IsKeyed published_outbox.events
outbox_follows_diagram_example =
    outbox_follows_diagram true outbox published_outbox outbox-IsKeyed (one_run true)

approval_gates_publication_example :
    (e' : Event) × (find (λ x. x.id == 1) published_outbox.events ≡ some e')
    × (e'.approval_required ≡ true)
    × (e'.status ≢ published)
    × (e'.status ≢ dry_run)
unfolding find
approval_gates_publication_example =
    approval_gates_publication outbox published_outbox 1 draft outbox-IsKeyed (one_run false) refl
      refl (λ h. absurd (ground arith)) (λ h. absurd (ground arith))

final_rows_stay_example :
    (e' : Event) × (find (λ x. x.id == 2) published_outbox.events ≡ some e')
    × (e'.status ≡ done_row.status)
unfolding find
final_rows_stay_example =
    final_rows_stay outbox published_outbox 2 done_row outbox-IsKeyed (one_run true) refl refl

attempt_outcome_example :
    let e = row 3 30 false processing in
    let r = attempt live refusing 200 false [] e in
    ((is_interrupted r.outcome ≡ false) × IsDone refusing live false 200 (brief e) r)
    ⊎ IsInterrupted refusing false e (try_turn live refusing 200 false [] e) r
attempt_outcome_example = attempt_outcome live false 200 refusing [] (row 3 30 false processing)

-- The missing file of a screenshot ends the job, and the row stays in processing.
abbrev unreadable : Services
unreadable = record working { upload_media = λ e. raises other_error }

interrupted_run :
    let r = attempt live unreadable 200 false [] (row 3 30 false processing) in
    (r.outcome ≡ was_interrupted) × (r.event ≡ row 3 30 false processing)
unfolding attempt find
interrupted_run = (refl, refl)

publish_totals_example :
    let (r, db') = publish_due_events live reviewed (λ n. working) (λ n. 200) outbox 150 3 in
    (length db'.statuses ≤ length outbox.statuses + 3)
    × ((r ≡ none)
        ⊎ ((t : Totals) × (r ≡ some t)
            × (t.processed ≡ counted t)
            × (t.processed ≤ 3)
            × (length db'.statuses ≤ length outbox.statuses + may_have_sent t)))
publish_totals_example = publish_totals live reviewed (λ n. working) (λ n. 200) outbox 150 3

fit_status_fits_example :
    (length (fit_status (codes "Stadtplaner") 5) ≤ 5)
    × (length (codes "Stadtplaner") ≤ 5 → fit_status (codes "Stadtplaner") 5 ≡ codes "Stadtplaner")
fit_status_fits_example = fit_status_fits (codes "Stadtplaner") 5 (omega arith)

safe_label_is_plain_example :
    All (λ c. is_markup c ≡ false) (safe_label (codes "@admin #1"))
    × (1 ≤ length (safe_label (codes "@admin #1")))
    × (length (safe_label (codes "@admin #1")) ≤ 160)
safe_label_is_plain_example = safe_label_is_plain (codes "@admin #1")

-- The label, and a text that is cut.
safe_label_run : safe_label (codes "@admin   <b> #1 ") ≡ codes "admin b 1"
unfolding safe_label is_space filter
safe_label_run = refl

fit_status_run : fit_status (codes "Stadt planer") 7 ≡ codes "Stadt" ++ 8230 ∷ []
unfolding fit_status is_space
fit_status_run = refl
