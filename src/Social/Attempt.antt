-- ===== src/Social/Attempt.antt =====
-- The body of the loop of `publish_due_events` in backend/app/services/social_publishing.py: from the claimed
-- row to its new state. The rendering, the browser and Mastodon are parameters.
use open_city_planner.Social.{
  Event, Publication, Raised, Settings, pending_approval, dry_run, published, Remote, cancelled,
  mastodon_error, Action, caught, screenshot_error, status_published, pending, failed,
  resource_gone, event_type_eq, publication_cancelled, publication_failed, other_error,
}
use open_city_planner.Base.{
  List, Time, Bool, ℕ, Option, Digest, Uuid, none, if◌then◌else◌, some, [], false, ◌&&◌, nth, ◌∷◌,
  find, true, Text, get_or, ◌==◌, min, ltb, ◌-◌, ◌+◌, length, not,
}

-- What a call returns or raises.
pub data Reply {ℓ} (A : Type ℓ) : Type ℓ where
  returned : A → Reply A
  raises : Raised → Reply A

-- The calls of one turn. `render` stands for the text's limit, `_event_context` and `fit_status`,
-- and returns the digest of the text; `target` stands for `screenshot_target`, and returns its alt
-- text; `upload_media` includes the reads of the description's limit and of the screenshot's file.
-- `accepts` says whether Mastodon has made the status although `create_status` raises, as after a
-- lost answer, and `ends` whether the rest of a turn, from its new row to its commit, raises nothing:
-- the removal of the file, the notifications and the commit. What follows the commit raises nothing.
pub record Services : Type 0 where
  pub render : Event → Reply Digest
  pub target : Event → Reply Text
  pub capture : Event → Reply ℕ
  pub upload_media : Event → Reply ℕ
  pub create_status : Event → Reply Remote
  pub accepts : Event → Bool
  pub ends : Event → Bool

-- The counters of the result that a turn adds to, or that an exception which no handler catches
-- has ended the job.
pub data Outcome : Type 0 where
  was_published was_retried was_failed was_dry_run was_prepared was_cancelled : Outcome
  was_interrupted : Outcome

abbrev pub is_interrupted : Outcome → Bool
is_interrupted was_interrupted = true
is_interrupted _ = false

-- What a turn leaves: the row, and what is added to the other tables and to the requests that
-- Mastodon has accepted. A repeated request has the same idempotency key.
pub record Result : Type 0 where
  pub outcome : Outcome
  pub event : Event
  pub publications : List Publication
  pub statuses : List Uuid
  pub actions : List Action

-- The row as the calls have changed it, and what was raised.
abbrev Progress : Type 0
Progress = Event × Option Raised

unfoldable pub take_screenshot : Services → Event → Progress
take_screenshot services e = elim e.screenshot_path [
  | some path ↦ (e, none)
  | none ↦ elim (services.capture e) [
    | raises r ↦ (e, some r)
    | returned path ↦ (record e { screenshot_path = some path }, none)
  ]
]

unfoldable pub aim : Services → Event → Progress
unfolding take_screenshot
aim services e = elim (services.target e) [
  | raises r ↦ (e, some r)
  | returned alt ↦
      take_screenshot services
        (record e { screenshot_alt_text = some (get_or e.screenshot_alt_text alt) })
]

unfoldable pub prepare : Services → Event → Progress
unfolding aim
prepare services e = elim (services.render e) [
  | raises r ↦ (e, some r)
  | returned digest ↦ aim services (record e { content_hash = some digest })
]

unfoldable pub is_same_content : Event → Publication → Bool
is_same_content e p = elim e.content_hash [
  | none ↦ false
  | some digest ↦
      p.content_hash == digest
      && (p.resource_id == e.resource_id && event_type_eq p.event_type e.event_type)
]

-- `last_error`, `processing_started_at` and the screenshot after the post
unfoldable pub tidy : Event → Event
tidy e = record e { last_error = none; processing_started_at = none; screenshot_path = none }

unfoldable pub keep_prepared : Event → Result
keep_prepared e = record {
  outcome = was_prepared;
  event = record e { status = pending_approval; processing_started_at = none; last_error = none };
  publications = [];
  statuses = [];
  actions = [];
}

unfoldable pub copy_duplicate : Publication → Event → Result
unfolding tidy
copy_duplicate p e = record {
  outcome = was_published;
  event = tidy (record e {
    status = published;
    published_at = some p.published_at;
    remote = p.remote;
    mastodon_media_id = p.remote_media_id;
  });
  publications = [];
  statuses = [];
  actions = [];
}

unfoldable pub publication : Time → Option Remote → Option ℕ → Bool → Event → Publication
publication now remote media dry e = record {
  outbox_event_id = e.id;
  event_type = e.event_type;
  resource_id = e.resource_id;
  content_hash = get_or e.content_hash 0;
  remote = remote;
  remote_media_id = media;
  is_dry_run = dry;
  published_at = now;
}

unfoldable pub finish_dry_run : Time → Event → Result
unfolding tidy publication
finish_dry_run now e = record {
  outcome = was_dry_run;
  event = tidy (record e { status = dry_run; is_dry_run = true; published_at = some now });
  publications = publication now none none true e ∷ [];
  statuses = [];
  actions = [];
}

unfoldable pub finish_post : Time → Remote → Event → Result
unfolding tidy publication
finish_post now remote e = record {
  outcome = was_published;
  event = tidy (record e { status = published; published_at = some now; remote = some remote });
  publications = publication now (some remote) e.mastodon_media_id false e ∷ [];
  statuses = e.id ∷ [];
  actions = status_published ∷ [];
}

-- `except PublicationResourceGone`
unfoldable pub give_up : Event → Result
give_up e = record {
  outcome = was_cancelled;
  event = record e {
    status = cancelled;
    processing_started_at = none;
    last_error = some (caught resource_gone);
    screenshot_path = none;
  };
  publications = [];
  statuses = [];
  actions = publication_cancelled ∷ [];
}

-- no handler: what is left is rolled back at the end
unfoldable pub escape : Event → Result
escape e = record {
  outcome = was_interrupted;
  event = e;
  publications = [];
  statuses = [];
  actions = [];
}

abbrev pub retry_delays : List ℕ
retry_delays = 60 ∷ 300 ∷ 900 ∷ 3600 ∷ []

abbrev pub is_retryable : Raised → Bool
is_retryable resource_gone = false
is_retryable other_error = false
is_retryable (mastodon_error retryable after) = retryable
is_retryable (screenshot_error retryable) = retryable

abbrev pub retry_after : Raised → Option ℕ
retry_after (mastodon_error retryable after) = after
retry_after _ = none

-- `retry_after or RETRY_DELAYS[min(attempt_count - 1, 3)]`; a zero is false
unfoldable pub retry_delay : Raised → ℕ → ℕ
retry_delay r attempts =
    let scheduled = nth retry_delays (min (attempts - 1) (length retry_delays - 1)) 0 in
    let after = get_or (retry_after r) 0 in if after == 0 then scheduled else after

unfoldable pub retry : Time → Raised → Event → Result
unfolding retry_delay
retry now r e = record {
  outcome = was_retried;
  event = record e {
    processing_started_at = none;
    last_error = some (caught r);
    status = if e.approval_required then pending_approval else pending;
    next_attempt_at = now + retry_delay r e.attempt_count;
  };
  publications = [];
  statuses = [];
  actions = [];
}

unfoldable pub fail : Raised → Event → Result
fail r e = record {
  outcome = was_failed;
  event = record e { processing_started_at = none; last_error = some (caught r); status = failed };
  publications = [];
  statuses = [];
  actions = publication_failed ∷ [];
}

-- the two handlers
unfoldable pub handle : Settings → Time → Raised → Event → Result
unfolding give_up retry fail escape
handle settings now resource_gone e = give_up e
handle settings now other_error e = escape e
handle settings now r e =
    if is_retryable r && ltb e.attempt_count settings.mastodon_max_attempts
    then retry now r e
    else fail r e

-- a status that was made although the call has raised
unfoldable pub keep_status : Bool → Uuid → Result → Result
keep_status accepted id r = if accepted then record r { statuses = id ∷ [] } else r

-- the rollback to the claimed row
unfoldable pub interrupt : Event → Result → Result
interrupt claimed r = record r {
  outcome = was_interrupted;
  event = claimed;
  publications = [];
  actions = [];
}

unfoldable pub end_turn : Bool → Event → Result → Result
unfolding interrupt
end_turn ends claimed r = if ends && not (is_interrupted r.outcome) then r else interrupt claimed r

module _ (settings : Settings) (services : Services) (now : Time) where
  unfoldable pub post : Event → Result
  unfolding handle finish_post keep_status
  post e = elim (services.create_status e) [
    | raises r ↦ keep_status (services.accepts e) e.id (handle settings now r e)
    | returned remote ↦ finish_post now remote e
  ]

  unfoldable pub post_with_media : Event → Result
  unfolding post
  post_with_media e = elim e.mastodon_media_id [
    | some media ↦ post e
    | none ↦ elim (services.upload_media e) [
      | raises r ↦ handle settings now r e
      | returned media ↦ post (record e { mastodon_media_id = some media })
    ]
  ]

  -- from the query for a duplicate on
  unfoldable pub publish : Bool → List Publication → Event → Result
  unfolding copy_duplicate finish_dry_run post_with_media is_same_content
  publish dry publications e = elim (find (is_same_content e) publications) [
    | some p ↦ copy_duplicate p e
    | none ↦ if dry then finish_dry_run now e else post_with_media e
  ]

  -- the `try` statement, up to the commit
  unfoldable pub try_turn : Bool → List Publication → Event → Result
  unfolding publish keep_prepared handle prepare
  try_turn dry publications e =
      let (e', error) = prepare services e in
      elim error [
        | some r ↦ handle settings now r e'
        | none ↦ if e.approval_required then keep_prepared e' else publish dry publications e'
      ]

  -- the turn of the claimed row
  unfoldable pub attempt : Bool → List Publication → Event → Result
  unfolding try_turn end_turn
  attempt dry publications e =
      let r = try_turn dry publications e in end_turn (services.ends r.event) e r
