-- ===== src/Social/Outcomes.antt =====
-- What a turn of the publishing job leads to, on every path.
use open_city_planner.Social.Attempt.{
  Result, retry_delay, handle, Outcome, retry, fail, give_up, is_retryable, was_prepared,
  was_retried, was_failed, was_cancelled, was_dry_run, was_published, Services, retry_delays, post,
  post_with_media, finish_post, tidy, attempt, keep_prepared, publish, copy_duplicate,
  finish_dry_run, prepare, is_same_content, aim, take_screenshot, end_turn, was_interrupted,
  try_turn, keep_status, is_interrupted, raises, escape, interrupt, returned,
}
use open_city_planner.Social.{
  Settings, Raised, Event, pending_approval, pending, failed, cancelled, resource_gone, dry_run,
  published, Publication, other_error,
}
use open_city_planner.Base.{
  Bool, ◌≡◌, Time, [], ℕ, ◌≤◌, none, true, if◌then◌else◌, if_cases, ◌&&◌, ◌<◌, ltb, arith, false,
  ◌⊎◌, ◌∷◌, refl, nth, min, ◌-◌, Option-cases, inr, inl, Uuid, List, find, ap, subst, ◌∙◌, some,
  Option, not, get_or, Bool-cases,
}
use open_city_planner.Social.Moves.{Reply-cases, core, core-prepare}

-- A call has raised an exception that no handler catches.
abbrev pub HasEscaped : Services → Type 0
HasEscaped services =
    (e : Event) × ((services.render e ≡ raises other_error)
      ⊎ (services.target e ≡ raises other_error)
      ⊎ (services.capture e ≡ raises other_error)
      ⊎ (services.upload_media e ≡ raises other_error)
      ⊎ (services.create_status e ≡ raises other_error))

-- Mastodon has accepted no request, or one for the row, whose approval is not outstanding, outside
-- a dry run.
abbrev pub IsSent : Bool → Uuid → Bool → List Uuid → Type 0
IsSent dry id flag statuses =
    (statuses ≡ []) ⊎ ((statuses ≡ id ∷ []) × (flag ≡ false) × (dry ≡ false))

-- Nothing was recorded or sent to Mastodon.
abbrev IsQuiet : Result → Type 0
IsQuiet r = (r.publications ≡ []) × (r.statuses ≡ [])

abbrev IsStopped : Result → Type 0
IsStopped r = r.event.processing_started_at ≡ none

-- What the counter that a turn adds to tells of it.
abbrev pub IsTold : Services → Settings → Bool → Time → Uuid → Bool → ℕ → Result → Outcome → Type 0
IsTold services settings dry now id flag attempts r was_prepared =
    IsStopped r × (r.event.status ≡ pending_approval) × (flag ≡ true) × IsQuiet r
IsTold services settings dry now id flag attempts r was_retried =
    IsStopped r
    × (r.publications ≡ [])
    × IsSent dry id flag r.statuses
    × (r.event.status ≡ (if flag then pending_approval else pending))
    × (attempts < settings.mastodon_max_attempts)
    × (now < r.event.next_attempt_at)
IsTold services settings dry now id flag attempts r was_failed =
    IsStopped r × (r.publications ≡ []) × IsSent dry id flag r.statuses × (r.event.status ≡ failed)
IsTold services settings dry now id flag attempts r was_cancelled =
    IsStopped r
    × (r.publications ≡ [])
    × IsSent dry id flag r.statuses
    × (r.event.status ≡ cancelled)
IsTold services settings dry now id flag attempts r was_dry_run =
    IsStopped r × (r.event.status ≡ dry_run) × (flag ≡ false) × (dry ≡ true) × (r.statuses ≡ [])
IsTold services settings dry now id flag attempts r was_published =
    IsStopped r × (r.event.status ≡ published) × (flag ≡ false) × IsSent dry id flag r.statuses
IsTold services settings dry now id flag attempts r was_interrupted =
    IsSent dry id flag r.statuses × HasEscaped services

-- The row's identity, flag and attempts, and the result.
abbrev pub IsDone : Services → Settings → Bool → Time → Uuid × Bool × ℕ → Result → Type 0
IsDone services settings dry now (id, flag, attempts) r =
    (r.event.attempt_count ≡ attempts)
    × IsTold services settings dry now id flag attempts r r.outcome

-- The turn was ended by an exception that no handler catches: the row is as it was claimed, and
-- nothing is recorded.
abbrev pub IsInterrupted : Services → Bool → Event → Result → Result → Type 0
IsInterrupted services dry e tried r =
    (r.outcome ≡ was_interrupted)
    × (r.event ≡ e)
    × (r.publications ≡ [])
    × (r.actions ≡ [])
    × IsSent dry e.id e.approval_required r.statuses
    × ((services.ends tried.event ≡ false) ⊎ HasEscaped services)

abbrev pub brief : Event → Uuid × Bool × ℕ
brief e = (e.id, e.approval_required, e.attempt_count)

delays_pos : (i : ℕ) → i ≤ 3 → 1 ≤ nth retry_delays i 0
delays_pos i h = ground arith

delay_pos : (r : Raised) (attempts : ℕ) → 1 ≤ retry_delay r attempts
unfolding retry_delay
delay_pos r attempts = ground (arith, delays_pos (min (attempts - 1) 3))

-- the exceptions of the calls before the post
screenshot-escapes :
    (services : Services) (e : Event)
    → (take_screenshot services e).1 ≡ some other_error
    → HasEscaped services
unfolding take_screenshot
screenshot-escapes services e h = elim (Option-cases e.screenshot_path) [
  | inr (path, k) ↦ absurd (ground arith)
  | inl k ↦ elim (Reply-cases (services.capture e)) [
    | inl (path, q) ↦ absurd (ground arith)
    | inr (r, q) ↦
        let same : r ≡ other_error = ground arith in
        (e, inr (inr (inl (q ∙ ap (λ x. raises x) same))))
  ]
]

aim-escapes :
    (services : Services) (e : Event) → (aim services e).1 ≡ some other_error → HasEscaped services
unfolding aim
aim-escapes services e h = elim (Reply-cases (services.target e)) [
  | inl (alt, q) ↦
      screenshot-escapes services
        (record e { screenshot_alt_text = some (get_or e.screenshot_alt_text alt) })
        (subst
          (λ x.
            (elim x as (λ _. Event × Option Raised) [
              | raises r ↦ (e, some r)
              | returned a ↦
                  take_screenshot services
                    (record e { screenshot_alt_text = some (get_or e.screenshot_alt_text a) })
            ]).1
            ≡ some other_error)
          q h)
  | inr (r, q) ↦
      let same : r ≡ other_error = ground arith in (e, inr (inl (q ∙ ap (λ x. raises x) same)))
]

prepare-escapes :
    (services : Services) (e : Event)
    → (prepare services e).1 ≡ some other_error
    → HasEscaped services
unfolding prepare
prepare-escapes services e h = elim (Reply-cases (services.render e)) [
  | inl (digest, q) ↦
      aim-escapes services (record e { content_hash = some digest })
        (subst
          (λ x.
            (elim x as (λ _. Event × Option Raised) [
              | raises r ↦ (e, some r)
              | returned d ↦ aim services (record e { content_hash = some d })
            ]).1
            ≡ some other_error)
          q h)
  | inr (r, q) ↦ let same : r ≡ other_error = ground arith in (e, inl (q ∙ ap (λ x. raises x) same))
]

module _ (settings : Settings) (dry : Bool) (now : Time) (services : Services) where
  -- What a turn gives for a row up to its commit.
  abbrev IsRight : Event → Result → Type 0
  IsRight e r = IsDone services settings dry now (brief e) r

  handle-IsDone :
      (r : Raised) (e : Event)
      → (r ≡ other_error → HasEscaped services)
      → IsRight e (handle settings now r e) × ((handle settings now r e).statuses ≡ [])
  unfolding handle retry fail give_up escape
  handle-IsDone resource_gone e why = ((refl, (refl, refl, inl refl, refl)), refl)
  handle-IsDone other_error e why = ((refl, (inl refl, why refl)), refl)
  handle-IsDone r e why =
      if_cases (λ (x : Result). IsRight e x × (x.statuses ≡ []))
        (is_retryable r && ltb e.attempt_count settings.mastodon_max_attempts) (retry now r e)
        (fail r e)
        (λ h. (
          (
            refl,
            (refl, refl, inl refl, refl, ground arith, omega (arith, delay_pos r e.attempt_count)),
          ),
          refl,
        ))
        (λ h. ((refl, (refl, refl, inl refl, refl)), refl))

  status-IsDone :
      (r : Raised) (e : Event)
      → e.approval_required ≡ false
      → dry ≡ false
      → (r ≡ other_error → HasEscaped services)
      → IsRight e (record (handle settings now r e) { statuses = e.id ∷ [] })
  unfolding handle retry fail give_up escape
  status-IsDone resource_gone e f d why = (refl, (refl, refl, inr (refl, f, d), refl))
  status-IsDone other_error e f d why = (refl, (inr (refl, f, d), why refl))
  status-IsDone r e f d why =
      if_cases (λ (x : Result). IsRight e (record x { statuses = e.id ∷ [] }))
        (is_retryable r && ltb e.attempt_count settings.mastodon_max_attempts) (retry now r e)
        (fail r e)
        (λ h. (
          refl,
          (
            refl,
            refl,
            inr (refl, f, d),
            refl,
            ground arith,
            omega (arith, delay_pos r e.attempt_count),
          ),
        ))
        (λ h. (refl, (refl, refl, inr (refl, f, d), refl)))

  -- a handled error, after which Mastodon may have made the status
  sent-IsDone :
      (r : Raised) (e : Event)
      → e.approval_required ≡ false
      → dry ≡ false
      → (r ≡ other_error → HasEscaped services)
      → IsRight e (keep_status (services.accepts e) e.id (handle settings now r e))
  unfolding keep_status
  sent-IsDone r e f d why =
      if_cases (λ (x : Result). IsRight e x) (services.accepts e)
        (record (handle settings now r e) { statuses = e.id ∷ [] }) (handle settings now r e)
        (λ h. status-IsDone r e f d why) (λ h. (handle-IsDone r e why).0)

  post-IsDone :
      (e : Event)
      → e.approval_required ≡ false
      → dry ≡ false
      → IsRight e (post settings services now e)
  unfolding post finish_post tidy
  post-IsDone e f d = elim (Reply-cases (services.create_status e)) [
    | inl (remote, h) ↦ rw (h, post) (refl, (refl, refl, f, inr (refl, f, d)))
    | inr (r, h) ↦
        rw (h, post)
          (sent-IsDone r e f d (λ k. (e, inr (inr (inr (inr (h ∙ ap (λ x. raises x) k)))))))
  ]

  post_with_media-IsDone :
      (e : Event)
      → e.approval_required ≡ false
      → dry ≡ false
      → IsRight e (post_with_media settings services now e)
  unfolding post_with_media
  post_with_media-IsDone e f d = elim (Option-cases e.mastodon_media_id) [
    | inr (media, k) ↦ rw (k, post_with_media) (post-IsDone e f d)
    | inl k ↦ elim (Reply-cases (services.upload_media e)) [
      | inl (media, h) ↦ rw (k, h, post_with_media) (post-IsDone _ f d)
      | inr (r, h) ↦
          rw (k, h, post_with_media)
            (handle-IsDone r e (λ q. (e, inr (inr (inr (inl (h ∙ ap (λ x. raises x) q))))))).0
    ]
  ]

  publish-IsDone :
      (publications : List Publication) (e : Event)
      → e.approval_required ≡ false
      → IsRight e (publish settings services now dry publications e)
  unfolding publish copy_duplicate finish_dry_run tidy
  publish-IsDone publications e f = elim (Option-cases (find (is_same_content e) publications)) [
    | inr (p, k) ↦ rw (k, publish) (refl, (refl, refl, f, inl refl))
    | inl k ↦
        rw (k, publish)
          (if_cases (λ (x : Result). IsRight e x) dry (finish_dry_run now e)
            (post_with_media settings services now e) (λ h. (refl, (refl, refl, f, h, refl)))
            (λ h. post_with_media-IsDone e f h))
  ]

  keep_prepared-IsDone : (e : Event) → e.approval_required ≡ true → IsRight e (keep_prepared e)
  unfolding keep_prepared
  keep_prepared-IsDone e f = (refl, (refl, refl, f, (refl, refl)))

  try_turn-IsDone :
      (publications : List Publication) (e : Event)
      → IsRight e (try_turn settings services now dry publications e)
  unfolding try_turn
  try_turn-IsDone publications e =
      let e' : Event = (prepare services e).0 in
      let kept : core e' ≡ core e = core-prepare services e in
      let same : brief e' ≡ brief e = ap (λ c. (c.0, c.2, c.5)) kept in
      elim (Option-cases (prepare services e).1) [
        | inr (r, k) ↦
            rw (k, try_turn)
              (subst (λ c. IsDone services settings dry now c (handle settings now r e')) same
                (handle-IsDone r e' (λ q. prepare-escapes services e (k ∙ ap (λ x. some x) q))).0)
        | inl k ↦
            rw (k, try_turn)
              (if_cases (λ (x : Result). IsRight e x) e.approval_required (keep_prepared e')
                (publish settings services now dry publications e')
                (λ h.
                  subst (λ c. IsDone services settings dry now c (keep_prepared e')) same
                    (keep_prepared-IsDone e' (ap (λ c. c.2) kept ∙ h)))
                (λ h.
                  subst
                    (λ c.
                      IsDone services settings dry now c
                        (publish settings services now dry publications e'))
                    same (publish-IsDone publications e' (ap (λ c. c.2) kept ∙ h))))
      ]

  told-IsSent :
      (id : Uuid) (flag : Bool) (attempts : ℕ) (r : Result) (o : Outcome)
      → IsTold services settings dry now id flag attempts r o
      → IsSent dry id flag r.statuses
  told-IsSent id flag attempts r was_prepared h = inl h.3.1
  told-IsSent id flag attempts r was_retried h = h.2
  told-IsSent id flag attempts r was_failed h = h.2
  told-IsSent id flag attempts r was_cancelled h = h.2
  told-IsSent id flag attempts r was_dry_run h = inl h.4
  told-IsSent id flag attempts r was_published h = h.3
  told-IsSent id flag attempts r was_interrupted h = h.0

  told_escape :
      (id : Uuid) (flag : Bool) (attempts : ℕ) (r : Result) (o : Outcome)
      → is_interrupted o ≡ true
      → IsTold services settings dry now id flag attempts r o
      → HasEscaped services
  told_escape id flag attempts r was_interrupted k h = h.1
  told_escape id flag attempts r was_prepared k h = absurd (ground arith)
  told_escape id flag attempts r was_retried k h = absurd (ground arith)
  told_escape id flag attempts r was_failed k h = absurd (ground arith)
  told_escape id flag attempts r was_cancelled k h = absurd (ground arith)
  told_escape id flag attempts r was_dry_run k h = absurd (ground arith)
  told_escape id flag attempts r was_published k h = absurd (ground arith)

  -- A turn ends in one of two ways. Either it comes to its commit: it keeps the number of attempts
  -- that the claim has made and leaves no row in processing. A row whose approval is outstanding is
  -- prepared, or fails, is retried or cancelled; only a row without one is published or rehearsed.
  -- It is retried only with fewer attempts than the bound, and later than now. Or an exception that
  -- no handler catches, of a call or at the turn's end, leaves the row in processing, as it was
  -- claimed, and records nothing. In both cases Mastodon has accepted at most one request, and none
  -- in a dry run or for a row whose approval is outstanding; it may have accepted one without a
  -- publication being recorded if the answer was lost, or if the turn has not come to its commit.
  pub attempt_outcome :
      (publications : List Publication) (e : Event)
      → let r = attempt settings services now dry publications e in
        ((is_interrupted r.outcome ≡ false) × IsDone services settings dry now (brief e) r)
        ⊎ IsInterrupted services dry e (try_turn settings services now dry publications e) r
  unfolding attempt end_turn interrupt
  attempt_outcome publications e =
      let r : Result = try_turn settings services now dry publications e in
      let right = try_turn-IsDone publications e in
      if_cases
        (λ (x : Result).
          ((is_interrupted x.outcome ≡ false) × IsDone services settings dry now (brief e) x)
          ⊎ IsInterrupted services dry e r x)
        (services.ends r.event && not (is_interrupted r.outcome)) r (interrupt e r)
        (λ h. inl (ground arith, right))
        (λ h. inr (
          refl,
          refl,
          refl,
          refl,
          told-IsSent e.id e.approval_required e.attempt_count r r.outcome right.1,
          elim (Bool-cases (services.ends r.event)) [
            | inr n ↦ inl n
            | inl y ↦ inr (
                told_escape e.id e.approval_required e.attempt_count r r.outcome (ground arith)
                  right.1)
          ],
        ))
