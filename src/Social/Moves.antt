-- ===== src/Social/Moves.antt =====
-- The body of the loop of `publish_due_events` moves its row along one edge of the diagram.
use open_city_planner.Social.Attempt.{
  aim, prepare, take_screenshot, Services, raises, handle, returned, retry, fail, give_up, Reply,
  Result, is_retryable, attempt, post, post_with_media, publish, copy_duplicate, finish_post, tidy,
  finish_dry_run, is_same_content, keep_prepared, keep_status, escape, end_turn, try_turn,
  is_interrupted, interrupt,
}
use open_city_planner.Social.{
  Event, Settings, Status, processing, Raised, pending_approval, pending, resource_gone,
  Publication, EventType, other_error,
}
use open_city_planner.Base.{
  Bool, Uuid, Time, ◌≡◌, arith, refl, inl, if◌then◌else◌, ◌⊎◌, inr, if_cases, ◌&&◌, true, ltb,
  false, List, Option-cases, find, ◌∙◌, ap, subst, sym, ℕ, ◌∷◌, [], not,
}
use open_city_planner.Social.Diagram.{
  Edge, phase, at, works, put_back_draft, put_back, discard, lose, announce, rehearse, Route,
  one_edge, here,
}

-- what the calls before the post leave alone
abbrev pub core : Event → Uuid × Status × Bool × EventType × Uuid × ℕ
core e = (e.id, e.status, e.approval_required, e.event_type, e.resource_id, e.attempt_count)

abbrev pub subject : Event → Uuid × EventType × Uuid
subject e = (e.id, e.event_type, e.resource_id)

core-take_screenshot :
    (services : Services) (e : Event) → core (take_screenshot services e).0 ≡ core e
unfolding take_screenshot
core-take_screenshot services e = ground arith

pub Reply-cases {ℓ} :
    {A : Type ℓ} (reply : Reply A)
    → ((a : A) × (reply ≡ returned a)) ⊎ ((r : Raised) × (reply ≡ raises r))
Reply-cases (returned a) = inl (a, refl)
Reply-cases (raises r) = inr (r, refl)

core-aim : (services : Services) (e : Event) → core (aim services e).0 ≡ core e
unfolding aim
core-aim services e = elim (Reply-cases (services.target e)) [
  | inl (alt, h) ↦ rw (h, aim) (core-take_screenshot services _)
  | inr (r, h) ↦ rw (h, aim) refl
]

pub core-prepare : (services : Services) (e : Event) → core (prepare services e).0 ≡ core e
unfolding prepare
core-prepare services e = elim (Reply-cases (services.render e)) [
  | inl (digest, h) ↦ rw (h, prepare) (core-aim services _)
  | inr (r, h) ↦ rw (h, prepare) refl
]

-- The row keeps its subject, and moves along an edge from `processing`.
abbrev pub IsMove : Bool → Event → Event → Type 0
IsMove m e e' = (subject e' ≡ subject e) × Edge m (at processing e.approval_required) (phase e')

module _ (m : Bool) where
  pub edge_back :
      (b : Bool) → Edge m (at processing b) (at (if b then pending_approval else pending) b)
  edge_back true = put_back_draft
  edge_back false = put_back

  -- A turn that no exception has ended moves its row.
  abbrev IsTurn : Event → Result → Type 0
  IsTurn e r = (is_interrupted r.outcome ≡ true) ⊎ IsMove m e r.event

  handle-IsTurn :
      (settings : Settings) (now : Time) (r : Raised) (e : Event)
      → IsTurn e (handle settings now r e)
  unfolding handle retry fail give_up escape
  handle-IsTurn settings now resource_gone e = inr (refl, discard works)
  handle-IsTurn settings now other_error e = inl refl
  handle-IsTurn settings now r e =
      if_cases (λ (x : Result). IsTurn e x)
        (is_retryable r && ltb e.attempt_count settings.mastodon_max_attempts) (retry now r e)
        (fail r e) (λ h. inr (refl, edge_back e.approval_required)) (λ h. inr (refl, lose))

  keep_status-IsTurn :
      (accepted : Bool) (id : Uuid) (e : Event) (r : Result)
      → IsTurn e r
      → IsTurn e (keep_status accepted id r)
  unfolding keep_status
  keep_status-IsTurn accepted id e r h =
      if_cases (λ (x : Result). IsTurn e x) accepted (record r { statuses = id ∷ [] }) r (λ k. h)
        (λ k. h)

  module _ (settings : Settings) (services : Services) (now : Time) where
    post-IsTurn :
        (e : Event) → e.approval_required ≡ false → IsTurn e (post settings services now e)
    unfolding post finish_post tidy
    post-IsTurn e f = elim (Reply-cases (services.create_status e)) [
      | inl (remote, h) ↦ rw (h, post) (inr (refl, rw f announce))
      | inr (r, h) ↦
          rw (h, post)
            (keep_status-IsTurn (services.accepts e) e.id e (handle settings now r e)
              (handle-IsTurn settings now r e))
    ]

    post_with_media-IsTurn :
        (e : Event)
        → e.approval_required ≡ false
        → IsTurn e (post_with_media settings services now e)
    unfolding post_with_media
    post_with_media-IsTurn e f = elim (Option-cases e.mastodon_media_id) [
      | inr (media, k) ↦ rw (k, post_with_media) (post-IsTurn e f)
      | inl k ↦ elim (Reply-cases (services.upload_media e)) [
        | inl (media, h) ↦ rw (k, h, post_with_media) (post-IsTurn _ f)
        | inr (r, h) ↦ rw (k, h, post_with_media) (handle-IsTurn settings now r e)
      ]
    ]

    publish-IsTurn :
        (dry : Bool) (publications : List Publication) (e : Event)
        → e.approval_required ≡ false
        → IsTurn e (publish settings services now dry publications e)
    unfolding publish copy_duplicate finish_dry_run tidy
    publish-IsTurn dry publications e f =
        elim (Option-cases (find (is_same_content e) publications)) [
          | inr (p, k) ↦ rw (k, publish) (inr (refl, rw f announce))
          | inl k ↦
              rw (k, publish)
                (if_cases (λ (x : Result). IsTurn e x) dry (finish_dry_run now e)
                  (post_with_media settings services now e) (λ h. inr (refl, rw f rehearse))
                  (λ h. post_with_media-IsTurn e f))
        ]

    IsTurn-core : (e e' : Event) (r : Result) → core e' ≡ core e → IsTurn e' r → IsTurn e r
    IsTurn-core e e' r h (inl ended) = inl ended
    IsTurn-core e e' r h (inr (same, edge)) = inr (
      same ∙ ap (λ c. (c.0, c.3, c.4)) h,
      subst (λ b. Edge m (at processing b) (phase r.event)) (ap (λ c. c.2) h) edge,
    )

    keep_prepared-IsTurn : (e : Event) → e.approval_required ≡ true → IsTurn e (keep_prepared e)
    unfolding keep_prepared
    keep_prepared-IsTurn e f =
        inr (
          refl,
          subst (λ b. Edge m (at processing b) (at pending_approval b)) (sym f) put_back_draft,
        )

    try_turn-IsTurn :
        (dry : Bool) (publications : List Publication) (e : Event)
        → IsTurn e (try_turn settings services now dry publications e)
    unfolding try_turn
    try_turn-IsTurn dry publications e =
        let e' : Event = (prepare services e).0 in
        let kept : core e' ≡ core e = core-prepare services e in
        let flag : e'.approval_required ≡ e.approval_required = ap (λ c. c.2) kept in
        elim (Option-cases (prepare services e).1) [
          | inr (r, k) ↦
              rw (k, try_turn)
                (IsTurn-core e e' (handle settings now r e') kept (handle-IsTurn settings now r e'))
          | inl k ↦
              rw (k, try_turn)
                (if_cases (λ (x : Result). IsTurn e x) e.approval_required (keep_prepared e')
                  (publish settings services now dry publications e')
                  (λ h.
                    IsTurn-core e e' (keep_prepared e') kept (keep_prepared-IsTurn e' (flag ∙ h)))
                  (λ h.
                    IsTurn-core e e' (publish settings services now dry publications e') kept
                      (publish-IsTurn dry publications e' (flag ∙ h))))
        ]

    -- the turn of a claimed row: along one edge, or the row stays as it was claimed
    pub attempt-IsMove :
        (dry : Bool) (publications : List Publication) (e : Event)
        → e.status ≡ processing
        → let e' = (attempt settings services now dry publications e).event in
          (subject e' ≡ subject e) × Route m (phase e) (phase e')
    unfolding attempt end_turn interrupt
    attempt-IsMove dry publications e works_on =
        let r : Result = try_turn settings services now dry publications e in
        if_cases (λ (x : Result). (subject x.event ≡ subject e) × Route m (phase e) (phase x.event))
          (services.ends r.event && not (is_interrupted r.outcome)) r (interrupt e r)
          (λ h. elim (try_turn-IsTurn dry publications e) [
            | inl ended ↦ absurd (ground arith)
            | inr (same, edge) ↦ (
              same,
              one_edge (
                  subst (λ st. Edge m (at st e.approval_required) (phase r.event)) (sym works_on)
                    edge),
            )
          ])
          (λ h. (refl, here))
