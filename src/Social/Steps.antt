-- ===== src/Social/Steps.antt =====
-- The updates of the outbox, as steps that keep the primary key.
use open_city_planner.Social.{Event}
use open_city_planner.Base.{
  Bool, List, Uuid, ◌≡◌, All, count, ◌∷◌, ◌==◌, update, true, if◌then◌else◌, if_cases, ◌++◌, [],
  subst, refl, sym, arith, Bool-cases, inl, inr, ◌≤◌, one_more,
}
use open_city_planner.Social.Keyed.{has_id, IsKeyed}
use open_city_planner.Social.Evolves.{
  Evolves-refl, Evolves-trans, IsLater, IsBorn, Evolves, Evolves-update, Evolves-append,
}
use open_city_planner.Social.Enqueue.{is_adoption}

-- All rows of the identity are the given one.
abbrev pub IsOnly : Event → List Event → Type 0
IsOnly e es = All (λ x. x.id ≡ e.id → x ≡ e) es

module _ (e' : Event) (id : Uuid) (same : e'.id ≡ id) where
  replaced :
      (x : Event) → (if x.id == id then e' else x).id ≡ e'.id → (if x.id == id then e' else x) ≡ e'
  replaced x =
      if_cases (λ (y : Event). y.id ≡ e'.id → y ≡ e') (x.id == id) e' x (λ h k. refl)
        (λ h k. absurd (ground arith))

  -- after a row was written back, it is the only one of its identity
  pub IsOnly-update : (es : List Event) → IsOnly e' (update (λ x. x.id == id) (λ _. e') es)
  unfolding update
  IsOnly-update [] = tt
  IsOnly-update (x ∷ es) = (replaced x, IsOnly-update es)

module _ (m : Bool) where
  abbrev pub IsStep : List Event → List Event → Type 0
  IsStep es es' = IsKeyed es → Evolves m es es' × IsKeyed es'

  pub IsStep-refl : (es : List Event) → IsStep es es
  IsStep-refl es keyed = (Evolves-refl m es, keyed)

  pub IsStep-trans : (es es' es'' : List Event) → IsStep es es' → IsStep es' es'' → IsStep es es''
  IsStep-trans es es' es'' h k keyed =
      let (a, keyed') = h keyed in
      let (b, keyed'') = k keyed' in (Evolves-trans m es es' es'' a b, keyed'')

  IsLater-rows :
      (e : Event) (f : Event → Event) (es : List Event)
      → IsLater m e (f e)
      → IsOnly e es
      → All (λ x. (x.id == e.id) ≡ true → IsLater m x (f x)) es
  IsLater-rows e f [] later h = tt
  IsLater-rows e f (x ∷ es) later h = (
    (λ k. subst (λ y. IsLater m y (f y)) (sym (h.0 (ground arith))) later),
    IsLater-rows e f es later h.1,
  )

  count-update_ids :
      (id : Uuid) (p : Event → Bool) (f : Event → Event) (es : List Event)
      → All (λ x. p x ≡ true → IsLater m x (f x)) es
      → count (has_id id) (update p f es) ≡ count (has_id id) es
  unfolding count update
  count-update_ids id p f [] h = refl
  count-update_ids id p f (x ∷ es) h =
      let ids : p x ≡ true → (f x).id ≡ x.id = λ k. (h.0 k).0 in
      ground (arith, ids, count-update_ids id p f es h.1)

  count-update_adoptions :
      (polygon : Uuid) (p : Event → Bool) (f : Event → Event) (es : List Event)
      → All (λ x. p x ≡ true → IsLater m x (f x)) es
      → count (is_adoption polygon) (update p f es) ≤ count (is_adoption polygon) es
  unfolding count update
  count-update_adoptions polygon p f [] h = omega arith
  count-update_adoptions polygon p f (x ∷ es) h =
      let rest = count-update_adoptions polygon p f es h.1 in
      elim (Bool-cases (p x)) [
        | inl y ↦ let kept = (h.0 y).2 polygon in rw y (ground arith)
        | inr n ↦ rw n (omega (arith, rest))
      ]

  update-IsStep :
      (p : Event → Bool) (f : Event → Event) (es : List Event)
      → All (λ x. p x ≡ true → IsLater m x (f x)) es
      → IsStep es (update p f es)
  update-IsStep p f es h keyed = (
    Evolves-update m p f es h,
    (
      (λ id. rw (count-update_ids id p f es h) (keyed.0 id)),
      (λ polygon. omega (arith, count-update_adoptions polygon p f es h, keyed.1 polygon)),
    ),
  )

  -- a loaded row is changed
  pub put-IsStep :
      (e : Event) (f : Event → Event) (es : List Event)
      → IsOnly e es
      → IsLater m e (f e)
      → IsStep es (update (λ x. x.id == e.id) f es)
  put-IsStep e f es only later =
      update-IsStep (λ x. x.id == e.id) f es (IsLater-rows e f es later only)

  All-rows : (P : Event → Type 0) (es : List Event) → ((x : Event) → P x) → All P es
  All-rows P [] h = tt
  All-rows P (x ∷ es) h = (h x, All-rows P es h)

  -- all rows that pass a test are changed
  pub all-IsStep :
      (p : Event → Bool) (f : Event → Event) (es : List Event)
      → ((x : Event) → p x ≡ true → IsLater m x (f x))
      → IsStep es (update p f es)
  all-IsStep p f es later =
      update-IsStep p f es (All-rows (λ x. p x ≡ true → IsLater m x (f x)) es later)

  -- a row is added
  pub add-IsStep :
      (e : Event) (es : List Event)
      → IsBorn m e
      → count (has_id e.id) es ≡ 0
      → ((polygon : Uuid) → is_adoption polygon e ≡ true → count (is_adoption polygon) es ≡ 0)
      → IsStep es (es ++ e ∷ [])
  add-IsStep e es born fresh alone keyed = (
    Evolves-append m es e born,
    (
      (λ id.
          one_more (has_id id) e es (keyed.0 id)
            (λ y. subst (λ i. count (has_id i) es ≡ 0) (ground arith) fresh)),
      (λ polygon. one_more (is_adoption polygon) e es (keyed.1 polygon) (alone polygon)),
    ),
  )
