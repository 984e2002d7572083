-- ===== src/Social/Keyed.antt =====
-- Rows under a primary key: the row that a statement has loaded is the only one of its identity.
use open_city_planner.Social.Enqueue.{is_adoption}
use open_city_planner.Base.{
  List, Uuid, count, ◌≡◌, ◌≤◌, Bool, Time, some, ◌∷◌, All, ◌==◌, arith, sym, Bool-cases, ap, true,
  [], ◌∙◌, inl, inr, false, if◌then◌else◌, none, Option-cases, refl, some-injective, subst,
  if_cases,
}
use open_city_planner.Social.Publish.{first_due, earlier, is_due, is_before}
use open_city_planner.Social.{Event, Policy}
use mathlib.Core.List.{Memᴰ}

abbrev pub has_id : Uuid → Event → Bool
has_id id e = e.id == id

-- The primary key and `uq_social_outbox_polygon_adopted`: no two rows have the same identity, and no
-- two announce the adoption of the same polygon.
abbrev pub IsKeyed : List Event → Type 0
IsKeyed es =
    ((id : Uuid) → count (has_id id) es ≤ 1)
    × ((polygon : Uuid) → count (is_adoption polygon) es ≤ 1)

none_of_count :
    (id : Uuid) (e : Event) (es : List Event)
    → count (has_id id) es ≡ 0
    → All (λ x. x.id ≡ id → x ≡ e) es
unfolding count
none_of_count id e [] h = tt
none_of_count id e (x ∷ es) h = ((λ k. absurd (ground arith)), none_of_count id e es (ground arith))

count_of_mem :
    (id : Uuid) (e : Event) (es : List Event) → Memᴰ e es → e.id ≡ id → 1 ≤ count (has_id id) es
unfolding count
count_of_mem id e [] m k = elim m [ ]
count_of_mem id e (x ∷ es) (Memᴰ.head h) k = ground (arith, ap (λ y. y.id) h)
count_of_mem id e (x ∷ es) (Memᴰ.tail m) k = ground (arith, count_of_mem id e es m k)

pub only_row :
    (id : Uuid) (e : Event) (es : List Event)
    → count (has_id id) es ≤ 1
    → Memᴰ e es
    → e.id ≡ id
    → All (λ x. x.id ≡ id → x ≡ e) es
unfolding count
only_row id e [] h m k = elim m [ ]
only_row id e (x ∷ es) h (Memᴰ.head same) k =
    let own : x.id ≡ id = sym (ap (λ y. y.id) same) ∙ k in
    ((λ j. sym same), none_of_count id e es (ground arith))
only_row id e (x ∷ es) h (Memᴰ.tail m) k =
    let there : 1 ≤ count (has_id id) es = count_of_mem id e es m k in
    ((λ j. absurd (ground arith)), only_row id e es (ground arith) m k)

module _ (policy : Policy) (now : Time) where
  first_due_skip :
      (x : Event) (es : List Event)
      → is_due policy now x ≡ false
      → first_due policy now (x ∷ es) ≡ first_due policy now es
  unfolding first_due
  first_due_skip x es n = rw n refl

  first_due_last :
      (x : Event) (es : List Event)
      → is_due policy now x ≡ true
      → first_due policy now es ≡ none
      → first_due policy now (x ∷ es) ≡ some x
  unfolding first_due earlier
  first_due_last x es y h = rw (y, h) refl

  first_due_more :
      (x f : Event) (es : List Event)
      → is_due policy now x ≡ true
      → first_due policy now es ≡ some f
      → first_due policy now (x ∷ es) ≡ some (if is_before x f then x else f)
  unfolding first_due earlier
  first_due_more x f es y h = rw (y, h) refl

  -- The chosen row is a due one of the table.
  pub first_due_lem :
      (es : List Event) (e : Event)
      → first_due policy now es ≡ some e
      → (is_due policy now e ≡ true) × Memᴰ e es
  unfolding first_due
  first_due_lem [] e h = absurd (ground arith)
  first_due_lem (x ∷ es) e h = elim (Bool-cases (is_due policy now x)) [
    | inr n ↦
        let (due, row) = first_due_lem es e (sym (first_due_skip x es n) ∙ h) in
        (due, Memᴰ.tail row)
    | inl y ↦ elim (Option-cases (first_due policy now es)) [
      | inl last ↦
          let same = some-injective x e (sym (first_due_last x es y last) ∙ h) in
          (subst (λ a. is_due policy now a ≡ true) same y, Memᴰ.head (sym same))
      | inr (f, more) ↦
          let same =
            some-injective (if is_before x f then x else f) e
              (sym (first_due_more x f es y more) ∙ h) in
          let (due, row) = first_due_lem es f more in
          subst (λ a. (is_due policy now a ≡ true) × Memᴰ a (x ∷ es)) same
            (if_cases (λ a. (is_due policy now a ≡ true) × Memᴰ a (x ∷ es)) (is_before x f) x f
              (λ i. (y, Memᴰ.head refl)) (λ i. (due, Memᴰ.tail row)))
    ]
  ]
