-- ===== src/Outbox/Email/Order.antt =====
-- Which row `claim_event` takes.
use open_city_planner.Base.{
  Time, Option, Uuid, ◌≡◌, List, false, true, All, arith, none, ◌∷◌, [], Bool-cases, inl, inr, some,
  Option-cases, ◌⊎◌, if_cases, update, ◌==◌, ap, refl, subst, some-injective, ltb, ◌<◌, ◌≤◌,
}
use mathlib.Core.List.{Memᴰ}
use mathlib.Core.List.Memᴰ.{head, tail}
use open_city_planner.Outbox.Email.Claim.{
  first_due, is_before, is_due, earlier, claim_event, start_event, claim,
}
use open_city_planner.Outbox.Email.Keeps.{core-claim_campaign}
use open_city_planner.Outbox.Email.{Event, Db, put_event}

is_before_trans :
    (a b c : Event) → is_before a b ≡ true → is_before b c ≡ true → is_before a c ≡ true
unfolding is_before
is_before_trans a b c h k = ground arith

is_before_total : (a b : Event) → is_before a b ≡ false → is_before b a ≡ true
unfolding is_before
is_before_total a b h = ground arith

is_before_refl : (a : Event) → is_before a a ≡ true
unfolding is_before
is_before_refl a = ground arith

-- `f` is the first of the due rows of a table, by the test of the code.
abbrev IsFirst : Time → Option Uuid → List Event → Event → Type 0
IsFirst now user_id events f =
    All (λ e. is_due now user_id e ≡ true → is_before f e ≡ true) events
    × Memᴰ f events
    × (is_due now user_id f ≡ true)

first_due_later :
    (now : Time) (user_id : Option Uuid) (f g : Event) (events : List Event)
    → is_before f g ≡ true
    → All (λ e. is_due now user_id e ≡ true → is_before g e ≡ true) events
    → All (λ e. is_due now user_id e ≡ true → is_before f e ≡ true) events
first_due_later now user_id f g [] h a = a
first_due_later now user_id f g (e ∷ events) h a =
    (λ due. is_before_trans f g e h (a.0 due), first_due_later now user_id f g events h a.1)

pub first_due-none :
    (now : Time) (user_id : Option Uuid) (events : List Event)
    → first_due now user_id events ≡ none
    → All (λ e. is_due now user_id e ≡ false) events
unfolding first_due
first_due-none now user_id [] h = tt
first_due-none now user_id (e ∷ events) h = elim (Bool-cases (is_due now user_id e)) [
  | inl due ↦ absurd (ground arith)
  | inr later ↦ (later, first_due-none now user_id events (ground arith))
]

none_due :
    (now : Time) (user_id : Option Uuid) (f : Event) (events : List Event)
    → All (λ e. is_due now user_id e ≡ false) events
    → All (λ e. is_due now user_id e ≡ true → is_before f e ≡ true) events
none_due now user_id f [] a = tt
none_due now user_id f (e ∷ events) a =
    (λ due. absurd (ground arith), none_due now user_id f events a.1)

-- a due row against the first of the rest
IsFirst-against :
    (now : Time) (user_id : Option Uuid) (e : Event) (events : List Event) (rest : Option Event)
    → is_due now user_id e ≡ true
    → ((g : Event) → rest ≡ some g → IsFirst now user_id events g)
    → (rest ≡ none → All (λ x. is_due now user_id x ≡ false) events)
    → IsFirst now user_id (e ∷ events) (earlier e rest)
unfolding earlier
IsFirst-against now user_id e events none due ih empty =
    ((λ _. is_before_refl e, none_due now user_id e events (empty refl)), head refl, due)
IsFirst-against now user_id e events (some g) due ih empty =
    let (first, there, due_g) = ih g refl in
    if_cases (IsFirst now user_id (e ∷ events)) (is_before e g) e g
      (λ h.
        ((λ _. is_before_refl e, first_due_later now user_id e g events h first), head refl, due))
      (λ h. ((λ _. is_before_total e g h, first), tail there, due_g))

first_due_lem :
    (now : Time) (user_id : Option Uuid) (events : List Event) (f : Event)
    → first_due now user_id events ≡ some f
    → IsFirst now user_id events f
unfolding first_due
first_due_lem now user_id [] f h = absurd (ground arith)
first_due_lem now user_id (e ∷ events) f h = elim (Bool-cases (is_due now user_id e)) [
  | inl due ↦
      subst (IsFirst now user_id (e ∷ events))
        (some-injective (earlier e (first_due now user_id events)) f (ground arith))
        (IsFirst-against now user_id e events (first_due now user_id events) due
          (first_due_lem now user_id events) (first_due-none now user_id events))
  | inr later ↦
      let (first, there, due) = first_due_lem now user_id events f (ground arith) in
      ((λ h. absurd (ground arith), first), tail there, due)
]

pub claim_event_found :
    (db : Db) (now : Time) (user_id : Option Uuid) (e : Event)
    → first_due now user_id db.events ≡ some e
    → claim_event db now user_id ≡ (some (start_event now e), claim now e db)
unfolding claim_event
claim_event_found db now user_id e found = rw (found, claim_event) refl

pub claim_event_empty :
    (db : Db) (now : Time) (user_id : Option Uuid)
    → first_due now user_id db.events ≡ none
    → claim_event db now user_id ≡ (none, db)
unfolding claim_event
claim_event_empty db now user_id empty = rw (empty, claim_event) refl

-- `f` is due before `e`, or at the same time and is as old.
abbrev pub IsEarlier : Event → Event → Type 0
IsEarlier f e =
    (f.scheduled_at < e.scheduled_at)
    ⊎ ((f.scheduled_at ≡ e.scheduled_at) × (f.created_at ≤ e.created_at))

-- `f` is a due row of a table, and the earliest.
abbrev pub IsFirstDue : Time → Option Uuid → List Event → Event → Type 0
IsFirstDue now user_id events f =
    All (λ e. is_due now user_id e ≡ true → IsEarlier f e) events
    × Memᴰ f events
    × (is_due now user_id f ≡ true)

is_before-IsEarlier : (f e : Event) → is_before f e ≡ true → IsEarlier f e
unfolding is_before
is_before-IsEarlier f e h = elim (Bool-cases (ltb f.scheduled_at e.scheduled_at)) [
  | inl less ↦ inl (ground arith)
  | inr not_less ↦ inr (ground arith, ground arith)
]

All-IsEarlier :
    (now : Time) (user_id : Option Uuid) (f : Event) (events : List Event)
    → All (λ e. is_due now user_id e ≡ true → is_before f e ≡ true) events
    → All (λ e. is_due now user_id e ≡ true → IsEarlier f e) events
All-IsEarlier now user_id f [] h = tt
All-IsEarlier now user_id f (e ∷ events) h =
    (λ due. is_before-IsEarlier f e (h.0 due), All-IsEarlier now user_id f events h.1)

-- `claim_event` returns nothing, and changes nothing, exactly when no row is due. Otherwise it takes
-- a due row that no due row precedes by `scheduled_at`, then by `created_at`; that row is then
-- `processing` with one more attempt, and no other row of the table changes.
pub claim_event_exact :
    (db : Db) (now : Time) (user_id : Option Uuid)
    → ((claim_event db now user_id ≡ (none, db))
        × All (λ e. is_due now user_id e ≡ false) db.events)
      ⊎ ((f : Event) × IsFirstDue now user_id db.events f
          × ((claim_event db now user_id).0 ≡ some (start_event now f))
          × ((claim_event db now user_id).1.events
              ≡ update (λ e. e.id == f.id) (λ _. start_event now f) db.events))
unfolding claim_event claim put_event
claim_event_exact db now user_id = elim (Option-cases (first_due now user_id db.events)) [
  | inl empty ↦ inl (rw (empty, claim_event) refl, first_due-none now user_id db.events empty)
  | inr (f, found) ↦
      let (first, there, due) = first_due_lem now user_id db.events f found in
      let earliest : IsFirstDue now user_id db.events f =
        (All-IsEarlier now user_id f db.events first, there, due) in
      inr (
        f,
        earliest,
        rw (found, claim_event) refl,
        rw (found, claim_event)
            (ap (λ c. c.0)
              (core-claim_campaign now (start_event now f) (record db {
                events = update (λ e. e.id == f.id) (λ _. start_event now f) db.events;
              }))),
      )
]
