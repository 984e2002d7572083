-- ===== src/Guards/Visits.antt =====
-- How the visits of the search in backend/app/services/public_query_security.py use up its fuel.
use open_city_planner.Base.{
  count, List, find, Option, [], ℕ, length, ◌≡◌, ◌∷◌, not, arith, ◌≤◌, false, ◌+◌, refl,
  count-le-count, some, ◌*◌, Bool-cases, none, ◌==◌, Option-cases, inl, inr,
}
use open_city_planner.Guards.Timeouts.{Fault, is_in, nested_in, append_nested, fault_at, nested}

-- The exceptions that are not seen.
abbrev pub unseen : List Fault → List ℕ → ℕ
unfolding is_in
unseen faults seen = count (λ e. not (is_in e.id seen)) faults

pub unseen-all : (faults : List Fault) → unseen faults [] ≡ length faults
unfolding is_in count
unseen-all [] = refl
unseen-all (e ∷ faults) = omega (arith, unseen-all faults)

unseen-le :
    (faults : List Fault) (c : ℕ) (seen : List ℕ) → unseen faults (c ∷ seen) ≤ unseen faults seen
unfolding is_in
unseen-le faults c seen =
    count-le-count (λ e. not (is_in e.id (c ∷ seen))) (λ e. not (is_in e.id seen)) faults
      (λ e h. ground arith)

unseen-found :
    (faults : List Fault) (c : ℕ) (seen : List ℕ) (e : Fault)
    → is_in c seen ≡ false
    → fault_at faults c ≡ some e
    → unseen faults (c ∷ seen) + 1 ≤ unseen faults seen
unfolding is_in fault_at find count
unseen-found [] c seen e h k = ground arith
unseen-found (x ∷ faults) c seen e h k = elim (Bool-cases (x.id == c)) [
  | inl same ↦
      let le = unseen-le faults c seen in
      let id : x.id ≡ c = ground arith in
      let new : is_in x.id seen ≡ false = rw id h in ground (arith, le)
  | inr other ↦
      let later : fault_at faults c ≡ some e = ground arith in
      let rest = unseen-found faults c seen e h later in ground (arith, rest)
]

length-append_nested-le :
    (o : Option ℕ) (ids : List ℕ) → length (append_nested o ids) ≤ length ids + 1
unfolding append_nested
length-append_nested-le none ids = omega arith
length-append_nested-le (some id) ids = omega arith

length-nested_in-le : (fault : Option Fault) → length (nested_in fault) ≤ 3
unfolding nested_in append_nested
length-nested_in-le none = omega arith
length-nested_in-le (some e) =
    let inner = append_nested e.cause (append_nested e.orig []) in
    omega (
      arith,
      length-append_nested-le e.context inner,
      length-append_nested-le e.cause (append_nested e.orig []),
      length-append_nested-le e.orig [],
    )

pub visit-le :
    (faults : List Fault) (c : ℕ) (seen : List ℕ)
    → is_in c seen ≡ false
    → length (nested faults c) + 3 * unseen faults (c ∷ seen) ≤ 3 * unseen faults seen
unfolding nested
visit-le faults c seen h = elim (Option-cases (fault_at faults c)) [
  | inl nothing ↦ rw nothing (unfold nested_in in omega (arith, unseen-le faults c seen))
  | inr (e, found) ↦
      omega (arith, length-nested_in-le (fault_at faults c), unseen-found faults c seen e h found)
]
