-- ===== src/Guards/Refers.antt =====
-- How exceptions refer to each other, for backend/app/services/public_query_security.py, and what
-- the search of that file puts on its stack.
use open_city_planner.Base.{
  true, ℕ, List, Option, ◌≡◌, some, inl, arith, none, ◌⊎◌, Option-cases, subst, inr, [], Bool-cases,
  ◌==◌, ap,
}
use open_city_planner.Guards.Timeouts.{Fault, is_in, nested, append_nested, nested_in, fault_at}

-- One of the three attributes of an exception is the exception `d`.
abbrev pub RefersTo : Fault → ℕ → Type 0
RefersTo e d = (e.orig ≡ some d) ⊎ (e.cause ≡ some d) ⊎ (e.context ≡ some d)

-- An exception that another one leads to, over its attributes.
pub data Leads (faults : List Fault) : ℕ → ℕ → Type 0 where
  itself : (c : ℕ) → Leads faults c c
  over :
      (c d e : ℕ) (fault : Fault)
      → fault_at faults c ≡ some fault
      → RefersTo fault d
      → Leads faults d e
      → Leads faults c e

in_append_nested :
    (o : Option ℕ) (ids : List ℕ) (d : ℕ)
    → is_in d (append_nested o ids) ≡ true
    → (o ≡ some d) ⊎ (is_in d ids ≡ true)
unfolding append_nested is_in
in_append_nested none ids d h = inr h
in_append_nested (some x) ids d h = elim (Bool-cases (x == d)) [
  | inl same ↦ let id : x ≡ d = ground arith in inl (ap some id)
  | inr other ↦ inr (ground arith)
]

refers-nested_in : (e : Fault) (d : ℕ) → is_in d (nested_in (some e)) ≡ true → RefersTo e d
unfolding nested_in is_in
refers-nested_in e d h = elim (in_append_nested e.context _ d h) [
  | inl context ↦ inr (inr context)
  | inr rest ↦ elim (in_append_nested e.cause _ d rest) [
    | inl cause ↦ inr (inl cause)
    | inr last ↦ elim (in_append_nested e.orig [] d last) [
      | inl orig ↦ inl orig
      | inr nothing ↦ absurd (ground arith)
    ]
  ]
]

append_nested-first :
    (o : Option ℕ) (ids : List ℕ) (d : ℕ) → o ≡ some d → is_in d (append_nested o ids) ≡ true
unfolding append_nested is_in
append_nested-first o ids d h = rw h (ground arith)

append_nested-later :
    (o : Option ℕ) (ids : List ℕ) (d : ℕ)
    → is_in d ids ≡ true
    → is_in d (append_nested o ids) ≡ true
unfolding append_nested is_in
append_nested-later none ids d h = h
append_nested-later (some x) ids d h = ground arith

nested_in-refers : (e : Fault) (d : ℕ) → RefersTo e d → is_in d (nested_in (some e)) ≡ true
unfolding nested_in
nested_in-refers e d (inl orig) =
    append_nested-later e.context _ d
      (append_nested-later e.cause _ d (append_nested-first e.orig [] d orig))
nested_in-refers e d (inr (inl cause)) =
    append_nested-later e.context _ d (append_nested-first e.cause _ d cause)
nested_in-refers e d (inr (inr context)) = append_nested-first e.context _ d context

pub nested-found :
    (faults : List Fault) (c d : ℕ) (fault : Fault)
    → fault_at faults c ≡ some fault
    → RefersTo fault d
    → is_in d (nested faults c) ≡ true
unfolding nested
nested-found faults c d fault found refers = rw found (nested_in-refers fault d refers)

in_nothing :
    (faults : List Fault) (c d : ℕ)
    → fault_at faults c ≡ none
    → is_in d (nested faults c) ≡ true
    → ⊥
unfolding nested nested_in is_in
in_nothing faults c d nothing h =
    let none_in : is_in d (nested_in none) ≡ true =
      subst (λ o. is_in d (nested_in o) ≡ true) nothing h in
    ground arith

pub over_nested :
    (faults : List Fault) (c d e : ℕ)
    → is_in d (nested faults c) ≡ true
    → Leads faults d e
    → Leads faults c e
unfolding nested
over_nested faults c d e h leads = elim (Option-cases (fault_at faults c)) [
  | inl nothing ↦ absurd (in_nothing faults c d nothing h)
  | inr (fault, found) ↦
      over c d e fault found
        (refers-nested_in fault d (subst (λ o. is_in d (nested_in o) ≡ true) found h)) leads
]
