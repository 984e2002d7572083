-- ===== src/Guards/Found.antt =====
-- What the search for a statement timeout of backend/app/services/public_query_security.py finds.
use open_city_planner.Base.{
  Bool, true, ℕ, List, ◌∷◌, Option, ◌++◌, ◌≡◌, length, some, false, ◌≤◌, ◌||◌, arith, ◌⊎◌, ◌+◌, [],
  Bool-cases, ◌*◌, ◌==◌, refl, inl, inr, subst, suc, length-append, zero,
}
use open_city_planner.Guards.Visits.{unseen, unseen-all, visit-le}
use open_city_planner.Guards.Refers.{Leads, itself, over_nested, over, nested-found}
use open_city_planner.Guards.Timeouts.{
  Fault, is_in, nested, is_canceled, search_faults, is_statement_timeout_error,
}

is_in-append : (id : ℕ) (xs ys : List ℕ) → is_in id (xs ++ ys) ≡ (is_in id xs || is_in id ys)
unfolding is_in
is_in-append id [] ys = refl
is_in-append id (x ∷ xs) ys = ground (arith, is_in-append id xs ys)

-- No exception seen so far is the one sought, and those it refers to are seen or pending.
abbrev IsClosed : List Fault → List ℕ → List ℕ → Type 0
IsClosed faults seen pending =
    (x : ℕ)
    → is_in x seen ≡ true
    → (is_canceled faults x ≡ false)
      × ((d : ℕ) → is_in d (nested faults x) ≡ true → (is_in d seen || is_in d pending) ≡ true)

-- The answer is right for all that is seen or pending.
abbrev IsAnswer : List Fault → List ℕ → List ℕ → Option Bool → Type 0
IsAnswer faults seen pending r =
    ((r ≡ some true)
      × (p : ℕ) × (e : ℕ) × (is_in p pending ≡ true)
      × Leads faults p e
      × (is_canceled faults e ≡ true))
    ⊎ ((r ≡ some false)
        × (all : List ℕ) × IsClosed faults all []
        × ((x : ℕ) → (is_in x seen || is_in x pending) ≡ true → is_in x all ≡ true))

seen_or_pending :
    (c : ℕ) (seen pending : List ℕ) (x : ℕ)
    → is_in c seen ≡ true
    → (is_in x seen || is_in x (c ∷ pending)) ≡ true
    → (is_in x seen || is_in x pending) ≡ true
unfolding is_in
seen_or_pending c seen pending x old h = elim (Bool-cases (c == x)) [
  | inl same ↦
      let id : x ≡ c = ground arith in let there : is_in x seen ≡ true = rw id old in ground arith
  | inr other ↦ ground arith
]

IsClosed-old :
    (faults : List Fault) (c : ℕ) (seen pending : List ℕ)
    → is_in c seen ≡ true
    → IsClosed faults seen (c ∷ pending)
    → IsClosed faults seen pending
unfolding is_in
IsClosed-old faults c seen pending old closed =
    λ x h. ((closed x h).0, λ d k. seen_or_pending c seen pending d old ((closed x h).1 d k))

IsClosed-fresh :
    (faults : List Fault) (c : ℕ) (seen pending : List ℕ)
    → is_canceled faults c ≡ false
    → IsClosed faults seen (c ∷ pending)
    → IsClosed faults (c ∷ seen) (nested faults c ++ pending)
unfolding is_in
IsClosed-fresh faults c seen pending passed closed = λ x h. elim (Bool-cases (c == x)) [
  | inl same ↦
      let id : x ≡ c = ground arith in
      (
        rw id passed,
        λ d k.
            let there : is_in d (nested faults c) ≡ true =
              subst (λ y. is_in d (nested faults y) ≡ true) id k in
            ground (arith, is_in-append d (nested faults c) pending),
      )
  | inr other ↦
      let before : is_in x seen ≡ true = ground arith in
      (
        (closed x before).0,
        λ d k.
            let either = (closed x before).1 d k in
            ground (arith, is_in-append d (nested faults c) pending),
      )
]

after-old :
    (faults : List Fault) (c : ℕ) (seen pending : List ℕ) (r : Option Bool)
    → is_in c seen ≡ true
    → IsAnswer faults seen pending r
    → IsAnswer faults seen (c ∷ pending) r
unfolding is_in
after-old faults c seen pending r old (inl (is_true, p, e, there, leads, found)) =
    inl (is_true, p, e, ground arith, leads, found)
after-old faults c seen pending r old (inr (is_false, all, closed, covers)) =
    inr (is_false, all, closed, λ x h. covers x (seen_or_pending c seen pending x old h))

after-fresh :
    (faults : List Fault) (c : ℕ) (seen pending : List ℕ) (r : Option Bool)
    → IsAnswer faults (c ∷ seen) (nested faults c ++ pending) r
    → IsAnswer faults seen (c ∷ pending) r
unfolding is_in
after-fresh faults c seen pending r (inl (is_true, p, e, there, leads, found)) =
    elim (Bool-cases (is_in p (nested faults c))) [
      | inl inner ↦ inl (is_true, c, e, ground arith, over_nested faults c p e inner leads, found)
      | inr outer ↦
          inl
            (is_true, p, e, ground (arith, is_in-append p (nested faults c) pending), leads, found)
    ]
after-fresh faults c seen pending r (inr (is_false, all, closed, covers)) = inr (
  is_false,
  all,
  closed,
  λ x h. covers x (ground (arith, is_in-append x (nested faults c) pending)),
)

search_faults-IsAnswer :
    (faults : List Fault) (fuel : ℕ) (seen pending : List ℕ)
    → length pending + 3 * unseen faults seen ≤ fuel
    → IsClosed faults seen pending
    → IsAnswer faults seen pending (search_faults faults fuel seen pending)
unfolding search_faults is_in
search_faults-IsAnswer faults fuel seen [] enough closed =
    inr (refl, seen, closed, λ x h. ground arith)
search_faults-IsAnswer faults zero seen (c ∷ pending) enough closed = absurd (omega (arith, enough))
search_faults-IsAnswer faults (suc fuel) seen (c ∷ pending) enough closed =
    elim (Bool-cases (is_in c seen)) [
      | inl old ↦ rw old (
          after-old faults c seen pending _ old (
            search_faults-IsAnswer faults fuel seen pending (omega (arith, enough))
              (IsClosed-old faults c seen pending old closed)))
      | inr fresh ↦ elim (Bool-cases (is_canceled faults c)) [
        | inl found ↦ rw (fresh, found) (inl (refl, c, c, ground arith, itself c, found))
        | inr passed ↦
            rw (fresh, passed)
              (after-fresh faults c seen pending _ (
                search_faults-IsAnswer faults fuel (c ∷ seen) (nested faults c ++ pending)
                  (omega (
                    arith,
                    enough,
                    visit-le faults c seen fresh,
                    length-append (nested faults c) pending,
                  ))
                  (IsClosed-fresh faults c seen pending passed closed)))
      ]
    ]

-- What a closed list leads to stays in it, and so is not the one sought.
closed-passed :
    (faults : List Fault) (all : List ℕ)
    → IsClosed faults all []
    → (c e : ℕ) → is_in c all ≡ true
    → Leads faults c e
    → is_canceled faults e ≡ false
unfolding is_in
closed-passed faults all closed _ _ h (itself c) = (closed c h).0
closed-passed faults all closed _ _ h (over c d e fault found refers leads) =
    let next = (closed c h).1 d (nested-found faults c d fault found refers) in
    closed-passed faults all closed d e (ground arith) leads

-- The search ends, also where exceptions refer to each other in a circle: it answers yes exactly
-- when the error, or an exception that it leads to over `orig`, `__cause__` and `__context__`,
-- carries the code 57014.
pub is_statement_timeout_error_exact :
    (faults : List Fault) (error : ℕ)
    → (is_statement_timeout_error faults error ≡ some true)
        × ((e : ℕ) × Leads faults error e × (is_canceled faults e ≡ true))
      ⊎ (is_statement_timeout_error faults error ≡ some false)
        × ((e : ℕ) → Leads faults error e → is_canceled faults e ≡ false)
unfolding is_statement_timeout_error is_in
is_statement_timeout_error_exact faults error =
    elim (search_faults-IsAnswer faults (3 * length faults + 1) [] (error ∷ [])
      (omega (arith, unseen-all faults)) (λ x h. absurd (ground arith))) [
        | inl (is_true, p, e, there, leads, found) ↦
            let id : p ≡ error = ground arith in
            inl (is_true, (e, subst (λ y. Leads faults y e) id leads, found))
        | inr (is_false, all, closed, covers) ↦ inr (
          is_false,
          λ e leads. closed-passed faults all closed error e (covers error (ground arith)) leads,
        )
      ]
