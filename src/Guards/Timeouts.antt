-- ===== src/Guards/Timeouts.antt =====
-- is_statement_timeout_error of backend/app/services/public_query_security.py. The exceptions are a
-- list of objects that refer to each other by their identity.
use open_city_planner.Base.{
  Bool, true, false, List, Text, ℕ, ◌∷◌, [], Option, none, some, codes, text_eq, if◌then◌else◌,
  length, ◌+◌, ◌*◌, ◌||◌, ◌&&◌, not, ◌==◌, ◌++◌, find, zero, suc,
}

pub record Fault : Type 0 where
  pub id : ℕ
  pub sqlstate : Option Text
  pub pgcode : Option Text
  pub orig : Option ℕ
  pub cause : Option ℕ
  pub context : Option ℕ

unfoldable pub is_canceled_code : Option Text → Bool
is_canceled_code none = false
is_canceled_code (some code) = text_eq code (codes "57014")

unfoldable pub has_canceled_code : Option Fault → Bool
unfolding is_canceled_code
has_canceled_code none = false
has_canceled_code (some e) = is_canceled_code e.sqlstate || is_canceled_code e.pgcode

unfoldable pub fault_at : List Fault → ℕ → Option Fault
fault_at faults id = find (λ e. e.id == id) faults

unfoldable pub is_canceled : List Fault → ℕ → Bool
unfolding has_canceled_code fault_at
is_canceled faults id = has_canceled_code (fault_at faults id)

-- `pending.append`, on a stack with its end in front, if the attribute is an exception
unfoldable pub append_nested : Option ℕ → List ℕ → List ℕ
append_nested none pending = pending
append_nested (some id) pending = id ∷ pending

unfoldable pub nested_in : Option Fault → List ℕ
unfolding append_nested
nested_in none = []
nested_in (some e) = append_nested e.context (append_nested e.cause (append_nested e.orig []))

unfoldable pub nested : List Fault → ℕ → List ℕ
unfolding nested_in fault_at
nested faults id = nested_in (fault_at faults id)

unfoldable pub is_in : ℕ → List ℕ → Bool
is_in id [] = false
is_in id (x ∷ ids) = x == id || is_in id ids

-- `while pending`, or nothing where the fuel runs out
unfoldable pub search_faults : List Fault → ℕ → List ℕ → List ℕ → Option Bool
unfolding is_in is_canceled nested
search_faults faults fuel seen [] = some false
search_faults faults zero seen (id ∷ pending) = none
search_faults faults (suc fuel) seen (id ∷ pending) =
    let fresh = not (is_in id seen) in
    let rest =
      search_faults faults fuel (if fresh then id ∷ seen else seen)
        (if fresh then nested faults id ++ pending else pending) in
    if fresh && is_canceled faults id then some true else rest

-- Each exception is pushed by itself or by one of three attributes of a first visit.
unfoldable pub is_statement_timeout_error : List Fault → ℕ → Option Bool
unfolding search_faults
is_statement_timeout_error faults error =
    search_faults faults (3 * length faults + 1) [] (error ∷ [])
