-- ===== src/Limits/Rows.antt =====
-- Filters, and the eviction of windows.
use open_city_planner.Limits.{evict, Window}
use open_city_planner.Base.{
  Bool, filter, List, find, ℕ, ◌≡◌, not, length, ◌++◌, ◌≤◌, true, [], ◌∷◌, arith, some, none, refl,
}

module _ {ℓ} {A : Type ℓ} where
  pub filter_comm : (p q : A → Bool) (xs : List A) → filter p (filter q xs) ≡ filter q (filter p xs)
  unfolding filter
  filter_comm p q [] = refl
  filter_comm p q (x ∷ xs) = ground (arith, filter_comm p q xs)

  pub filter-append :
      (p : A → Bool) (xs ys : List A) → filter p (xs ++ ys) ≡ filter p xs ++ filter p ys
  unfolding filter
  filter-append p [] ys = refl
  filter-append p (x ∷ xs) ys = ground (arith, filter-append p xs ys)

  pub find-filter-none : (p : A → Bool) (xs : List A) → filter p xs ≡ [] → find p xs ≡ none
  unfolding filter find
  find-filter-none p [] h = refl
  find-filter-none p (x ∷ xs) h = ground (arith, find-filter-none p xs)

  pub find-filter :
      (p : A → Bool) (xs ys : List A) (w : A) → filter p xs ≡ w ∷ ys → find p xs ≡ some w
  unfolding filter find
  find-filter p [] ys w h = absurd (ground arith)
  find-filter p (x ∷ xs) ys w h = ground (arith, find-filter p xs ys w)

  pub filter-not : (p : A → Bool) (xs : List A) → filter p (filter (λ x. not (p x)) xs) ≡ []
  unfolding filter
  filter-not p [] = refl
  filter-not p (x ∷ xs) = ground (arith, filter-not p xs)

  -- a filter that keeps the rows of another leaves that one as it is
  pub filter-keeps :
      (p q : A → Bool) (xs : List A)
      → ((x : A) → p x ≡ true → q x ≡ true)
      → filter p (filter q xs) ≡ filter p xs
  unfolding filter
  filter-keeps p q [] h = refl
  filter-keeps p q (x ∷ xs) h = ground (arith, h x, filter-keeps p q xs h)

  pub length-filter-le : (p : A → Bool) (xs : List A) → length (filter p xs) ≤ length xs
  unfolding filter
  length-filter-le p [] = omega arith
  length-filter-le p (x ∷ xs) = ground (arith, length-filter-le p xs)

pub length-evict-le :
    (max_keys : ℕ) (windows : List Window) → length (evict max_keys windows) ≤ max_keys
unfolding evict
length-evict-le max_keys [] = omega arith
length-evict-le max_keys (w ∷ windows) = ground (arith, length-evict-le max_keys windows)

pub evict-fits :
    (max_keys : ℕ) (windows : List Window)
    → length windows ≤ max_keys
    → evict max_keys windows ≡ windows
unfolding evict
evict-fits max_keys [] h = refl
evict-fits max_keys (w ∷ windows) h = ground arith
