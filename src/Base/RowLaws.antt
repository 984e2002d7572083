-- ===== src/Base/RowLaws.antt =====
-- The laws of `length`, `take`, `find`, `update`, `filter` and `count`.
use Prim.Native.Nat.{ℕ, zero, suc, ◌+◌, ◌≤◌}
use mathlib.Core.Path.{◌≡◌, refl, ap}
use mathlib.Core.Bool.{Bool, true, false}
use mathlib.Core.Option.{none, some}
use mathlib.Core.List.{List, [], ◌∷◌, ◌++◌}
use native.Mathlib.Omega.{arith}
use open_city_planner.Base.Tests.{if◌then◌else◌}
use open_city_planner.Base.Rows.{length, take, drop, find, update, filter, count}

module _ {ℓ} {A : Type ℓ} where
  pub length-append : (xs ys : List A) → length (xs ++ ys) ≡ length xs + length ys
  length-append [] ys = omega arith
  length-append (x ∷ xs) ys = omega (arith, length-append xs ys)

  pub length-take-le : (n : ℕ) (xs : List A) → length (take n xs) ≤ n
  length-take-le zero xs = omega arith
  length-take-le (suc n) [] = omega arith
  length-take-le (suc n) (x ∷ xs) = omega (arith, length-take-le n xs)

  pub length-update : (p : A → Bool) (f : A → A) (xs : List A) → length (update p f xs) ≡ length xs
  unfolding update
  length-update p f [] = refl
  length-update p f (x ∷ xs) = omega (arith, length-update p f xs)

  -- what `find` returns passes the test
  pub find_holds : (p : A → Bool) (xs : List A) (a : A) → find p xs ≡ some a → p a ≡ true
  unfolding find
  find_holds p [] a h = ground arith
  find_holds p (x ∷ xs) a h = ground (arith, find_holds p xs a)

  pub count-append : (q : A → Bool) (xs ys : List A) → count q (xs ++ ys) ≡ count q xs + count q ys
  unfolding count
  count-append q [] ys = omega arith
  count-append q (x ∷ xs) ys = omega (arith, count-append q xs ys)

  -- rows found by a test are counted by every test that they pass
  pub count_pos_of_find :
      (p q : A → Bool) (xs : List A) (a : A) → find p xs ≡ some a → q a ≡ true → 1 ≤ count q xs
  unfolding find count
  count_pos_of_find p q [] a h k = ground arith
  count_pos_of_find p q (x ∷ xs) a h k = ground (arith, count_pos_of_find p q xs a)

  -- a row is added to those of which at most one passes
  pub one_more :
      (q : A → Bool) (a : A) (xs : List A)
      → count q xs ≤ 1
      → (q a ≡ true → count q xs ≡ 0)
      → count q (xs ++ a ∷ []) ≤ 1
  unfolding count
  one_more q a xs h k = ground (arith, count-append q xs (a ∷ []), k)

  pub find-alone : (p : A → Bool) (a : A) → p a ≡ true → find p (a ∷ []) ≡ some a
  unfolding find
  find-alone p a h = rw h refl

  pub count-alone : (p : A → Bool) (a : A) → p a ≡ true → count p (a ∷ []) ≡ 1
  unfolding count
  count-alone p a h = ground arith

  -- a weaker test passes at least as many rows
  pub count-le-count :
      (p q : A → Bool) (xs : List A) → ((x : A) → p x ≡ true → q x ≡ true) → count p xs ≤ count q xs
  unfolding count
  count-le-count p q [] h = omega arith
  count-le-count p q (x ∷ xs) h = ground (arith, h x, count-le-count p q xs h)

  -- tests that agree on the rows that stay
  pub count-filter :
      (p q : A → Bool) (xs : List A)
      → ((x : A) → q x ≡ true → p x ≡ true)
      → count q (filter p xs) ≡ count q xs
  unfolding count filter
  count-filter p q [] h = refl
  count-filter p q (x ∷ xs) h = ground (arith, h x, count-filter p q xs h)

  pub count-le-length : (q : A → Bool) (xs : List A) → count q xs ≤ length xs
  unfolding count
  count-le-length q [] = omega arith
  count-le-length q (x ∷ xs) = ground (arith, count-le-length q xs)

  -- an update that makes no row pass adds nothing to the count
  pub count-update-le :
      (q p : A → Bool) (f : A → A) (xs : List A)
      → ((x : A) → p x ≡ true → q (f x) ≡ true → q x ≡ true)
      → count q (update p f xs) ≤ count q xs
  unfolding count update
  count-update-le q p f [] h = omega arith
  count-update-le q p f (x ∷ xs) h = ground (arith, h x, count-update-le q p f xs h)

  -- an update that leaves the test alone leaves the count alone
  pub count-update :
      (q p : A → Bool) (f : A → A) (xs : List A)
      → ((x : A) → p x ≡ true → q (f x) ≡ q x)
      → count q (update p f xs) ≡ count q xs
  unfolding count update
  count-update q p f [] h = refl
  count-update q p f (x ∷ xs) h = ground (arith, h x, count-update q p f xs h)

  -- an update takes from the count a row that passed both tests before
  pub count-update-lt :
      (r q p : A → Bool) (f : A → A) (xs : List A) (a : A)
      → find r xs ≡ some a
      → q a ≡ true
      → p a ≡ true
      → ((x : A) → p x ≡ true → q (f x) ≡ false)
      → count q (update p f xs) + 1 ≤ count q xs
  unfolding find count update
  count-update-lt r q p f [] a e k l h = ground arith
  count-update-lt r q p f (x ∷ xs) a e k l h = ground (
    arith,
    h x,
    count-update-le q p f xs (λ y m n. ground (arith, h y)),
    count-update-lt r q p f xs a,
  )

  -- after an update of all the rows that pass `q`, none passes
  pub count-update-eq-zero :
      (q p : A → Bool) (f : A → A) (xs : List A)
      → ((x : A) → p x ≡ true → q (f x) ≡ false)
      → ((x : A) → q x ≡ true → p x ≡ true)
      → count q (update p f xs) ≡ 0
  unfolding count update
  count-update-eq-zero q p f [] h k = refl
  count-update-eq-zero q p f (x ∷ xs) h k =
      ground (arith, h x, k x, count-update-eq-zero q p f xs h k)

  -- an update that keeps the test finds the same row, updated
  pub find-update :
      (q p : A → Bool) (f : A → A) (xs : List A)
      → ((x : A) → p x ≡ true → q (f x) ≡ q x)
      → (a : A) → find q xs ≡ some a
      → find q (update p f xs) ≡ some (if p a then f a else a)
  unfolding find update
  find-update q p f [] h a e = ground arith
  find-update q p f (x ∷ xs) h a e = ground (arith, h x, find-update q p f xs h a)

  pub find-update-none :
      (q p : A → Bool) (f : A → A) (xs : List A)
      → ((x : A) → p x ≡ true → q (f x) ≡ q x)
      → find q xs ≡ none
      → find q (update p f xs) ≡ none
  unfolding find update
  find-update-none q p f [] h e = refl
  find-update-none q p f (x ∷ xs) h e = ground (arith, h x, find-update-none q p f xs h)

  pub find-append :
      (q : A → Bool) (xs ys : List A) (a : A) → find q xs ≡ some a → find q (xs ++ ys) ≡ some a
  unfolding find
  find-append q [] ys a e = ground arith
  find-append q (x ∷ xs) ys a e = ground (arith, find-append q xs ys a)

  pub find-append_none :
      (q : A → Bool) (xs ys : List A) → find q xs ≡ none → find q (xs ++ ys) ≡ find q ys
  unfolding find
  find-append_none q [] ys e = refl
  find-append_none q (x ∷ xs) ys e = ground (arith, find-append_none q xs ys)

  pub find-eq-none_of_count : (q : A → Bool) (xs : List A) → count q xs ≡ 0 → find q xs ≡ none
  unfolding find count
  find-eq-none_of_count q [] e = refl
  find-eq-none_of_count q (x ∷ xs) e = ground (arith, find-eq-none_of_count q xs)

  pub count-eq-zero_of_find : (q : A → Bool) (xs : List A) → find q xs ≡ none → count q xs ≡ 0
  unfolding find count
  count-eq-zero_of_find q [] e = refl
  count-eq-zero_of_find q (x ∷ xs) e = ground (arith, count-eq-zero_of_find q xs)

  pub count-filter-le : (q p : A → Bool) (xs : List A) → count q (filter p xs) ≤ count q xs
  unfolding count filter
  count-filter-le q p [] = omega arith
  count-filter-le q p (x ∷ xs) = ground (arith, count-filter-le q p xs)

module _ {ℓ} {A : Type ℓ} where
  pub take-append-drop : (n : ℕ) (xs : List A) → take n xs ++ drop n xs ≡ xs
  take-append-drop zero xs = refl
  take-append-drop (suc n) [] = refl
  take-append-drop (suc n) (x ∷ xs) = ap (◌∷◌ x) (take-append-drop n xs)
