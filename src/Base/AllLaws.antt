-- ===== src/Base/AllLaws.antt =====
-- The laws of `All`: what every row satisfies.
use mathlib.Core.Path.{◌≡◌, refl, subst}
use mathlib.Core.Bool.{Bool, true, false}
use mathlib.Core.Option.{Option, some, some-injective}
use mathlib.Core.List.{List, [], ◌∷◌, ◌++◌}
use native.Mathlib.Omega.{arith}
use open_city_planner.Base.Tests.{if◌then◌else◌, if_cases}
use open_city_planner.Base.Rows.{find, update, filter, All}

module _ {ℓ} {A : Type ℓ} where
  -- a deletion leaves a property of the rows, weakened for those that stay
  pub All-filter {κ μ} :
      (P : A → Type κ) (Q : A → Type μ) (p : A → Bool) (xs : List A)
      → ((x : A) → p x ≡ true → P x → Q x)
      → All P xs
      → All Q (filter p xs)
  unfolding filter
  All-filter P Q p [] h a = tt
  All-filter P Q p (x ∷ xs) h a =
      if_cases (All Q) (p x) (x ∷ filter p xs) (filter p xs)
        (λ k. (h x k a.0, All-filter P Q p xs h a.1)) (λ k. All-filter P Q p xs h a.1)

  pub All-map {κ μ} :
      (P : A → Type κ) (Q : A → Type μ) (xs : List A) → ((x : A) → P x → Q x) → All P xs → All Q xs
  All-map P Q [] h a = tt
  All-map P Q (x ∷ xs) h a = (h x a.0, All-map P Q xs h a.1)

  pub All-both {κ μ} :
      (P : A → Type κ) (Q : A → Type μ) (xs : List A)
      → All P xs
      → All Q xs
      → All (λ x. P x × Q x) xs
  All-both P Q [] a b = tt
  All-both P Q (x ∷ xs) a b = ((a.0, b.0), All-both P Q xs a.1 b.1)

  module _ {κ} (P : A → Type κ) where
    All-update_keep :
        (b : Bool) (f : A → A) (x : A) → (b ≡ true → P x → P (f x)) → P x → P (if b then f x else x)
    All-update_keep true f x k h = k refl h
    All-update_keep false f x k h = h

    -- every row keeps a property that the update keeps
    pub All-update :
        (p : A → Bool) (f : A → A) (xs : List A)
        → ((x : A) → p x ≡ true → P x → P (f x))
        → All P xs
        → All P (update p f xs)
    unfolding update
    All-update p f [] h a = a
    All-update p f (x ∷ xs) h a = (All-update_keep (p x) f x (h x) a.0, All-update p f xs h a.1)

    pub All-append : (xs ys : List A) → All P xs → All P ys → All P (xs ++ ys)
    All-append [] ys a b = b
    All-append (x ∷ xs) ys a b = (a.0, All-append xs ys a.1 b)

    All_find_step :
        (b : Bool) (o : Option A) (x a : A)
        → P x
        → (o ≡ some a → P a)
        → (if b then some x else o) ≡ some a
        → P a
    All_find_step true o x a h k e = subst P (some-injective x a e) h
    All_find_step false o x a h k e = k e

    pub All_find : (p : A → Bool) (xs : List A) (a : A) → All P xs → find p xs ≡ some a → P a
    unfolding find
    All_find p [] a h e = absurd (ground arith)
    All_find p (x ∷ xs) a h e = All_find_step (p x) (find p xs) x a h.0 (All_find p xs a h.1) e
