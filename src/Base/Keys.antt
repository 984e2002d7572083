-- ===== src/Base/Keys.antt =====
-- Rows under a primary key: a row that a statement has loaded is the only one of its key.
use Prim.Native.Nat.{ℕ, ◌+◌, ◌≤◌}
use mathlib.Core.Path.{◌≡◌, refl, sym, ap, ◌∙◌, subst}
use mathlib.Core.Bool.{Bool, false, not}
use mathlib.Core.Logic.{inl, inr}
use mathlib.Core.Option.{some}
use mathlib.Core.List.{List, [], ◌∷◌}
use native.Mathlib.Omega.{arith}
use open_city_planner.Base.Tests.{if◌then◌else◌, ◌==◌, Bool-cases, if_cases}
use open_city_planner.Base.Rows.{find, update, filter, count, All}

module _ {ℓ} {A : Type ℓ} (key : A → ℕ) where
  -- All rows of the key are the given one.
  abbrev pub IsOnlyOf : A → List A → Type ℓ
  IsOnlyOf a xs = All (λ x. key x ≡ key a → x ≡ a) xs

  count-IsOnlyOf : (a : A) (xs : List A) → count (λ x. key x == key a) xs ≡ 0 → IsOnlyOf a xs
  unfolding count
  count-IsOnlyOf a [] h = tt
  count-IsOnlyOf a (x ∷ xs) h = ((λ k. absurd (ground arith)), count-IsOnlyOf a xs (ground arith))

  count_of_find :
      (p : A → Bool) (a : A) (xs : List A)
      → find p xs ≡ some a
      → count (λ x. key x == key a) xs ≡ 0
      → ⊥
  unfolding find count
  count_of_find p a [] h k = ground arith
  count_of_find p a (x ∷ xs) h k = elim (Bool-cases (p x)) [
    | inl y ↦
        let same : x ≡ a = ground arith in let own : key x ≡ key a = ap key same in ground arith
    | inr n ↦ count_of_find p a xs (ground arith) (ground arith)
  ]

  -- a row that was found is the only one of its key
  pub find-IsOnlyOf :
      (p : A → Bool) (a : A) (xs : List A)
      → count (λ x. key x == key a) xs ≤ 1
      → find p xs ≡ some a
      → IsOnlyOf a xs
  unfolding find count
  find-IsOnlyOf p a [] h k = tt
  find-IsOnlyOf p a (x ∷ xs) h k = elim (Bool-cases (p x)) [
    | inl y ↦
        let same : x ≡ a = ground arith in
        let own : key x ≡ key a = ap key same in ((λ i. same), count-IsOnlyOf a xs (ground arith))
    | inr n ↦
        let rest : find p xs ≡ some a = ground arith in
        (
          (λ i. absurd (count_of_find p a xs rest (ground arith))),
          find-IsOnlyOf p a xs (ground arith) rest,
        )
  ]

  module _ (q : A → Bool) (a : A) where
    replaced :
        (f : A → A) (x : A)
        → (key x ≡ key a → x ≡ a)
        → q (f a) ≡ q a
        → q (if key x == key a then f x else x) ≡ q x
    replaced f x only h =
        if_cases (λ y. q y ≡ q x) (key x == key a) (f x) x
          (λ k. let same : x ≡ a = only (ground arith) in subst (λ y. q (f y) ≡ q y) (sym same) h)
          (λ k. refl)

    -- a row that is written back and passes the test as before
    pub count-write :
        (f : A → A) (xs : List A)
        → IsOnlyOf a xs
        → q (f a) ≡ q a
        → count q (update (λ x. key x == key a) f xs) ≡ count q xs
    unfolding count update
    count-write f [] only h = refl
    count-write f (x ∷ xs) only h = ground (arith, replaced f x only.0 h, count-write f xs only.1 h)

    kept : (x : A) → (key x ≡ key a → x ≡ a) → q a ≡ false → key x ≡ key a → q x ≡ false
    kept x only h k = ap q (only k) ∙ h

    -- a row that is deleted and does not pass the test
    pub count-delete :
        (xs : List A)
        → IsOnlyOf a xs
        → q a ≡ false
        → count q (filter (λ x. not (key x == key a)) xs) ≡ count q xs
    unfolding count filter
    count-delete [] only h = refl
    count-delete (x ∷ xs) only h = ground (arith, kept x only.0 h, count-delete xs only.1 h)

  module _ (q : A → Bool) (k : ℕ) where
    -- an update by key takes at most the rows of the key from a count
    pub count-update-drop :
        (f : A → A) (xs : List A)
        → count q xs ≤ count q (update (λ x. key x == k) f xs) + count (λ x. key x == k) xs
    unfolding count update
    count-update-drop f [] = omega arith
    count-update-drop f (x ∷ xs) = ground (arith, count-update-drop f xs)

    pub count-delete-drop :
        (xs : List A)
        → count q xs ≤ count q (filter (λ x. not (key x == k)) xs) + count (λ x. key x == k) xs
    unfolding count filter
    count-delete-drop [] = omega arith
    count-delete-drop (x ∷ xs) = ground (arith, count-delete-drop xs)
