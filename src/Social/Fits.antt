-- ===== src/Social/Fits.antt =====
-- The length of a post.
use open_city_planner.Social.Posts.{cut, fit_status, rstrip, ellipsis, split_paragraphs, compact}
use open_city_planner.Base.{
  Bool, List, Text, ℕ, ◌≤◌, ◌∷◌, take, if◌then◌else◌, length, max, if_cases, true, ◌≡◌, leb, ◌&&◌,
  [], arith, ◌-◌, refl, length-append, length-take-le,
}

length-rstrip-le : (s : Text) → length (rstrip s) ≤ length s
unfolding rstrip
length-rstrip-le [] = omega arith
length-rstrip-le (c ∷ s) = ground (arith, length-rstrip-le s)

length-cut-le : (text : Text) (n : ℕ) → 2 ≤ n → length (cut text n) ≤ n
unfolding cut
length-cut-le text n h =
    let kept = take (max 1 (n - 1)) text in
    omega (
      arith,
      length-append (rstrip kept) (ellipsis ∷ []),
      length-rstrip-le kept,
      length-take-le (max 1 (n - 1)) text,
    )

both_leb : (a : Bool) (k n : ℕ) → (a && leb k n) ≡ true → k ≤ n
both_leb a k n h = ground arith

-- A status fits the limit of the instance, which allows at least two characters, and a text that
-- fits is posted as it is.
pub fit_status_fits :
    (text : Text) (n : ℕ)
    → 2 ≤ n
    → (length (fit_status text n) ≤ n) × (length text ≤ n → fit_status text n ≡ text)
unfolding fit_status
fit_status_fits text n h =
    let parts : List Text = split_paragraphs text in
    let shorter : Text =
      if leb 3 (length parts) && leb (length (compact parts)) n
      then compact parts
      else cut text n in
    (
      if_cases (λ t. length t ≤ n) (leb (length text) n) text shorter (λ k. ground arith)
          (λ k.
            if_cases (λ t. length t ≤ n) (leb 3 (length parts) && leb (length (compact parts)) n)
              (compact parts) (cut text n)
              (λ i. both_leb (leb 3 (length parts)) (length (compact parts)) n i)
              (λ i. length-cut-le text n h)),
      λ fits.
          if_cases (λ t. t ≡ text) (leb (length text) n) text shorter (λ k. refl)
            (λ k. absurd (ground arith)),
    )
