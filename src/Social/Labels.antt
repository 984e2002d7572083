-- ===== src/Social/Labels.antt =====
-- The label of a resource in a post.
use open_city_planner.Social.Posts.{
  collapse_spaces, is_markup, or_text, rstrip, safe_label, space, default_label,
}
use open_city_planner.Base.{
  Bool, Text, drop_spaces, filter, is_space, ℕ, ◌≤◌, All, ◌∷◌, ◌==◌, take, not, if◌then◌else◌,
  length, if_cases, true, ◌≡◌, false, ◌&&◌, [], suc, arith, zero, refl, length-take-le,
}

abbrev IsPlain : Text → Type 0
IsPlain s = All (λ c. is_markup c ≡ false) s

IsPlain-filter : (s : Text) → IsPlain (filter (λ c. not (is_markup c)) s)
unfolding filter
IsPlain-filter [] = tt
IsPlain-filter (c ∷ s) =
    if_cases (λ t. IsPlain t) (not (is_markup c)) (c ∷ filter (λ d. not (is_markup d)) s)
      (filter (λ d. not (is_markup d)) s) (λ h. (ground arith, IsPlain-filter s))
      (λ h. IsPlain-filter s)

IsPlain-collapse_spaces : (b : Bool) (s : Text) → IsPlain s → IsPlain (collapse_spaces b s)
unfolding collapse_spaces
IsPlain-collapse_spaces b [] h = tt
IsPlain-collapse_spaces b (c ∷ s) h =
    if_cases (λ t. IsPlain t) (is_space c)
      (if b then collapse_spaces true s else space ∷ collapse_spaces true s)
      (c ∷ collapse_spaces false s)
      (λ k.
        if_cases (λ t. IsPlain t) b (collapse_spaces true s) (space ∷ collapse_spaces true s)
          (λ i. IsPlain-collapse_spaces true s h.1)
          (λ i. (unfold is_markup in refl, IsPlain-collapse_spaces true s h.1)))
      (λ k. (h.0, IsPlain-collapse_spaces false s h.1))

IsPlain-drop_spaces : (s : Text) → IsPlain s → IsPlain (drop_spaces s)
unfolding drop_spaces
IsPlain-drop_spaces [] h = tt
IsPlain-drop_spaces (c ∷ s) h =
    if_cases (λ t. IsPlain t) (is_space c) (drop_spaces s) (c ∷ s) (λ k. IsPlain-drop_spaces s h.1)
      (λ k. h)

IsPlain-rstrip : (s : Text) → IsPlain s → IsPlain (rstrip s)
unfolding rstrip
IsPlain-rstrip [] h = tt
IsPlain-rstrip (c ∷ s) h =
    if_cases (λ t. IsPlain t) (is_space c && length (rstrip s) == 0) [] (c ∷ rstrip s) (λ k. tt)
      (λ k. (h.0, IsPlain-rstrip s h.1))

IsPlain-take : (n : ℕ) (s : Text) → IsPlain s → IsPlain (take n s)
IsPlain-take zero s h = tt
IsPlain-take (suc n) [] h = tt
IsPlain-take (suc n) (c ∷ s) h = (h.0, IsPlain-take n s h.1)

abbrev IsLabel : Text → Type 0
IsLabel s = IsPlain s × (1 ≤ length s) × (length s ≤ 160)

all_plain : Text → Bool
all_plain [] = true
all_plain (c ∷ s) = not (is_markup c) && all_plain s

all_plain-IsPlain : (s : Text) → all_plain s ≡ true → IsPlain s
unfolding all_plain
all_plain-IsPlain [] h = tt
all_plain-IsPlain (c ∷ s) h = (ground arith, all_plain-IsPlain s (ground arith))

IsLabel-or_text : (s : Text) → IsPlain s → length s ≤ 160 → IsLabel (or_text s default_label)
IsLabel-or_text [] plain few =
    (all_plain-IsPlain default_label (unfold all_plain is_markup in refl), omega arith, omega arith)
IsLabel-or_text (c ∷ s) plain few = (plain, omega arith, few)

-- The label of a resource in a post has from 1 to 160 characters, and none of `@`, `#`, `<` and `>`:
-- no name can mention an account or add a hashtag.
pub safe_label_is_plain :
    (value : Text)
    → All (λ c. is_markup c ≡ false) (safe_label value)
      × (1 ≤ length (safe_label value))
      × (length (safe_label value) ≤ 160)
unfolding safe_label
safe_label_is_plain value =
    let clean : Text = filter (λ c. not (is_markup c)) value in
    let stripped : Text = rstrip (drop_spaces (collapse_spaces false clean)) in
    IsLabel-or_text (take 160 stripped)
      (IsPlain-take 160 stripped (
        IsPlain-rstrip _
          (IsPlain-drop_spaces _ (IsPlain-collapse_spaces false clean (IsPlain-filter value)))))
      (length-take-le 160 stripped)
