-- ===== src/Osm/Floors.antt =====
-- When `osm_floor_group` fails.
use open_city_planner.Osm.{
  osm_floor_group, Tags, isdigit, drop_dashes, value_error, floor_of, value, level, max_digits,
  read_floor, FloorResult, floor,
}
use open_city_planner.Base.{
  Text, all_digits, is_digit, ◌≡◌, true, ◌∷◌, ◌↔◌, none, arith, refl, some, Bool-cases, ◌==◌,
  Option-cases, inl, inr, [], ap, All, ◌⊎◌, ◌<◌, length, ◌≤◌, leb, false,
}

-- Two dashes in front, or more digits than `int` takes.
abbrev pub IsNoNumber : Text → Type 0
IsNoNumber text =
    ((rest : Text) × (text ≡ b'-' ∷ b'-' ∷ rest)) ⊎ (max_digits < length (drop_dashes text))

-- A text that is digits after its dashes and yet no number.
floor_of-none :
    (text : Text) → isdigit (drop_dashes text) ≡ true → floor_of text ≡ none → IsNoNumber text
floor_of-none [] h k = absurd (ground arith)
floor_of-none (x ∷ []) h k = absurd (unfold all_digits in ground arith)
floor_of-none (x ∷ y ∷ text) h k = elim (Bool-cases (x == b'-')) [
  | inl dash ↦ elim (Bool-cases (y == b'-')) [
    | inl again ↦
        let is_x : x ≡ b'-' = ground arith in
        let is_y : y ≡ b'-' = ground arith in inl (text, rw is_x (rw is_y refl))
    | inr digit ↦ inr (ground arith)
  ]
  | inr digit ↦ inr (ground arith)
]

length-drop_dashes-le : (text : Text) → length (drop_dashes text) ≤ length text
length-drop_dashes-le [] = omega arith
length-drop_dashes-le (x ∷ text) = ground (arith, length-drop_dashes-le text)

read_none : (text : Text) → floor_of text ≡ none → read_floor text ≡ value_error
read_none text h =
    ap (λ g. elim g as (λ _. FloorResult) [ none ↦ value_error | some group ↦ floor group ]) h

-- A number is no such text.
none-floor_of :
    (text : Text) → isdigit (drop_dashes text) ≡ true → IsNoNumber text → floor_of text ≡ none
unfolding all_digits is_digit
none-floor_of text h (inl (rest, dashes)) = rw dashes refl
none-floor_of [] h (inr many) = refl
none-floor_of (x ∷ text) h (inr many) = elim (Bool-cases (x == b'-')) [
  | inl dash ↦
      let fewer = length-drop_dashes-le text in
      let many' : leb (length text) max_digits ≡ false = ground arith in ground arith
  | inr digit ↦
      let many' : leb (length (x ∷ text)) max_digits ≡ false = ground arith in ground arith
]

-- For a level in ASCII, `osm_floor_group` raises the ValueError of `int` exactly when the trimmed
-- level is digits after any number of dashes, and has two dashes in front or more than 4300 digits.
pub osm_floor_group_error :
    (tags : Tags)
    → ((raw : Text) → tags level ≡ some raw → All (λ c. c < 128) raw)
    → (osm_floor_group tags ≡ value_error) ↔ (
        (text : Text) × (value tags level ≡ some text)
        × (isdigit (drop_dashes text) ≡ true)
        × IsNoNumber text)
unfolding osm_floor_group
osm_floor_group_error tags ascii = (
  λ e. elim (Option-cases (value tags level)) [
    | inl nothing ↦ absurd (ground arith)
    | inr (text, there) ↦ elim (Bool-cases (isdigit (drop_dashes text))) [
      | inl digits ↦ elim (Option-cases (floor_of text)) [
        | inl no_number ↦ (text, there, digits, floor_of-none text digits no_number)
        | inr (group, read) ↦ absurd (ground arith)
      ]
      | inr other ↦ absurd (ground arith)
    ]
  ],
  λ (text, there, digits, why).
      let failed : floor_of text ≡ none = none-floor_of text digits why in
      rw (there, osm_floor_group) (rw digits (read_none text failed)),
)
