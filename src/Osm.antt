-- ===== src/Osm.antt =====
-- backend/app/services/osm_occupancy.py and the status and the floor of osm_canonical.py, with the SQL
-- expressions that stand for them in queries. A tag's value is a string here.
pub mod Agrees
pub mod Floors
pub mod Examples
use open_city_planner.Base.{
  Bool, Option, Text, if◌then◌else◌, none, ◌||◌, ◌∷◌, is_some, true, false, some, ◌==◌, lower, ◌&&◌,
  [], text_eq, get_or, all_digits, strip, ℕ, leb, length,
}

-- the tags that are read
pub data Key : Type 0 where
  shop disused_shop abandoned_shop abandoned disused building landuse level : Key

abbrev pub Tags : Type 0
Tags = Key → Option Text

pub data Occupancy : Type 0 where
  vacant unknown_status : Occupancy

-- `source_tag`: the tag and, where it is part of the text, its value
pub data SourceTag : Type 0 where
  abandoned_shop_tag disused_shop_tag : Text → SourceTag
  abandoned_yes shop_vacant disused_yes : SourceTag

pub data Lifecycle : Type 0 where
  is_abandoned is_disused is_vacant : Lifecycle

pub record Detection : Type 0 where
  pub status : Occupancy
  pub source_tag : Option SourceTag
  pub previous_shop_type : Option Text
  pub lifecycle : Option Lifecycle

abbrev pub yes_text : Text
yes_text = b'y' ∷ b'e' ∷ b's' ∷ []

abbrev pub vacant_text : Text
vacant_text = b'v' ∷ b'a' ∷ b'c' ∷ b'a' ∷ b'n' ∷ b't' ∷ []

abbrev pub retail_text : Text
retail_text = b'r' ∷ b'e' ∷ b't' ∷ b'a' ∷ b'i' ∷ b'l' ∷ []

abbrev pub commercial_text : Text
commercial_text = b'c' ∷ b'o' ∷ b'm' ∷ b'm' ∷ b'e' ∷ b'r' ∷ b'c' ∷ b'i' ∷ b'a' ∷ b'l' ∷ []

abbrev pub non_empty : Text → Option Text
non_empty [] = none
non_empty (x ∷ text) = some (x ∷ text)

abbrev pub normalize : Option Text → Option Text
normalize none = none
normalize (some raw) = non_empty (lower (strip raw))

unfoldable pub value : Tags → Key → Option Text
value tags key = normalize (tags key)

abbrev pub equals : Option Text → Text → Bool
equals none text = false
equals (some value) text = text_eq value text

-- `in {"retail", "commercial"}`
unfoldable pub is_retail : Option Text → Bool
is_retail v = equals v retail_text || equals v commercial_text

unfoldable pub detect_osm_occupancy_status : Tags → Detection
unfolding is_retail
detect_osm_occupancy_status tags =
    if is_some (value tags abandoned_shop) || equals (value tags abandoned) yes_text
    then record {
      status = unknown_status;
      source_tag = some (elim (value tags abandoned_shop) [
        | none ↦ abandoned_yes
        | some v ↦ abandoned_shop_tag v
      ]);
      previous_shop_type = value tags abandoned_shop;
      lifecycle = some is_abandoned;
    }
    else if is_some (value tags disused_shop)
    then record {
      status = vacant;
      source_tag = some (disused_shop_tag (get_or (value tags disused_shop) []));
      previous_shop_type = value tags disused_shop;
      lifecycle = some is_disused;
    }
    else if equals (value tags shop) vacant_text
    then record {
      status = vacant;
      source_tag = some shop_vacant;
      previous_shop_type = none;
      lifecycle = some is_vacant;
    }
    else if equals (value tags disused) yes_text
    then (if is_some (value tags shop)
          || (is_retail (value tags building) || is_retail (value tags landuse))
        then record {
          status = vacant;
          source_tag = some disused_yes;
          previous_shop_type = value tags shop;
          lifecycle = some is_disused;
        }
        else record {
          status = unknown_status;
          source_tag = some disused_yes;
          previous_shop_type = none;
          lifecycle = some is_disused;
        })
    else record {
      status = unknown_status;
      source_tag = none;
      previous_shop_type = none;
      lifecycle = none;
    }

unfoldable pub osm_status : Tags → Occupancy
unfolding detect_osm_occupancy_status
osm_status tags = (detect_osm_occupancy_status tags).status

-- `lower(tags->>'key') = 'text'`, which is not true on NULL
abbrev pub lower_is : Option Text → Text → Bool
lower_is none text = false
lower_is (some raw) text = text_eq (lower raw) text

-- The CASE expression of `osm_status_sql`; `tags ? 'key'` asks whether the key is there.
unfoldable pub osm_status_sql : Tags → Occupancy
osm_status_sql tags =
    if is_some (tags abandoned_shop) || lower_is (tags abandoned) yes_text
    then unknown_status
    else if is_some (tags disused_shop) || lower_is (tags shop) vacant_text
    then vacant
    else if lower_is (tags disused) yes_text
        && (is_some (tags shop)
            || ((lower_is (tags building) retail_text || lower_is (tags building) commercial_text)
                || (lower_is (tags landuse) retail_text
                    || lower_is (tags landuse) commercial_text)))
    then vacant
    else unknown_status

pub data Floor : Type 0 where
  basement ground_floor upper_floor : Floor

abbrev pub drop_dashes : Text → Text
drop_dashes [] = []
drop_dashes (x ∷ text) = let rest = drop_dashes text in if x == b'-' then rest else x ∷ text

abbrev pub is_zero : Text → Bool
is_zero [] = true
is_zero (x ∷ text) = x == b'0' && is_zero text

-- `str.isdigit` on ASCII: there is a character and all are digits
abbrev pub isdigit : Text → Bool
isdigit [] = false
isdigit (x ∷ text) = all_digits (x ∷ text)

-- Python refuses an integer of more digits.
abbrev pub max_digits : ℕ
max_digits = 4300

abbrev pub is_number : Text → Bool
is_number text = isdigit text && leb (length text) max_digits

-- the floor of a number that `int` reads: digits, not too many, with at most one sign; `none` for
-- its ValueError
abbrev pub floor_of : Text → Option Floor
floor_of [] = none
floor_of (x ∷ text) =
    if x == b'-'
    then (if is_number text then some (if is_zero text then ground_floor else basement) else none)
    else if is_number (x ∷ text)
    then some (if is_zero (x ∷ text) then ground_floor else upper_floor)
    else none

-- The result of `osm_floor_group`: a group, None, or the ValueError of `int`.
pub data FloorResult : Type 0 where
  floor : Floor → FloorResult
  no_floor value_error : FloorResult

abbrev pub read_floor : Text → FloorResult
read_floor text = elim (floor_of text) [ none ↦ value_error | some group ↦ floor group ]

unfoldable pub osm_floor_group : Tags → FloorResult
osm_floor_group tags = elim (value tags level) [
  | none ↦ no_floor
  | some text ↦ if isdigit (drop_dashes text) then read_floor text else no_floor
]
