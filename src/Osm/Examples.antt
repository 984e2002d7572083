-- ===== src/Osm/Examples.antt =====
-- The theorems on tags at a disused shop on level "--1".
use open_city_planner.Osm.Agrees.{IsClean, osm_status-osm_status_sql}
use open_city_planner.Osm.{
  Tags, osm_floor_group, osm_status, yes_text, value_error, osm_status_sql, disused, shop, level,
  value, disused_shop, abandoned_shop, abandoned, building, landuse, isdigit, drop_dashes,
}
use open_city_planner.Osm.Floors.{osm_floor_group_error, IsNoNumber}
use open_city_planner.Base.{
  ◌≡◌, some, ◌∷◌, [], none, all_digits, strip, Text, ◌≢◌, drop_spaces, is_digit, subst, is_space,
  some-injective, arith, lower, lower_char, refl, inl, All, ◌↔◌, ◌<◌, true,
}

abbrev tags : Tags
tags disused = some yes_text
tags shop = some (b'S' ∷ [])
tags level = some (b'-' ∷ b'-' ∷ b'1' ∷ [])
tags _ = none

clean_value :
    (v raw : Text) → strip v ≡ v → v ≢ [] → some v ≡ some raw → (strip raw ≡ raw) × (raw ≢ [])
clean_value v raw trimmed filled e =
    subst (λ r. (strip r ≡ r) × (r ≢ [])) (some-injective v raw e) (trimmed, filled)

clean : IsClean tags
unfolding strip drop_spaces is_space
clean disused raw e = clean_value yes_text raw refl (λ h. absurd (ground arith)) e
clean shop raw e = clean_value (b'S' ∷ []) raw refl (λ h. absurd (ground arith)) e
clean level raw e = clean_value (b'-' ∷ b'-' ∷ b'1' ∷ []) raw refl (λ h. absurd (ground arith)) e
clean disused_shop raw e = absurd (ground arith)
clean abandoned_shop raw e = absurd (ground arith)
clean abandoned raw e = absurd (ground arith)
clean building raw e = absurd (ground arith)
clean landuse raw e = absurd (ground arith)

level_value : value tags level ≡ some (b'-' ∷ b'-' ∷ b'1' ∷ [])
unfolding value strip drop_spaces is_space lower lower_char
level_value = refl

level_ascii : (raw : Text) → tags level ≡ some raw → All (λ c. c < 128) raw
level_ascii raw e =
    subst (λ r. All (λ c. c < 128) r) (some-injective (b'-' ∷ b'-' ∷ b'1' ∷ []) raw e)
      (omega arith, (omega arith, (omega arith, tt)))

osm_status-osm_status_sql_example : osm_status tags ≡ osm_status_sql tags
osm_status-osm_status_sql_example = osm_status-osm_status_sql tags clean

osm_floor_group_error_example : (osm_floor_group tags ≡ value_error) ↔ (
    (text : Text) × (value tags level ≡ some text)
    × (isdigit (drop_dashes text) ≡ true)
    × IsNoNumber text)
osm_floor_group_error_example = osm_floor_group_error tags level_ascii

-- the level is no number
level_error : osm_floor_group tags ≡ value_error
unfolding all_digits is_digit
level_error =
    (osm_floor_group_error tags level_ascii).1
      (b'-' ∷ b'-' ∷ b'1' ∷ [], level_value, refl, inl (b'1' ∷ [], refl))

-- A level of "\x1c--1" is trimmed too.
separator_error :
    osm_floor_group (λ key. elim key [ level ↦ some (28 ∷ b'-' ∷ b'-' ∷ b'1' ∷ []) | _ ↦ none ])
    ≡ value_error
unfolding osm_floor_group value strip drop_spaces is_space lower lower_char all_digits is_digit
separator_error = refl
