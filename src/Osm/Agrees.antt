-- ===== src/Osm/Agrees.antt =====
-- Where the Python functions and the SQL expressions agree.
use open_city_planner.Osm.{
  Tags, osm_status, value, detect_osm_occupancy_status, Key, osm_status_sql, is_retail, equals,
  lower_is, abandoned_shop, non_empty, abandoned, disused_shop, shop, disused, normalize, building,
  landuse, yes_text, vacant_text, retail_text, commercial_text,
}
use open_city_planner.Base.{
  lower, Text, is_some, ◌≢◌, ◌≡◌, [], some, strip, ◌∷◌, Option-cases, refl, inl, inr, ap, arith,
}

-- Every value is trimmed and not empty, as OpenStreetMap's editors leave them.
abbrev pub IsClean : Tags → Type 0
IsClean tags = (key : Key) (raw : Text) → tags key ≡ some raw → (strip raw ≡ raw) × (raw ≢ [])

non_empty-lower : (raw : Text) → raw ≢ [] → non_empty (lower raw) ≡ some (lower raw)
unfolding lower
non_empty-lower [] h = absurd (h refl)
non_empty-lower (x ∷ raw) h = refl

value_clean :
    (tags : Tags) (key : Key)
    → IsClean tags
    → (is_some (value tags key) ≡ is_some (tags key))
      × ((text : Text) → equals (value tags key) text ≡ lower_is (tags key) text)
unfolding value
value_clean tags key clean = elim (Option-cases (tags key)) [
  | inl nothing ↦ (rw (nothing, value) refl, λ text. rw (nothing, value) refl)
  | inr (raw, there) ↦
      let (trimmed, filled) = clean key raw there in
      let same : normalize (some raw) ≡ some (lower raw) =
        rw trimmed (non_empty-lower raw filled) in
      (
        rw (there, value) (ap is_some same),
        λ text. rw (there, value) (ap (λ v. equals v text) same),
      )
]

-- The status of a feature is the same in Python and in SQL, for tags whose values are trimmed and
-- not empty.
pub osm_status-osm_status_sql : (tags : Tags) → IsClean tags → osm_status tags ≡ osm_status_sql tags
unfolding osm_status detect_osm_occupancy_status osm_status_sql is_retail
osm_status-osm_status_sql tags clean =
    let a = value_clean tags abandoned_shop clean in
    let b = value_clean tags abandoned clean in
    let c = value_clean tags disused_shop clean in
    let d = value_clean tags shop clean in
    let e = value_clean tags disused clean in
    let f = value_clean tags building clean in
    let g = value_clean tags landuse clean in
    ground (
      arith,
      a.0,
      b.1 yes_text,
      c.0,
      d.0,
      d.1 vacant_text,
      e.1 yes_text,
      f.1 retail_text,
      f.1 commercial_text,
      g.1 retail_text,
      g.1 commercial_text,
    )
