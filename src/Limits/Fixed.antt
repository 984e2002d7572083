-- ===== src/Limits/Fixed.antt =====
-- How many attempts one key is allowed in a window of the memory backend.
use open_city_planner.Limits.{is_running, Window, has_key, with_current, current_window, count_up}
use open_city_planner.Limits.Rows.{
  filter_comm, find-filter, filter-append, find-filter-none, filter-not, filter-keeps,
}
use mathlib.Core.List.{append-nil}
use open_city_planner.Base.{
  filter, ℕ, Time, List, ◌≡◌, ◌==◌, ◌≤◌, ◌<◌, inl, false, ◌+◌, ◌*◌, [], ◌⊎◌, ◌∙◌, ap, ◌∷◌, suc, inr,
  true, arith, refl, Option-cases, subst, get_or, sym, find, not, find_holds,
}

-- The entries of a key after `n` of its attempts, none before the start `from` of the observation.
abbrev pub IsCounted : ℕ → Time → ℕ → List Window → Type 0
IsCounted key until n windows =
    ((n ≡ 0) × (filter (has_key key) windows ≡ []))
    ⊎ ((w : Window) × (filter (has_key key) windows ≡ w ∷ [])
        × (w.key ≡ key)
        × (w.count ≡ n)
        × (until ≤ w.expires_at))

-- the window of the key is still running when it is looked up
pub running_kept :
    (key : ℕ) (until now : Time) (n : ℕ) (windows : List Window)
    → now < until
    → IsCounted key until n windows
    → IsCounted key until n (filter (is_running now) windows)
unfolding filter is_running
running_kept key until now n windows h (inl (zero_n, empty)) = inl (
  zero_n,
  filter_comm (has_key key) (is_running now) windows ∙ ap (filter (is_running now)) empty,
)
running_kept key until now n windows h (inr (w, only, same, counted, late)) =
    let on : is_running now w ≡ true = ground arith in
    inr (
      w,
      filter_comm (has_key key) (is_running now) windows
          ∙ ap (filter (is_running now)) only
          ∙ rw on refl,
      same,
      counted,
      late,
    )

-- only the entries of the key matter
same-IsCounted :
    (key : ℕ) (until : Time) (n : ℕ) (windows windows' : List Window)
    → filter (has_key key) windows' ≡ filter (has_key key) windows
    → IsCounted key until n windows
    → IsCounted key until n windows'
same-IsCounted key until n windows windows' e c =
    subst
      (λ rows.
        ((n ≡ 0) × (rows ≡ []))
        ⊎ ((w : Window) × (rows ≡ w ∷ []) × (w.key ≡ key) × (w.count ≡ n) × (until ≤ w.expires_at)))
      (sym e) c

filter-one : (key : ℕ) (w : Window) → w.key ≡ key → filter (has_key key) (w ∷ []) ≡ w ∷ []
unfolding filter has_key
filter-one key w h = ground arith

filter-other : (key : ℕ) (w : Window) → (w.key == key) ≡ false → filter (has_key key) (w ∷ []) ≡ []
unfolding filter has_key
filter-other key w h = ground arith

module _ (key : ℕ) (now : Time) (window : ℕ) where
  own_entry :
      (windows : List Window) (w : Window)
      → current_window now key window windows ≡ w
      → w.key ≡ key
      → filter (has_key key) (with_current now key window windows) ≡ count_up w ∷ []
  unfolding with_current count_up
  own_entry windows w cur same =
      filter-append (has_key key) (filter (λ x. not (has_key key x)) windows)
        (count_up (current_window now key window windows) ∷ [])
      ∙ rw (filter-not (has_key key) windows) (rw cur (filter-one key (count_up w) same))

  current-none :
      (windows : List Window)
      → filter (has_key key) windows ≡ []
      → current_window now key window windows
        ≡ record { key = key; count = 0; expires_at = now + window * 1000 }
  unfolding current_window
  current-none windows h =
      ap (λ found. get_or found (record { key = key; count = 0; expires_at = now + window * 1000 }))
        (find-filter-none (has_key key) windows h)

  current-some :
      (windows : List Window) (w : Window)
      → filter (has_key key) windows ≡ w ∷ []
      → current_window now key window windows ≡ w
  unfolding current_window
  current-some windows w h =
      ap (λ found. get_or found (record { key = key; count = 0; expires_at = now + window * 1000 }))
        (find-filter (has_key key) windows [] w h)

  current-key : (windows : List Window) → (current_window now key window windows).key ≡ key
  unfolding current_window has_key
  current-key windows = elim (Option-cases (find (has_key key) windows)) [
    | inl nothing ↦ rw (nothing, current_window) refl
    | inr (w, found) ↦
        let hit = find_holds (has_key key) windows w found in
        rw (found, current_window) (ground arith)
  ]

module _ (key : ℕ) (until now : Time) (window : ℕ) where
  -- an attempt of the key
  pub IsCounted-own :
      (n : ℕ) (windows : List Window)
      → until ≤ now + window * 1000
      → IsCounted key until n windows
      → ((current_window now key window windows).count ≡ n)
        × IsCounted key until (suc n) (with_current now key window windows)
  unfolding count_up
  IsCounted-own n windows h (inl (zero_n, empty)) =
      let fresh : Window = record { key = key; count = 0; expires_at = now + window * 1000 } in
      let cur = current-none key now window windows empty in
      (
        ap (λ w. w.count) cur ∙ sym zero_n,
        inr (count_up fresh, own_entry key now window windows fresh cur refl, refl, omega arith, h),
      )
  IsCounted-own n windows h (inr (w, only, same, counted, late)) =
      let cur = current-some key now window windows w only in
      (
        ap (λ x. x.count) cur ∙ counted,
        inr (count_up w, own_entry key now window windows w cur same, same, omega arith, late),
      )

  -- an attempt of another key
  pub IsCounted-other :
      (other : ℕ) (n : ℕ) (windows : List Window)
      → (other == key) ≡ false
      → IsCounted key until n windows
      → IsCounted key until n (with_current now other window windows)
  unfolding with_current count_up
  IsCounted-other other n windows h c =
      let w' = count_up (current_window now other window windows) in
      let away : (w'.key == key) ≡ false = rw (current-key other now window windows) h in
      let kept : filter (has_key key) (filter (λ x. not (has_key other x)) windows)
          ≡ filter (has_key key) windows =
        filter-keeps (has_key key) (λ x. not (has_key other x)) windows
          (λ x t. unfold has_key in ground arith) in
      same-IsCounted key until n windows (with_current now other window windows)
        (filter-append (has_key key) (filter (λ x. not (has_key other x)) windows) (w' ∷ [])
          ∙ rw (filter-other key w' away) (append-nil _ ∙ kept))
        c
