-- ===== src/Outbox/Polygon/Run.antt =====
-- A run of the worker.
use open_city_planner.Outbox.Polygon.{Handled, broken, Stats, Event, dead_letter, start}
use open_city_planner.Base.{
  Uuid, ℕ, List, ◌≡◌, ◌+◌, update, ◌==◌, ◌∷◌, some, Option, Time, length, none, ◌⊎◌, ◌++◌,
}
use open_city_planner.Outbox.Polygon.Settled.{IsSettled}

abbrev pub total : Stats → ℕ
total s = s.processed + s.failed + s.dead_letter

module _ (handler : Event → Handled) (clock : Uuid → Time) where
  -- the table after the first commit of a turn, and after the second
  claimed : Event → List Event → List Event
  claimed e table = update (λ x. x.id == e.id) (λ _. start (clock e.id) e) table

  written : Event → Event → List Event → List Event
  written e e' table = update (λ x. x.id == e.id) (λ _. e') (claimed e table)

  -- The counters that a run returns, or the row whose handler has broken the session.
  abbrev pub IsTotal : List Event → ℕ → Option Stats → Type 0
  IsTotal es n r =
      ((t : Stats) × (r ≡ some t) × (total t ≡ n + length es))
      ⊎ ((r ≡ none)
          × ((before : List Event) × (e : Event) × (after : List Event) × (es ≡ before ++ e ∷ after)
              × (handler (start (clock e.id) e) ≡ broken)))

  -- What a run that returns `r` leaves of a selected row: it had its turn; or its handler broke the
  -- session, which left it in processing; or the run ended before its turn, and it is as before.
  abbrev pub IsTurned : Uuid → Event → Option Stats → Option Event → Option Event → Type 0
  IsTurned v e r row row' =
      ((e' : Event) × (row' ≡ some e') × IsSettled handler (clock v) e e')
      ⊎ ((r ≡ none) × (row' ≡ some (start (clock v) e)) × (handler (start (clock v) e) ≡ broken))
      ⊎ ((r ≡ none) × (row' ≡ row))
