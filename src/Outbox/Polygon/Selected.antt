-- ===== src/Outbox/Polygon/Selected.antt =====
-- The selection of the due rows: which they are, and in which order.
use open_city_planner.Outbox.Polygon.{Event, select_due, order_due, insert_due, is_due}
use open_city_planner.Base.{
  Uuid, ℕ, List, Time, Bool, ◌==◌, length, count, ◌≤◌, take, arith, filter, ◌≡◌, ◌∷◌, suc, zero,
  count-filter-le, [], refl, length-take-le,
}

abbrev pub has_id : Uuid → Event → Bool
has_id id e = e.id == id

module _ (q : Event → Bool) where
  count-insert_due : (e : Event) (es : List Event) → count q (insert_due e es) ≡ count q (e ∷ es)
  unfolding count insert_due
  count-insert_due e [] = refl
  count-insert_due e (x ∷ es) = ground (arith, count-insert_due e es)

  count-order_due : (es : List Event) → count q (order_due es) ≡ count q es
  unfolding count order_due
  count-order_due [] = refl
  count-order_due (e ∷ es) = ground (arith, count-insert_due e (order_due es), count-order_due es)

  count-take-le : (n : ℕ) (es : List Event) → count q (take n es) ≤ count q es
  unfolding count
  count-take-le zero es = omega arith
  count-take-le (suc n) [] = omega arith
  count-take-le (suc n) (e ∷ es) = omega (arith, count-take-le n es)

  -- a selected row is one of the table
  pub count-select_due-le :
      (now : Time) (limit : ℕ) (es : List Event) → count q (select_due now limit es) ≤ count q es
  unfolding select_due
  count-select_due-le now limit es =
      let due : List Event = filter (is_due now) es in
      omega (
        arith,
        count-take-le limit (order_due due),
        count-order_due due,
        count-filter-le q (is_due now) es,
      )

pub length-select_due-le :
    (now : Time) (limit : ℕ) (es : List Event) → length (select_due now limit es) ≤ limit
unfolding select_due
length-select_due-le now limit es = length-take-le limit (order_due (filter (is_due now) es))
