-- ===== src/Examples/Intervals.antt =====
-- Intervals with bounds of all three types.
use scico_d.Prelude.{◌≡◌, ◌↔◌, ◌≤◌, ◌<◌, refl, true, false, arith}
use scico_d.Utilities.Interval.{weak, strict, infty, bounded_interval, contains, is_empty}
use scico_d.Utilities.Interval.Emptiness.{
  contains-bounded_interval, is_empty→not_contains, is_empty-false→contains,
}

contains-bounded_interval_at_values :
    (contains (bounded_interval 2 weak 5 strict) 5 ≡ true) ↔ ((2 ≤ 5) × (5 < 5))
contains-bounded_interval_at_values = contains-bounded_interval 2 5 5 weak strict

is_empty→not_contains_example : contains (bounded_interval 2 weak 2 strict) 2 ≡ false
unfolding is_empty bounded_interval
is_empty→not_contains_example = is_empty→not_contains (bounded_interval 2 weak 2 strict) 2 refl

unbounded_nonempty : is_empty (bounded_interval 9 weak 3 infty) ≡ false
unfolding is_empty bounded_interval
unbounded_nonempty = refl

is_empty-false→contains_at_values :
    contains (bounded_interval 9 weak 3 infty) (bounded_interval 9 weak 3 infty).lower ≡ true
is_empty-false→contains_at_values =
    is_empty-false→contains 9 3 weak infty (omega arith) refl refl unbounded_nonempty
