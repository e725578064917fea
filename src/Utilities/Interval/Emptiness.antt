-- ===== src/Utilities/Interval/Emptiness.antt =====
-- src/utilities/include/utilities/Interval.h: what `contains` and `is_empty` decide.
use scico_d.Prelude.{ℕ, ◌≤◌, ◌<◌, true, false, ◌≡◌, ◌↔◌, arith}
use scico_d.Utilities.Interval.{
  BoundType, weak, strict, infty, Interval, bounded_interval, contains, is_empty, is_strict,
  max_endpoint,
}

-- The value lies above a lower bound, or below an upper one, of the given type.
abbrev pub Above : BoundType → ℕ → ℕ → Type 0
Above weak bound value = bound ≤ value
Above strict bound value = bound < value
Above infty bound value = Unit

abbrev pub Below : BoundType → ℕ → ℕ → Type 0
Below weak bound value = value ≤ bound
Below strict bound value = value < bound
Below infty bound value = Unit

-- The bounds of the constructor with bound types decide what the interval contains, a bound of
-- type INFTY being no bound.
pub contains-bounded_interval :
    (lb ub value : ℕ) (lb_type ub_type : BoundType)
    → (contains (bounded_interval lb lb_type ub ub_type) value ≡ true)
      ↔ (Above lb_type lb value × Below ub_type ub value)
unfolding bounded_interval contains
contains-bounded_interval lb ub value weak weak = (λ h. ground arith, λ h. ground arith)
contains-bounded_interval lb ub value _ _ = (λ h. ground arith, λ h. ground arith)

is_empty_of_types :
    (lt ut : BoundType) (l u value : ℕ)
    → let i : Interval = record {
      lower = l;
      upper = u;
      lower_bound_type = lt;
      upper_bound_type = ut;
    } in
      is_empty i ≡ true → contains i value ≡ false
unfolding contains is_empty
is_empty_of_types weak weak l u value h = ground arith
is_empty_of_types _ _ l u value h = ground arith

-- An interval that is reported as empty contains nothing.
pub is_empty→not_contains :
    (i : Interval) (value : ℕ) → is_empty i ≡ true → contains i value ≡ false
is_empty→not_contains i value h =
    is_empty_of_types i.lower_bound_type i.upper_bound_type i.lower i.upper value h

-- An interval without strict bounds, whose given lower bound fits an unsigned number, contains its
-- lower bound if it is not reported as empty.
-- (Strict bounds may leave no whole number between them.)
pub is_empty-false→contains :
    (lb ub : ℕ) (lb_type ub_type : BoundType)
    → lb ≤ max_endpoint
    → is_strict lb_type ≡ false
    → is_strict ub_type ≡ false
    → is_empty (bounded_interval lb lb_type ub ub_type) ≡ false
    → contains
        (bounded_interval lb lb_type ub ub_type)
        (bounded_interval lb lb_type ub ub_type).lower
      ≡ true
unfolding bounded_interval contains is_empty
is_empty-false→contains lb ub weak weak hl h k e = ground arith
is_empty-false→contains lb ub _ _ hl h k e = ground arith
