-- ===== src/Utilities/Interval.antt =====
-- src/utilities/include/utilities/Interval.h at `N = Endpoint`, which is `unsigned int`.
pub mod Emptiness
use scico_d.Prelude.{
  ℕ, ◌-◌, ◌^◌, Bool, true, false, ◌&&◌, ◌||◌, not, ltb, leb, ◌==◌, if◌then◌else◌, lt_pair, nat_ord,
  pair_ord,
}

pub data BoundType : Type 0 where
  weak strict infty : BoundType

abbrev pub is_infty : BoundType → Bool
is_infty infty = true
is_infty _ = false

abbrev pub is_strict : BoundType → Bool
is_strict strict = true
is_strict _ = false

abbrev pub is_weak : BoundType → Bool
is_weak weak = true
is_weak _ = false

pub record Interval : Type 0 where
  pub lower : ℕ
  pub upper : ℕ
  pub lower_bound_type : BoundType
  pub upper_bound_type : BoundType

-- `std::numeric_limits<N>::max()`; `min()` is 0.
abbrev pub max_endpoint : ℕ
max_endpoint = 2 ^ 32 - 1

-- The default constructor.
abbrev pub default_interval : Interval
default_interval = record {
  lower = 0;
  upper = max_endpoint;
  lower_bound_type = infty;
  upper_bound_type = infty;
}

unfoldable pub set_lower : ℕ → BoundType → Interval → Interval
set_lower lb lb_type i = record i {
  lower_bound_type = lb_type;
  lower = if is_infty lb_type then 0 else lb;
}

unfoldable pub set_upper : ℕ → BoundType → Interval → Interval
set_upper ub ub_type i = record i {
  upper_bound_type = ub_type;
  upper = if is_infty ub_type then max_endpoint else ub;
}

-- `Interval(lb, ub)`
unfoldable pub weak_interval : ℕ → ℕ → Interval
weak_interval lb ub = record {
  lower = lb;
  upper = ub;
  lower_bound_type = weak;
  upper_bound_type = weak;
}

-- `Interval(lb, lbType, ub, ubType)`
unfoldable pub bounded_interval : ℕ → BoundType → ℕ → BoundType → Interval
unfolding set_lower set_upper
bounded_interval lb lb_type ub ub_type = set_upper ub ub_type (
    set_lower lb lb_type
      (record { lower = lb; upper = ub; lower_bound_type = lb_type; upper_bound_type = ub_type }))

unfoldable pub fits_lower : Interval → ℕ → Bool
fits_lower i value =
    is_infty i.lower_bound_type
    || ltb i.lower value
    || (is_weak i.lower_bound_type && leb i.lower value)

unfoldable pub fits_upper : Interval → ℕ → Bool
fits_upper i value =
    is_infty i.upper_bound_type
    || ltb value i.upper
    || (is_weak i.upper_bound_type && leb value i.upper)

unfoldable pub contains : Interval → ℕ → Bool
unfolding fits_lower fits_upper
contains i value = fits_lower i value && fits_upper i value

unfoldable pub is_empty : Interval → Bool
is_empty i =
    (ltb i.upper i.lower
      && (not (is_infty i.lower_bound_type) && not (is_infty i.upper_bound_type)))
    || ((i.lower == i.upper)
        && ((is_strict i.lower_bound_type && not (is_infty i.upper_bound_type))
            || (is_strict i.upper_bound_type && not (is_infty i.lower_bound_type))))
