-- ===== src/Automata/Regions.antt =====
-- src/automata/ta_regions.cpp, ta_regions.hpp: region indexes of clock valuations and the clock
-- constraints of a region; src/utilities/include/utilities/numbers.h.
-- A valuation is a fraction of natural numbers: clocks are not negative, and every `double` is
-- rational. The functions here split a valuation and halve a region index, which is exact on
-- `double`.
pub mod Fractions
pub mod Candidates
use scico_d.Prelude.{
  ℕ, suc, zero, ◌+◌, ◌*◌, ◌-◌, ◌/◌, ◌%◌, ◌^◌, Bool, true, false, ◌&&◌, ◌||◌, List, [], ◌∷◌, ltb,
  ◌==◌, if◌then◌else◌, ◌++◌, map,
}
use scico_d.Automata.ClockConstraint.{
  TimeDomain, ClockConstraint, less, less_equal, equal_to, greater_equal, greater,
}

-- `num / den`, with a positive denominator.
pub record Fraction : Type 0 where
  pub num : ℕ
  pub den : ℕ

instance abbrev pub fraction_time : TimeDomain Fraction
fraction_time = record {
  origin = record { num = 0; den = 1 };
  difference = λ a b. (
    ltb (a.num * b.den) (b.num * a.den),
    record {
      num =
          if ltb (a.num * b.den) (b.num * a.den)
          then b.num * a.den - a.num * b.den
          else a.num * b.den - b.num * a.den;
      den = a.den * b.den;
    },
  );
  add = λ a b. record { num = a.num * b.den + b.num * a.den; den = a.den * b.den };
  less_than = λ v k. ltb v.num (k * v.den);
  greater_than = λ v k. ltb (k * v.den) v.num;
}

-- `getIntegerPart`, and the numerator of `getFractionalPart` over the same denominator.
abbrev pub integer_part : Fraction → ℕ
integer_part t = t.num / t.den

abbrev pub fractional_num : Fraction → ℕ
fractional_num t = t.num % t.den

-- `getFractionalPart`
abbrev pub fractional_part : Fraction → Fraction
fractional_part t = record { num = fractional_num t; den = t.den }

-- `isNearZero`: below 8 times the machine epsilon 2^-52.
unfoldable pub is_near_zero : Fraction → Bool
is_near_zero t = ltb (t.num * 2 ^ 52) (8 * t.den)

-- `TimedAutomatonRegions::getRegionIndex`, on `unsigned`.
unfoldable pub get_region_index_of : ℕ → Fraction → ℕ
unfolding is_near_zero
get_region_index_of largest_constant t =
    if ltb (largest_constant * t.den) t.num
    then (2 * largest_constant + 1) % 2 ^ 32
    else if is_near_zero (fractional_part t)
    then (2 * integer_part t) % 2 ^ 32
    else (2 * integer_part t + 1) % 2 ^ 32

pub data ConstraintBoundType : Type 0 where
  lower_bound upper_bound both_bounds : ConstraintBoundType

abbrev pub gets_lower : ConstraintBoundType → Bool
gets_lower upper_bound = false
gets_lower _ = true

abbrev pub gets_upper : ConstraintBoundType → Bool
gets_upper lower_bound = false
gets_upper _ = true

unfoldable pub get_clock_constraints_from_region_index :
    ℕ → ℕ → ConstraintBoundType → List ClockConstraint
get_clock_constraints_from_region_index r max_region_index bound_type =
    let get_lower = gets_lower bound_type in
    let get_upper = gets_upper bound_type in
    if r % 2 == 0
    then (if get_lower && get_upper
        then equal_to (r / 2) ∷ []
        else if get_lower && ltb 0 r
        then greater_equal (r / 2) ∷ []
        else if get_upper
        then (if r == 0 then equal_to 0 ∷ [] else less_equal (r / 2) ∷ [])
        else [])
    else (let res = if get_lower then greater (r / 2) ∷ [] else [] in
        if get_upper && ltb r max_region_index then res ++ less ((r + 1) / 2) ∷ [] else res)

-- Half of each region index.
unfoldable pub get_region_candidate : {L C : Type 0} → L × List (C × ℕ) → L × List (C × Fraction)
get_region_candidate (location, regions) =
    (location, map (λ x. (x.0, record { num = x.1; den = 2 })) regions)
