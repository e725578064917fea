-- ===== src/Examples/RegionIndexes.antt =====
-- Regions for the largest constant 2.
use scico_d.Prelude.{ℕ, List, [], ◌∷◌, map, false, refl, ◌^◌, ◌≡◌, ◌+◌, ◌*◌, ◌==◌, arith, all_of}
use scico_d.Automata.ClockConstraint.{is_satisfied}
use scico_d.Automata.Regions.{
  Fraction, fraction_time, is_near_zero, get_region_index_of, both_bounds,
  get_clock_constraints_from_region_index, get_region_candidate,
}
use scico_d.Automata.Regions.Fractions.{region_constraints_satisfied}
use scico_d.Automata.Regions.Candidates.{get_region_index_of-get_region_candidate}

-- The valuation 3/2 lies in the region 3.
abbrev three_halves : Fraction
three_halves = record { num = 3; den = 2 }

region_constraints_satisfied_example :
    all_of
      (λ c. is_satisfied c three_halves)
      (get_clock_constraints_from_region_index 3 (2 * 2 + 1) both_bounds)
    ≡ (get_region_index_of 2 three_halves == 3)
unfolding is_near_zero
region_constraints_satisfied_example =
    region_constraints_satisfied 2 3 three_halves (omega arith) (λ h. ground arith) (omega arith)
      (omega arith)

-- Clocks 7 and 8 in the regions 3 and 4.
abbrev clock_regions : List (ℕ × ℕ)
clock_regions = (7, 3) ∷ (8, 4) ∷ []

get_region_index_of-get_region_candidate_example :
    map (λ x. (x.0, get_region_index_of 2 x.1)) (get_region_candidate {L = ℕ} (0, clock_regions)).1
    ≡ clock_regions
get_region_index_of-get_region_candidate_example =
    get_region_index_of-get_region_candidate {L = ℕ} 2 0 clock_regions (omega arith)
      (omega arith, (omega arith, tt))

-- 1 + 2^-52 lies in the region 2 of 1, whose constraint it does not satisfy.
abbrev after_one : Fraction
after_one = record { num = 2 ^ 52 + 1; den = 2 ^ 52 }

after_one_region : get_region_index_of 2 after_one ≡ 2
unfolding get_region_index_of
after_one_region = refl

after_one_unsatisfied :
    all_of
      (λ c. is_satisfied c after_one)
      (get_clock_constraints_from_region_index 2 (2 * 2 + 1) both_bounds)
    ≡ false
unfolding get_clock_constraints_from_region_index is_satisfied
after_one_unsatisfied = refl
