-- ===== src/Examples/AtaFormulas.antt =====
-- Formulas over numbers as locations, with whole numbers as clock valuations.
use scico_d.Prelude.{ℕ, ◌≡◌, refl, List, [], ◌∷◌, nat_ord, all_of, any_of}
use scico_d.Automata.ClockConstraint.{nat_time, less}
use scico_d.Automata.AtaFormula.{
  State, state_ord, Formula, true_formula, location_formula, clock_constraint_formula,
  disjunction_formula, reset_clock_formula, States, is_satisfied_by, get_minimal_models,
}
use scico_d.Automata.AtaFormula.Models.{covers, is_satisfied_by-get_minimal_models}
use scico_d.Automata.AtaFormula.Simplification.{
  create_conjunctions, create_disjunctions, create_satisfied,
}

abbrev state_at : ℕ → ℕ → State ℕ ℕ
state_at a x = record { location = a; clock_valuation = x }

-- Location 1 at the current valuation, or location 2 at zero.
abbrev one_or_two : Formula ℕ
one_or_two = disjunction_formula (location_formula 1) (reset_clock_formula (location_formula 2))

abbrev states : States ℕ ℕ
states = state_at 1 3 ∷ state_at 2 0 ∷ []

is_satisfied_by-get_minimal_models_example :
    is_satisfied_by one_or_two states 3 ≡ covers states (get_minimal_models one_or_two 3)
is_satisfied_by-get_minimal_models_example =
    is_satisfied_by-get_minimal_models one_or_two states 3 ((refl, tt), (tt, tt))

abbrev operands : List (Formula ℕ)
operands = true_formula ∷ location_formula 1 ∷ clock_constraint_formula (less 3) ∷ []

create_satisfied_example :
    (is_satisfied_by (create_conjunctions operands) states 3
      ≡ all_of (λ f. is_satisfied_by f states 3) operands)
    × (is_satisfied_by (create_disjunctions operands) states 3
        ≡ any_of (λ f. is_satisfied_by f states 3) operands)
create_satisfied_example = create_satisfied operands states 3
