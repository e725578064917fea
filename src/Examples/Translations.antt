-- ===== src/Examples/Translations.antt =====
-- Translation of formulas over numbers as propositions, with sets of propositions as symbols.
use scico_d.Prelude.{ℕ, ◌≡◌, ◌&&◌, ◌||◌, not, true, false, [], ◌∷◌, ok, member, nat_ord}
use scico_d.Utilities.Interval.{Interval, weak_interval, contains}
use scico_d.Mtl.Formula.{MtlFormula, prop, lneg, luntil, ldual_until, conjunction}
use scico_d.Mtl.Order.Laws.{formula_ord}
use scico_d.Mtl.NormalForm.Shape.{IsPositive}
use scico_d.Automata.ClockConstraint.{nat_time}
use scico_d.Automata.AtaFormula.{state_ord, Formula, States, is_satisfied_by}
use scico_d.Translation.{
  create_contains, create_negated_contains, init, until_transition, dual_until_transition,
  contains_proposition,
}
use scico_d.Translation.Constraints.{
  lies_within, is_satisfied_by-create_contains, is_satisfied_by-create_negated_contains,
}
use scico_d.Translation.Init.{evaluate, is_pending, init_evaluates}
use scico_d.Translation.Transitions.{until_transition_satisfied, dual_until_transition_satisfied}

abbrev Mtl : Type 0
Mtl = MtlFormula ℕ

abbrev duration : Interval
duration = weak_interval 2 5

abbrev until_formula : Mtl
until_formula = luntil (prop 1) (lneg (prop 2)) duration

-- The until is to be kept at the valuation 3.
abbrev states : States Mtl ℕ
states = record { location = until_formula; clock_valuation = 3 } ∷ []

is_satisfied_by-create_contains_example :
    is_satisfied_by (create_contains duration) states 3 ≡ contains duration 3
is_satisfied_by-create_contains_example = is_satisfied_by-create_contains duration states 3

is_satisfied_by-create_negated_contains_at_values :
    is_satisfied_by (create_negated_contains duration) states 3
    ≡ not (is_satisfied_by (create_contains duration) states 3)
is_satisfied_by-create_negated_contains_at_values =
    is_satisfied_by-create_negated_contains duration states 3

init_evaluates_example :
    (phi : Formula Mtl) × (init contains_proposition
        (conjunction (prop 1) until_formula)
        (1 ∷ [])
        true
      ≡ ok phi)
    × (is_satisfied_by phi states 3
        ≡ evaluate contains_proposition
            (is_pending states 3 true)
            (conjunction (prop 1) until_formula)
            (1 ∷ []))
unfolding IsPositive
init_evaluates_example =
    init_evaluates contains_proposition (conjunction (prop 1) until_formula) (1 ∷ []) true states 3
      (tt, ((tt, tt), tt))

until_transition_satisfied_example :
    (phi : Formula Mtl) × (until_transition contains_proposition
        (prop 1)
        (lneg (prop 2))
        duration
        (1 ∷ [])
      ≡ ok phi)
    × (is_satisfied_by phi states 3 ≡ (
        (evaluate contains_proposition (is_pending states 3 false) (lneg (prop 2)) (1 ∷ [])
          && lies_within {V = ℕ} duration 3)
        || (evaluate contains_proposition (is_pending states 3 false) (prop 1) (1 ∷ [])
            && member (record { location = until_formula; clock_valuation = 3 }) states)))
unfolding IsPositive
until_transition_satisfied_example =
    until_transition_satisfied contains_proposition (1 ∷ []) states 3 (prop 1) (lneg (prop 2))
      duration tt tt

dual_until_transition_satisfied_example :
    (phi : Formula Mtl) × (dual_until_transition contains_proposition
        (prop 1)
        (lneg (prop 2))
        duration
        (1 ∷ [])
      ≡ ok phi)
    × (is_satisfied_by phi states 3 ≡ (
        (evaluate contains_proposition (is_pending states 3 false) (lneg (prop 2)) (1 ∷ [])
          || not (lies_within {V = ℕ} duration 3))
        && (evaluate contains_proposition (is_pending states 3 false) (prop 1) (1 ∷ [])
            || member
                (record {
                  location = ldual_until (prop 1) (lneg (prop 2)) duration;
                  clock_valuation = 3;
                })
                states)))
unfolding IsPositive
dual_until_transition_satisfied_example =
    dual_until_transition_satisfied contains_proposition (1 ∷ []) states 3 (prop 1) (lneg (prop 2))
      duration tt tt
