-- ===== src/Translation/Transitions.antt =====
-- src/mtl_ata_translation/include/mtl_ata_translation/translator.hpp: what the transition formulas
-- demand of the next states, in any domain of valuations.
use scico_d.Prelude.{Bool, false, not, ◌≡◌, ◌&&◌, ◌||◌, Ord, ok, member}
use scico_d.Utilities.Interval.{Interval}
use scico_d.Mtl.Formula.{MtlFormula, luntil, ldual_until}
use scico_d.Mtl.NormalForm.Shape.{IsPositive}
use scico_d.Automata.ClockConstraint.{TimeDomain}
use scico_d.Automata.AtaFormula.{Formula, state_ord, States, is_satisfied_by, location_formula}
use scico_d.Automata.AtaFormula.Simplification.{
  create_conjunction, create_disjunction, is_satisfied_by-create_conjunction,
  is_satisfied_by-create_disjunction,
}
use scico_d.Translation.{
  create_contains, create_negated_contains, until_transition, dual_until_transition,
}
use scico_d.Translation.Constraints.{
  lies_within, is_satisfied_by-create_contains_within, is_satisfied_by-create_negated_contains,
}
use scico_d.Translation.Init.{evaluate, is_pending, init_evaluates}

module _ {κ} {P V : Type 0} {S : Type κ} ⦃o : Ord (MtlFormula P)⦄ ⦃v : Ord V⦄ ⦃t : TimeDomain V⦄
    (matches : P → S → Bool) (a : S) (s : States (MtlFormula P) V) (x : V)
    (front back : MtlFormula P) (i : Interval) where
  -- In any domain of valuations: for operands in positive normal form there is a transition formula
  -- for the until. A set of states satisfies it exactly if the right operand holds and the valuation
  -- lies within the interval, or the left operand holds and the until remains at the current
  -- valuation.
  pub until_transition_satisfied :
      IsPositive front
      → IsPositive back
      → (phi : Formula (MtlFormula P)) × (until_transition matches front back i a ≡ ok phi)
        × (is_satisfied_by phi s x ≡ (
            (evaluate matches (is_pending s x false) back a && lies_within i x)
            || (evaluate matches (is_pending s x false) front a
                && member (record { location = luntil front back i; clock_valuation = x }) s)))
  unfolding until_transition is_satisfied_by
  until_transition_satisfied hf hb =
      let (f, ef, sf) = init_evaluates matches front a false s x hf in
      let (b, eb, sb) = init_evaluates matches back a false s x hb in
      let now = create_conjunction b (create_contains i) in
      let later = create_conjunction f (location_formula (luntil front back i)) in
      (
        create_disjunction now later,
        rw (ef, eb),
        rw (
          is_satisfied_by-create_disjunction now later s x,
          is_satisfied_by-create_conjunction b (create_contains i) s x,
          is_satisfied_by-create_conjunction f (location_formula (luntil front back i)) s x,
          is_satisfied_by-create_contains_within i s x,
          sf,
          sb,
        ),
      )

  -- In any domain of valuations: for operands in positive normal form there is a transition formula
  -- for the dual until. A set of states satisfies it exactly if the right operand holds or the
  -- valuation does not lie within the interval, and moreover the left operand holds or the dual
  -- until remains at the current valuation.
  pub dual_until_transition_satisfied :
      IsPositive front
      → IsPositive back
      → (phi : Formula (MtlFormula P)) × (dual_until_transition matches front back i a ≡ ok phi)
        × (is_satisfied_by phi s x ≡ (
            (evaluate matches (is_pending s x false) back a || not (lies_within i x))
            && (evaluate matches (is_pending s x false) front a
                || member (record { location = ldual_until front back i; clock_valuation = x }) s)))
  unfolding dual_until_transition is_satisfied_by
  dual_until_transition_satisfied hf hb =
      let (f, ef, sf) = init_evaluates matches front a false s x hf in
      let (b, eb, sb) = init_evaluates matches back a false s x hb in
      let now = create_disjunction b (create_negated_contains i) in
      let later = create_disjunction f (location_formula (ldual_until front back i)) in
      (
        create_conjunction now later,
        rw (ef, eb),
        rw (
          is_satisfied_by-create_conjunction now later s x,
          is_satisfied_by-create_disjunction b (create_negated_contains i) s x,
          is_satisfied_by-create_disjunction f (location_formula (ldual_until front back i)) s x,
          is_satisfied_by-create_negated_contains i s x,
          is_satisfied_by-create_contains_within i s x,
          sf,
          sb,
        ),
      )
