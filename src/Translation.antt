-- ===== src/Translation.antt =====
-- src/mtl_ata_translation/include/mtl_ata_translation/translator.hpp: the clock constraints of an
-- interval, `init`, and the transition formulas of untils and dual untils.
-- A symbol of type `S` is read through `matches`: membership in the set of propositions if the
-- translation is state-based, and equality otherwise.
pub mod Constraints
pub mod Init
pub mod Transitions
pub mod Automaton
use scico_d.Prelude.{
  Bool, true, false, not, List, [], ◌∷◌, Result, ok, err, if◌then◌else◌, Ord, member, eqb,
}
use scico_d.Utilities.Interval.{Interval, BoundType, weak, strict, infty}
use scico_d.Mtl.Formula.{
  MtlFormula, Formulas, ltrue, lfalse, prop, land, lor, lneg, luntil, ldual_until, nil, cons,
}
use scico_d.Automata.ClockConstraint.{less, less_equal, greater_equal, greater}
use scico_d.Automata.AtaFormula.{
  Formula, true_formula, false_formula, location_formula, clock_constraint_formula,
  reset_clock_formula,
}
use scico_d.Automata.AtaFormula.Simplification.{
  create_conjunction, create_disjunction, create_conjunctions, create_disjunctions,
}

module _ {ℓ} {L : Type ℓ} where
  abbrev pub lower_constraint : Interval → Formula L
  lower_constraint duration = elim duration.lower_bound_type [
    | infty ↦ true_formula
    | weak ↦ clock_constraint_formula (greater_equal duration.lower)
    | strict ↦ clock_constraint_formula (greater duration.lower)
  ]

  abbrev pub upper_constraint : Interval → Formula L
  upper_constraint duration = elim duration.upper_bound_type [
    | infty ↦ true_formula
    | weak ↦ clock_constraint_formula (less_equal duration.upper)
    | strict ↦ clock_constraint_formula (less duration.upper)
  ]

  unfoldable pub create_contains : Interval → Formula L
  create_contains duration =
      create_conjunction (lower_constraint duration) (upper_constraint duration)

  abbrev pub negated_lower_constraint : Interval → Formula L
  negated_lower_constraint duration = elim duration.lower_bound_type [
    | infty ↦ false_formula
    | weak ↦ clock_constraint_formula (less duration.lower)
    | strict ↦ clock_constraint_formula (less_equal duration.lower)
  ]

  abbrev pub negated_upper_constraint : Interval → Formula L
  negated_upper_constraint duration = elim duration.upper_bound_type [
    | infty ↦ false_formula
    | weak ↦ clock_constraint_formula (greater duration.upper)
    | strict ↦ clock_constraint_formula (greater_equal duration.upper)
  ]

  unfoldable pub create_negated_contains : Interval → Formula L
  create_negated_contains duration =
      create_disjunction (negated_lower_constraint duration) (negated_upper_constraint duration)

-- `state_based` and not.
abbrev pub contains_proposition {ℓ} : {P : Type ℓ} ⦃o : Ord P⦄ → P → List P → Bool
contains_proposition p symbol = member p symbol

abbrev pub is_proposition {ℓ} : {P : Type ℓ} ⦃o : Ord P⦄ → P → P → Bool
is_proposition p symbol = eqb p symbol

-- The exception for a negation of anything but TRUE, FALSE and propositions.
pub data TranslationError : Type 0 where
  not_in_positive_normal_form : TranslationError

abbrev pub constant_formula {ℓ} : {L : Type ℓ} → Bool → Formula L
constant_formula b = if b then true_formula else false_formula

-- The location of an until or dual until, whose clock is reset unless this is the first step.
abbrev pub location_of {ℓ} : {P : Type ℓ} → MtlFormula P → Bool → Formula (MtlFormula P)
location_of formula first =
    if first then location_formula formula else reset_clock_formula (location_formula formula)

abbrev pub append_init {ℓ κ} :
    {E : Type ℓ} {A : Type κ} → Result E A → Result E (List A) → Result E (List A)
append_init (err e) rest = err e
append_init (ok f) (err e) = err e
append_init (ok f) (ok fs) = ok (f ∷ fs)

abbrev pub combine_with {ℓ κ} :
    {E : Type ℓ} {A : Type κ} → (List A → A) → Result E (List A) → Result E A
combine_with create (err e) = err e
combine_with create (ok fs) = ok (create fs)

-- `init` of a negation, by the operator of its operand.
abbrev pub init_negated {ℓ κ} :
    {P : Type ℓ} {S : Type κ}
    → (P → S → Bool)
    → MtlFormula P
    → S
    → Result TranslationError (Formula (MtlFormula P))
init_negated matches ltrue symbol = ok false_formula
init_negated matches lfalse symbol = ok true_formula
init_negated matches (prop p) symbol = ok (constant_formula (not (matches p symbol)))
init_negated matches (land fs) symbol = err not_in_positive_normal_form
init_negated matches (lor fs) symbol = err not_in_positive_normal_form
init_negated matches (lneg f) symbol = err not_in_positive_normal_form
init_negated matches (luntil f g i) symbol = err not_in_positive_normal_form
init_negated matches (ldual_until f g i) symbol = err not_in_positive_normal_form

unfoldable mutual
  pub init {ℓ κ} :
      {P : Type ℓ} {S : Type κ}
      → (P → S → Bool)
      → MtlFormula P
      → S
      → Bool
      → Result TranslationError (Formula (MtlFormula P))
  init matches ltrue symbol first = ok true_formula
  init matches lfalse symbol first = ok false_formula
  init matches (luntil f g i) symbol first = ok (location_of (luntil f g i) first)
  init matches (ldual_until f g i) symbol first = ok (location_of (ldual_until f g i) first)
  init matches (land fs) symbol first =
      combine_with create_conjunctions (init_operands matches fs symbol first)
  init matches (lor fs) symbol first =
      combine_with create_disjunctions (init_operands matches fs symbol first)
  init matches (prop p) symbol first = ok (constant_formula (matches p symbol))
  init matches (lneg f) symbol first = init_negated matches f symbol

  -- The loops that push `init` of every operand.
  pub init_operands {ℓ κ} :
      {P : Type ℓ} {S : Type κ}
      → (P → S → Bool)
      → Formulas P
      → S
      → Bool
      → Result TranslationError (List (Formula (MtlFormula P)))
  init_operands matches nil symbol first = ok []
  init_operands matches (cons f fs) symbol first =
      append_init (init matches f symbol first) (init_operands matches fs symbol first)

-- The order in which the two operands are read does not matter: both throw the same exception.
abbrev pub with_both {ℓ κ} :
    {E : Type ℓ} {A : Type κ} → (A → A → A) → Result E A → Result E A → Result E A
with_both f (err e) b = err e
with_both f (ok a) (err e) = err e
with_both f (ok a) (ok b) = ok (f a b)

-- The transition formula of `luntil front back i` for a symbol.
unfoldable pub until_transition {ℓ κ} :
    {P : Type ℓ} {S : Type κ}
    → (P → S → Bool)
    → (front back : MtlFormula P) → Interval
    → S
    → Result TranslationError (Formula (MtlFormula P))
unfolding init create_contains
until_transition matches front back i symbol =
    with_both
      (λ b f.
        create_disjunction (create_conjunction b (create_contains i))
          (create_conjunction f (location_formula (luntil front back i))))
      (init matches back symbol false) (init matches front symbol false)

-- The transition formula of `ldual_until front back i` for a symbol.
unfoldable pub dual_until_transition {ℓ κ} :
    {P : Type ℓ} {S : Type κ}
    → (P → S → Bool)
    → (front back : MtlFormula P) → Interval
    → S
    → Result TranslationError (Formula (MtlFormula P))
unfolding init create_negated_contains
dual_until_transition matches front back i symbol =
    with_both
      (λ b f.
        create_conjunction (create_disjunction b (create_negated_contains i))
          (create_disjunction f (location_formula (ldual_until front back i))))
      (init matches back symbol false) (init matches front symbol false)
