-- ===== src/Translation/Init.antt =====
-- src/mtl_ata_translation/include/mtl_ata_translation/translator.hpp: `init` on formulas in positive
-- normal form, against the evaluation of the formula at the current symbol.
use scico_d.Prelude.{
  Bool, true, false, not, ◌≡◌, ◌&&◌, ◌||◌, refl, Ord, List, [], ◌∷◌, ok, member, all_of, any_of,
  if◌then◌else◌, Bool-cases, inl, inr,
}
use scico_d.Mtl.Formula.{
  MtlFormula, Formulas, ltrue, lfalse, prop, land, lor, lneg, luntil, ldual_until, nil, cons,
}
use scico_d.Mtl.NormalForm.Shape.{IsLiteral, IsPositive, ArePositive}
use scico_d.Automata.ClockConstraint.{TimeDomain}
use scico_d.Automata.AtaFormula.{
  Formula, state_ord, States, is_satisfied_by, true_formula, false_formula,
}
use scico_d.Automata.AtaFormula.Simplification.{
  create_conjunctions, create_disjunctions, create_satisfied,
}
use scico_d.Translation.{init, init_operands, init_negated, constant_formula, location_of}

-- The formula with propositions read from the symbol, and untils and dual untils from the states.
unfoldable mutual
  pub evaluate {ℓ κ} :
      {P : Type ℓ} {S : Type κ} → (P → S → Bool) → (MtlFormula P → Bool) → MtlFormula P → S → Bool
  evaluate matches pending ltrue a = true
  evaluate matches pending lfalse a = false
  evaluate matches pending (prop p) a = matches p a
  evaluate matches pending (land fs) a = all_evaluate matches pending fs a
  evaluate matches pending (lor fs) a = any_evaluate matches pending fs a
  evaluate matches pending (lneg f) a = not (evaluate matches pending f a)
  evaluate matches pending (luntil f g i) a = pending (luntil f g i)
  evaluate matches pending (ldual_until f g i) a = pending (ldual_until f g i)

  pub all_evaluate {ℓ κ} :
      {P : Type ℓ} {S : Type κ} → (P → S → Bool) → (MtlFormula P → Bool) → Formulas P → S → Bool
  all_evaluate matches pending nil a = true
  all_evaluate matches pending (cons f fs) a =
      evaluate matches pending f a && all_evaluate matches pending fs a

  pub any_evaluate {ℓ κ} :
      {P : Type ℓ} {S : Type κ} → (P → S → Bool) → (MtlFormula P → Bool) → Formulas P → S → Bool
  any_evaluate matches pending nil a = false
  any_evaluate matches pending (cons f fs) a =
      evaluate matches pending f a || any_evaluate matches pending fs a

-- The states have the until at the current valuation in the first step, and at 0 later.
abbrev pub is_pending {ℓ} :
    {P V : Type ℓ} ⦃o : Ord (MtlFormula P)⦄ ⦃v : Ord V⦄ ⦃t : TimeDomain V⦄
    → States (MtlFormula P) V
    → V
    → Bool
    → MtlFormula P
    → Bool
is_pending ⦃t = t⦄ s x first u =
    member (record { location = u; clock_valuation = if first then x else t.origin }) s

module _ {ℓ κ} {P V : Type ℓ} {S : Type κ} ⦃o : Ord (MtlFormula P)⦄ ⦃v : Ord V⦄ ⦃t : TimeDomain V⦄
    (matches : P → S → Bool) (a : S) (first : Bool) (s : States (MtlFormula P) V) (x : V) where
  location_of_satisfied :
      (u : MtlFormula P) → is_satisfied_by (location_of u first) s x ≡ is_pending s x first u
  unfolding is_satisfied_by
  location_of_satisfied u = elim (Bool-cases first) [ inl e ↦ rw e | inr e ↦ rw e ]

  constant_formula_satisfied : (b : Bool) → is_satisfied_by (constant_formula b) s x ≡ b
  unfolding is_satisfied_by
  constant_formula_satisfied true = refl
  constant_formula_satisfied false = refl

  negated_literal :
      (f : MtlFormula P)
      → IsLiteral f
      → (phi : Formula (MtlFormula P)) × (init_negated matches f a ≡ ok phi)
        × (is_satisfied_by phi s x ≡ not (evaluate matches (is_pending s x first) f a))
  unfolding is_satisfied_by evaluate
  negated_literal ltrue h = (false_formula, refl, refl)
  negated_literal lfalse h = (true_formula, refl, refl)
  negated_literal (prop p) h =
      (constant_formula (not (matches p a)), refl, constant_formula_satisfied (not (matches p a)))
  negated_literal (land fs) h = absurd h
  negated_literal (lor fs) h = absurd h
  negated_literal (lneg f) h = absurd h
  negated_literal (luntil f g i) h = absurd h
  negated_literal (ldual_until f g i) h = absurd h

  mutual
    unfolding init evaluate IsPositive init_operands all_evaluate any_evaluate ArePositive
        is_satisfied_by

    evaluates :
        (f : MtlFormula P)
        → IsPositive f
        → (phi : Formula (MtlFormula P)) × (init matches f a first ≡ ok phi)
          × (is_satisfied_by phi s x ≡ evaluate matches (is_pending s x first) f a)
    evaluates ltrue h = (true_formula, refl, refl)
    evaluates lfalse h = (false_formula, refl, refl)
    evaluates (prop p) h =
        (constant_formula (matches p a), refl, constant_formula_satisfied (matches p a))
    evaluates (land fs) h =
        let (phis, e, all, any) = operands fs h in
        (create_conjunctions phis, rw e, rw (create_satisfied phis s x).0 all)
    evaluates (lor fs) h =
        let (phis, e, all, any) = operands fs h in
        (create_disjunctions phis, rw e, rw (create_satisfied phis s x).1 any)
    evaluates (lneg f) h = negated_literal f h
    evaluates (luntil f g i) h =
        (location_of (luntil f g i) first, refl, location_of_satisfied (luntil f g i))
    evaluates (ldual_until f g i) h =
        (location_of (ldual_until f g i) first, refl, location_of_satisfied (ldual_until f g i))

    operands :
        (fs : Formulas P)
        → ArePositive fs
        → (phis : List (Formula (MtlFormula P))) × (init_operands matches fs a first ≡ ok phis)
          × (all_of (λ phi. is_satisfied_by phi s x) phis
              ≡ all_evaluate matches (is_pending s x first) fs a)
          × (any_of (λ phi. is_satisfied_by phi s x) phis
              ≡ any_evaluate matches (is_pending s x first) fs a)
    operands nil h = ([], refl, refl, refl)
    operands (cons f fs) (h, hs) =
        let (phi, e, one) = evaluates f h in
        let (phis, es, all, any) = operands fs hs in
        (phi ∷ phis, rw (e, es), rw (one, all), rw (one, any))

-- On a formula in positive normal form `init` returns a formula, and a set of states satisfies it
-- exactly if the formula holds with propositions read from the symbol, and untils and dual untils
-- as locations: at the current valuation in the first step, and at 0 otherwise.
pub init_evaluates {ℓ κ} :
    {P V : Type ℓ} {S : Type κ} ⦃o : Ord (MtlFormula P)⦄ ⦃v : Ord V⦄ ⦃t : TimeDomain V⦄
    (matches : P → S → Bool) (f : MtlFormula P) (a : S) (first : Bool) (s : States (MtlFormula P) V)
    (x : V)
    → IsPositive f
    → (phi : Formula (MtlFormula P)) × (init matches f a first ≡ ok phi)
      × (is_satisfied_by phi s x ≡ evaluate matches (is_pending s x first) f a)
init_evaluates matches f a first s x h = evaluates matches a first s x f h
