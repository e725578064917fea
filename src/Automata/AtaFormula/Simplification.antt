-- ===== src/Automata/AtaFormula/Simplification.antt =====
-- src/automata/include/automata/ata_formula.hpp: `create_conjunction` and `create_disjunction`,
-- which leave out TRUE and FALSE.
use scico_d.Prelude.{
  Bool, true, false, ◌&&◌, ◌||◌, List, [], ◌∷◌, Ord, ◌≡◌, refl, arith, if◌then◌else◌, all_of,
  any_of,
}
use scico_d.Automata.ClockConstraint.{TimeDomain}
use scico_d.Automata.AtaFormula.{
  Formula, true_formula, false_formula, conjunction_formula, disjunction_formula, States,
  is_satisfied_by,
}

module _ {ℓ} {L : Type ℓ} where
  -- `*f == TrueFormula{}` and `*f == FalseFormula{}`: formulas of different classes differ, and
  -- these classes have no fields.
  abbrev pub is_true_formula : Formula L → Bool
  is_true_formula true_formula = true
  is_true_formula _ = false

  abbrev pub is_false_formula : Formula L → Bool
  is_false_formula false_formula = true
  is_false_formula _ = false

  unfoldable pub create_conjunction : Formula L → Formula L → Formula L
  create_conjunction conjunct1 conjunct2 =
      if is_false_formula conjunct1 || is_false_formula conjunct2
      then false_formula
      else if is_true_formula conjunct1
      then conjunct2
      else if is_true_formula conjunct2
      then conjunct1
      else conjunction_formula conjunct1 conjunct2

  unfoldable pub create_disjunction : Formula L → Formula L → Formula L
  create_disjunction disjunct1 disjunct2 =
      if is_true_formula disjunct1 || is_true_formula disjunct2
      then true_formula
      else if is_false_formula disjunct1
      then disjunct2
      else if is_false_formula disjunct2
      then disjunct1
      else disjunction_formula disjunct1 disjunct2

  -- The overloads on vectors, which recur from the first element.
  unfoldable pub create_conjunctions : List (Formula L) → Formula L
  unfolding create_conjunction
  create_conjunctions [] = true_formula
  create_conjunctions (f ∷ fs) = create_conjunction f (create_conjunctions fs)

  unfoldable pub create_disjunctions : List (Formula L) → Formula L
  unfolding create_disjunction
  create_disjunctions [] = false_formula
  create_disjunctions (f ∷ fs) = create_disjunction f (create_disjunctions fs)

module _ {ℓ} {L V : Type ℓ} ⦃l : Ord L⦄ ⦃v : Ord V⦄ ⦃t : TimeDomain V⦄ where
  is_true_formula-satisfied :
      (f : Formula L) (s : States L V) (x : V)
      → is_true_formula f ≡ true
      → is_satisfied_by f s x ≡ true
  unfolding is_satisfied_by
  is_true_formula-satisfied true_formula s x h = refl
  is_true_formula-satisfied _ s x h = cc

  is_false_formula-satisfied :
      (f : Formula L) (s : States L V) (x : V)
      → is_false_formula f ≡ true
      → is_satisfied_by f s x ≡ false
  unfolding is_satisfied_by
  is_false_formula-satisfied false_formula s x h = refl
  is_false_formula-satisfied _ s x h = cc

  pub is_satisfied_by-create_conjunction :
      (f g : Formula L) (s : States L V) (x : V)
      → is_satisfied_by (create_conjunction f g) s x
        ≡ (is_satisfied_by f s x && is_satisfied_by g s x)
  unfolding create_conjunction is_satisfied_by
  is_satisfied_by-create_conjunction f g s x = ground (
    arith,
    is_true_formula-satisfied f s x,
    is_true_formula-satisfied g s x,
    is_false_formula-satisfied f s x,
    is_false_formula-satisfied g s x,
  )

  pub is_satisfied_by-create_disjunction :
      (f g : Formula L) (s : States L V) (x : V)
      → is_satisfied_by (create_disjunction f g) s x
        ≡ (is_satisfied_by f s x || is_satisfied_by g s x)
  unfolding create_disjunction is_satisfied_by
  is_satisfied_by-create_disjunction f g s x = ground (
    arith,
    is_true_formula-satisfied f s x,
    is_true_formula-satisfied g s x,
    is_false_formula-satisfied f s x,
    is_false_formula-satisfied g s x,
  )

  create_conjunctions_satisfied :
      (fs : List (Formula L)) (s : States L V) (x : V)
      → is_satisfied_by (create_conjunctions fs) s x ≡ all_of (λ f. is_satisfied_by f s x) fs
  unfolding create_conjunctions is_satisfied_by
  create_conjunctions_satisfied [] s x = refl
  create_conjunctions_satisfied (f ∷ fs) s x = ground (
    arith,
    is_satisfied_by-create_conjunction f (create_conjunctions fs) s x,
    create_conjunctions_satisfied fs s x,
  )

  create_disjunctions_satisfied :
      (fs : List (Formula L)) (s : States L V) (x : V)
      → is_satisfied_by (create_disjunctions fs) s x ≡ any_of (λ f. is_satisfied_by f s x) fs
  unfolding create_disjunctions is_satisfied_by
  create_disjunctions_satisfied [] s x = refl
  create_disjunctions_satisfied (f ∷ fs) s x = ground (
    arith,
    is_satisfied_by-create_disjunction f (create_disjunctions fs) s x,
    create_disjunctions_satisfied fs s x,
  )

  -- A simplified conjunction is satisfied exactly if all conjuncts are, and a simplified
  -- disjunction exactly if some disjunct is.
  pub create_satisfied :
      (fs : List (Formula L)) (s : States L V) (x : V)
      → (is_satisfied_by (create_conjunctions fs) s x ≡ all_of (λ f. is_satisfied_by f s x) fs)
        × (is_satisfied_by (create_disjunctions fs) s x ≡ any_of (λ f. is_satisfied_by f s x) fs)
  create_satisfied fs s x =
      (create_conjunctions_satisfied fs s x, create_disjunctions_satisfied fs s x)
