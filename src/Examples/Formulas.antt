-- ===== src/Examples/Formulas.antt =====
-- MTL formulas and words over numbers as propositions.
use scico_d.Prelude.{
  ℕ, ◌≡◌, ◌↔◌, refl, true, false, arith, [], ◌∷◌, nat_ord, ◌&&◌, ◌||◌, ◌==◌, member, insert,
  insert_all,
}
use scico_d.Utilities.Interval.{Interval, weak_interval, default_interval, contains}
use scico_d.Mtl.Formula.{
  MtlFormula, prop, land, lor, lneg, luntil, nil, cons, conjunction, disjunction,
  get_largest_constant, HasIntervals,
}
use scico_d.Mtl.Order.{lt_formula, get_operator}
use scico_d.Mtl.Subformulas.{get_closure}
use scico_d.Mtl.Subformulas.Members.{is_subformula, member-get_closure}
use scico_d.Mtl.Order.Laws.{formula_ord, lt_formula_trans, lt_formula_total}
use scico_d.Mtl.NormalForm.{to_positive_normal_form}
use scico_d.Mtl.NormalForm.Shape.{
  IsPositive, to_positive_normal_form-IsPositive, to_positive_normal_form_stable,
}
use scico_d.Mtl.NormalForm.Meaning.{satisfies_at-to_positive_normal_form, negated_until_differs}
use scico_d.Mtl.NormalForm.Constants.{
  get_largest_constant-to_positive_normal_form, followed_by, get_largest_constant-last_operand,
}
use scico_d.Mtl.Satisfaction.{MtlWord, in_time, satisfies_at, satisfies}
use scico_d.Mtl.Satisfaction.Until.{FirstWitness, satisfies_at-luntil_iff}

abbrev word : MtlWord ℕ
word = ((1 ∷ []), 0) ∷ ((1 ∷ []), 3) ∷ ((2 ∷ []), 5) ∷ []

abbrev early : Interval
early = weak_interval 0 2

abbrev one_until_two : Interval → MtlFormula ℕ
one_until_two duration = luntil (prop 1) (prop 2) duration

satisfies_at-luntil_iff_example :
    (satisfies_at word (one_until_two early) 0 ≡ true)
    ↔ FirstWitness
        (satisfies_at word (prop 1))
        (satisfies_at word (prop 2))
        (in_time word early 0)
        1
        3
satisfies_at-luntil_iff_example =
    satisfies_at-luntil_iff word (prop 1) (prop 2) early 0 (omega arith)

until_in_time : satisfies word (one_until_two (weak_interval 4 5)) ≡ true
unfolding satisfies contains weak_interval
until_in_time = refl

abbrev negated_example : MtlFormula ℕ
negated_example = lneg (conjunction (prop 1) (lneg (one_until_two early)))

to_positive_normal_form-IsPositive_example : IsPositive (to_positive_normal_form negated_example)
to_positive_normal_form-IsPositive_example = to_positive_normal_form-IsPositive negated_example

to_positive_normal_form_stable_at_values :
    to_positive_normal_form (disjunction (lneg (prop 1)) (one_until_two early))
    ≡ disjunction (lneg (prop 1)) (one_until_two early)
unfolding IsPositive
to_positive_normal_form_stable_at_values =
    to_positive_normal_form_stable (disjunction (lneg (prop 1)) (one_until_two early))
      (tt, ((tt, tt), tt))

satisfies_at-to_positive_normal_form_example :
    satisfies_at word (to_positive_normal_form (lneg (one_until_two default_interval))) 0
    ≡ satisfies_at word (lneg (one_until_two default_interval)) 0
unfolding HasIntervals contains
satisfies_at-to_positive_normal_form_example =
    satisfies_at-to_positive_normal_form word (lneg (one_until_two default_interval)) 0
      ((λ d. refl), tt, tt)

negated_until_differs_example :
    (satisfies (((1 ∷ []), 0) ∷ ((2 ∷ []), 3) ∷ []) (lneg (one_until_two early)) ≡ true)
    × (satisfies
          (((1 ∷ []), 0) ∷ ((2 ∷ []), 3) ∷ [])
          (to_positive_normal_form (lneg (one_until_two early)))
        ≡ false)
unfolding contains weak_interval
negated_until_differs_example =
    negated_until_differs (((1 ∷ []), 0) ∷ ((2 ∷ []), 3) ∷ []) 1 2 early (omega arith) refl refl

get_largest_constant-to_positive_normal_form_at_values :
    get_largest_constant (to_positive_normal_form negated_example)
    ≡ get_largest_constant negated_example
get_largest_constant-to_positive_normal_form_at_values =
    get_largest_constant-to_positive_normal_form negated_example

get_largest_constant-last_operand_example :
    (get_largest_constant (land (followed_by (cons (one_until_two early) nil) (prop 1)))
      ≡ get_largest_constant {P = ℕ} (prop 1))
    × (get_largest_constant (lor (followed_by (cons (one_until_two early) nil) (prop 1)))
        ≡ get_largest_constant {P = ℕ} (prop 1))
get_largest_constant-last_operand_example =
    get_largest_constant-last_operand (cons (one_until_two early) nil) (prop 1)

-- The constant 2 of the until is lost.
constant_lost : get_largest_constant (conjunction (one_until_two early) (prop 1)) ≡ 0
unfolding get_largest_constant
constant_lost = refl

-- A negation comes after a conjunction and before a proposition.
lt_formula_trans_at_values : lt_formula {P = ℕ} (conjunction (prop 2) (prop 1)) (prop 3) ≡ true
unfolding lt_formula
lt_formula_trans_at_values =
    lt_formula_trans {P = ℕ} (conjunction (prop 2) (prop 1)) (lneg (prop 9)) (prop 3) refl refl

lt_formula_total_at_values :
    conjunction (prop 1) (one_until_two early) ≡ conjunction (prop 1) (one_until_two early)
unfolding lt_formula weak_interval
lt_formula_total_at_values =
    lt_formula_total (conjunction (prop 1) (one_until_two early))
      (conjunction (prop 1) (one_until_two early)) refl refl

member-get_closure_at_values : member (one_until_two early) (get_closure negated_example) ≡ (
    ((get_operator (one_until_two early) == 3) || (get_operator (one_until_two early) == 4))
    && is_subformula (one_until_two early) negated_example)
member-get_closure_at_values = member-get_closure (one_until_two early) negated_example

until_in_closure : member (one_until_two early) (get_closure negated_example) ≡ true
unfolding get_closure insert insert_all weak_interval lt_formula
until_in_closure = refl
