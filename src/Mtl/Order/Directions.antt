-- ===== src/Mtl/Order/Directions.antt =====
-- src/mtl/include/mtl/MTLFormula.hpp: the two directions of the comparison agree.
use scico_d.Prelude.{ℕ, zero, suc, ◌<◌, Ord, ◌≡◌, refl, arith}
use scico_d.Mtl.Formula.{MtlFormula, Formulas, nil, cons}
use scico_d.Mtl.Order.{lt_formula, lt_formulas, gt_formula, gt_formulas}
use scico_d.Mtl.Order.Keys.{operands_of, size, sizes, sizes-operands_of, lt_by_key, gt_by_key}

module _ {ℓ} {P : Type ℓ} ⦃o : Ord P⦄ where
  abbrev Reversed : (f g : MtlFormula P) → Type 0
  Reversed f g = (gt_formula f g ≡ lt_formula g f) × (gt_formula g f ≡ lt_formula f g)

  operands-Reversed :
      (fs gs : Formulas P)
      → ((f g : MtlFormula P) → size f < sizes fs → Reversed f g)
      → (gt_formulas fs gs ≡ lt_formulas gs fs) × (gt_formulas gs fs ≡ lt_formulas fs gs)
  unfolding lt_formulas gt_formulas size
  operands-Reversed nil nil ih = (refl, refl)
  operands-Reversed nil (cons g gs) ih = (refl, refl)
  operands-Reversed (cons f fs) nil ih = (refl, refl)
  operands-Reversed (cons f fs) (cons g gs) ih =
      let (a, b) = ih f g (omega arith) in
      let (c, d) = operands-Reversed fs gs (λ x y h. ih x y (omega arith)) in
      (rw (a, b, c), rw (a, b, d))

  formulas-Reversed : (n : ℕ) (f g : MtlFormula P) → size f < n → Reversed f g
  formulas-Reversed zero f g h = absurd (omega arith)
  formulas-Reversed (suc n) f g h =
      let (a, b) =
        operands-Reversed (operands_of f) (operands_of g)
          (λ x y k. formulas-Reversed n x y (omega (arith, sizes-operands_of f))) in
      (rw (gt_by_key f g, lt_by_key g f, a), rw (gt_by_key g f, lt_by_key f g, b))

  -- The comparison in the other direction is the comparison with swapped arguments.
  pub gt_formula-lt_formula : (f g : MtlFormula P) → gt_formula f g ≡ lt_formula g f
  gt_formula-lt_formula f g = (formulas-Reversed (suc (size f)) f g (omega arith)).0
