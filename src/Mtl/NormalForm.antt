-- ===== src/Mtl/NormalForm.antt =====
-- src/mtl/include/mtl/MTLFormula.hpp: `to_positive_normal_form`.
pub mod Shape
pub mod Meaning
pub mod Constants
use scico_d.Mtl.Formula.{
  MtlFormula, Formulas, ltrue, lfalse, prop, land, lor, lneg, luntil, ldual_until, nil, cons,
}

-- `negated_normal_form f` is `to_positive_normal_form` of `lneg f`: the case LOP::LNEG, which
-- switches on the operator of the operand.
unfoldable mutual
  pub to_positive_normal_form {ℓ} : {P : Type ℓ} → MtlFormula P → MtlFormula P
  to_positive_normal_form ltrue = ltrue
  to_positive_normal_form lfalse = lfalse
  to_positive_normal_form (prop p) = prop p
  to_positive_normal_form (lneg f) = negated_normal_form f
  to_positive_normal_form (land fs) = land (normal_forms fs)
  to_positive_normal_form (lor fs) = lor (normal_forms fs)
  to_positive_normal_form (luntil f g i) =
      luntil (to_positive_normal_form f) (to_positive_normal_form g) i
  to_positive_normal_form (ldual_until f g i) =
      ldual_until (to_positive_normal_form f) (to_positive_normal_form g) i

  pub negated_normal_form {ℓ} : {P : Type ℓ} → MtlFormula P → MtlFormula P
  negated_normal_form ltrue = lneg ltrue
  negated_normal_form lfalse = lneg lfalse
  negated_normal_form (prop p) = lneg (prop p)
  negated_normal_form (lneg f) = to_positive_normal_form f
  negated_normal_form (land fs) = lor (negated_normal_forms fs)
  negated_normal_form (lor fs) = land (negated_normal_forms fs)
  negated_normal_form (luntil f g i) = ldual_until (negated_normal_form f) (negated_normal_form g) i
  negated_normal_form (ldual_until f g i) = luntil (negated_normal_form f) (negated_normal_form g) i

  pub normal_forms {ℓ} : {P : Type ℓ} → Formulas P → Formulas P
  normal_forms nil = nil
  normal_forms (cons f fs) = cons (to_positive_normal_form f) (normal_forms fs)

  pub negated_normal_forms {ℓ} : {P : Type ℓ} → Formulas P → Formulas P
  negated_normal_forms nil = nil
  negated_normal_forms (cons f fs) = cons (negated_normal_form f) (negated_normal_forms fs)
