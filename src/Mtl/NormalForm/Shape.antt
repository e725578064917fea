-- ===== src/Mtl/NormalForm/Shape.antt =====
-- src/mtl/include/mtl/MTLFormula.hpp: the shape of positive normal forms.
use scico_d.Prelude.{◌≡◌, refl, ap, ap₂}
use scico_d.Mtl.Formula.{
  MtlFormula, Formulas, ltrue, lfalse, prop, land, lor, lneg, luntil, ldual_until, nil, cons,
}
use scico_d.Mtl.NormalForm.{
  to_positive_normal_form, negated_normal_form, normal_forms, negated_normal_forms,
}

-- Negations stand in front of TRUE, FALSE and propositions only.
abbrev pub IsLiteral {ℓ} : {P : Type ℓ} → MtlFormula P → Type 0
IsLiteral ltrue = Unit
IsLiteral lfalse = Unit
IsLiteral (prop p) = Unit
IsLiteral _ = ⊥

unfoldable mutual
  pub IsPositive {ℓ} : {P : Type ℓ} → MtlFormula P → Type 0
  IsPositive ltrue = Unit
  IsPositive lfalse = Unit
  IsPositive (prop p) = Unit
  IsPositive (land fs) = ArePositive fs
  IsPositive (lor fs) = ArePositive fs
  IsPositive (lneg f) = IsLiteral f
  IsPositive (luntil f g i) = IsPositive f × IsPositive g
  IsPositive (ldual_until f g i) = IsPositive f × IsPositive g

  pub ArePositive {ℓ} : {P : Type ℓ} → Formulas P → Type 0
  ArePositive nil = Unit
  ArePositive (cons f fs) = IsPositive f × ArePositive fs

mutual
  unfolding to_positive_normal_form negated_normal_form normal_forms negated_normal_forms IsPositive
      ArePositive

  normal {ℓ} : {P : Type ℓ} (f : MtlFormula P) → IsPositive (to_positive_normal_form f)
  normal ltrue = tt
  normal lfalse = tt
  normal (prop p) = tt
  normal (land fs) = normals fs
  normal (lor fs) = normals fs
  normal (lneg f) = negated f
  normal (luntil f g i) = (normal f, normal g)
  normal (ldual_until f g i) = (normal f, normal g)

  negated {ℓ} : {P : Type ℓ} (f : MtlFormula P) → IsPositive (negated_normal_form f)
  negated ltrue = tt
  negated lfalse = tt
  negated (prop p) = tt
  negated (land fs) = negateds fs
  negated (lor fs) = negateds fs
  negated (lneg f) = normal f
  negated (luntil f g i) = (negated f, negated g)
  negated (ldual_until f g i) = (negated f, negated g)

  normals {ℓ} : {P : Type ℓ} (fs : Formulas P) → ArePositive (normal_forms fs)
  normals nil = tt
  normals (cons f fs) = (normal f, normals fs)

  negateds {ℓ} : {P : Type ℓ} (fs : Formulas P) → ArePositive (negated_normal_forms fs)
  negateds nil = tt
  negateds (cons f fs) = (negated f, negateds fs)

-- The normal form has negations in front of TRUE, FALSE and propositions only.
pub to_positive_normal_form-IsPositive {ℓ} :
    {P : Type ℓ} (f : MtlFormula P) → IsPositive (to_positive_normal_form f)
to_positive_normal_form-IsPositive f = normal f

negated-literal {ℓ} : {P : Type ℓ} (f : MtlFormula P) → IsLiteral f → negated_normal_form f ≡ lneg f
unfolding negated_normal_form
negated-literal ltrue h = refl
negated-literal lfalse h = refl
negated-literal (prop p) h = refl
negated-literal (land fs) h = absurd h
negated-literal (lor fs) h = absurd h
negated-literal (lneg f) h = absurd h
negated-literal (luntil f g i) h = absurd h
negated-literal (ldual_until f g i) h = absurd h

mutual
  unfolding to_positive_normal_form negated_normal_form normal_forms IsPositive ArePositive

  stable {ℓ} : {P : Type ℓ} (f : MtlFormula P) → IsPositive f → to_positive_normal_form f ≡ f
  stable ltrue h = refl
  stable lfalse h = refl
  stable (prop p) h = refl
  stable (land fs) h = ap land (stables fs h)
  stable (lor fs) h = ap lor (stables fs h)
  stable (lneg f) h = negated-literal f h
  stable (luntil f g i) h = ap₂ (λ a b. luntil a b i) (stable f h.0) (stable g h.1)
  stable (ldual_until f g i) h = ap₂ (λ a b. ldual_until a b i) (stable f h.0) (stable g h.1)

  stables {ℓ} : {P : Type ℓ} (fs : Formulas P) → ArePositive fs → normal_forms fs ≡ fs
  stables nil h = refl
  stables (cons f fs) h = ap₂ cons (stable f h.0) (stables fs h.1)

-- A formula in normal form is left as it is.
pub to_positive_normal_form_stable {ℓ} :
    {P : Type ℓ} (f : MtlFormula P) → IsPositive f → to_positive_normal_form f ≡ f
to_positive_normal_form_stable f h = stable f h
