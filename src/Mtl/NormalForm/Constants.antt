-- ===== src/Mtl/NormalForm/Constants.antt =====
-- src/mtl/include/mtl/MTLFormula.hpp: `get_largest_constant`.
use scico_d.Prelude.{ℕ, ◌≡◌, ◌∙◌, refl, ap, ap₂, max, arith}
use scico_d.Mtl.Formula.{
  MtlFormula, Formulas, ltrue, lfalse, prop, land, lor, lneg, luntil, ldual_until, nil, cons,
  largest_bound, get_largest_constant, largest_of_operands,
}
use scico_d.Mtl.NormalForm.{
  to_positive_normal_form, negated_normal_form, normal_forms, negated_normal_forms,
}

mutual
  unfolding to_positive_normal_form negated_normal_form normal_forms negated_normal_forms
      get_largest_constant largest_of_operands

  normal {ℓ} :
      {P : Type ℓ} (f : MtlFormula P)
      → get_largest_constant (to_positive_normal_form f) ≡ get_largest_constant f
  normal ltrue = refl
  normal lfalse = refl
  normal (prop p) = refl
  normal (land fs) = normals fs 0
  normal (lor fs) = normals fs 0
  normal (lneg f) = negated f
  normal (luntil f g i) = ap₂ (λ a b. max (max (largest_bound i) a) b) (normal f) (normal g)
  normal (ldual_until f g i) = ap₂ (λ a b. max (max (largest_bound i) a) b) (normal f) (normal g)

  negated {ℓ} :
      {P : Type ℓ} (f : MtlFormula P)
      → get_largest_constant (negated_normal_form f) ≡ get_largest_constant f
  negated ltrue = refl
  negated lfalse = refl
  negated (prop p) = refl
  negated (land fs) = negateds fs 0
  negated (lor fs) = negateds fs 0
  negated (lneg f) = normal f
  negated (luntil f g i) = ap₂ (λ a b. max (max (largest_bound i) a) b) (negated f) (negated g)
  negated (ldual_until f g i) = ap₂ (λ a b. max (max (largest_bound i) a) b) (negated f) (negated g)

  normals {ℓ} :
      {P : Type ℓ} (fs : Formulas P) (k : ℕ)
      → largest_of_operands k (normal_forms fs) ≡ largest_of_operands k fs
  normals nil k = refl
  normals (cons f fs) k =
      normals fs (max 0 (get_largest_constant (to_positive_normal_form f)))
      ∙ ap (λ c. largest_of_operands (max 0 c) fs) (normal f)

  negateds {ℓ} :
      {P : Type ℓ} (fs : Formulas P) (k : ℕ)
      → largest_of_operands k (negated_normal_forms fs) ≡ largest_of_operands k fs
  negateds nil k = refl
  negateds (cons f fs) k =
      negateds fs (max 0 (get_largest_constant (negated_normal_form f)))
      ∙ ap (λ c. largest_of_operands (max 0 c) fs) (negated f)

-- The normal form has the largest constant of the formula.
pub get_largest_constant-to_positive_normal_form {ℓ} :
    {P : Type ℓ} (f : MtlFormula P)
    → get_largest_constant (to_positive_normal_form f) ≡ get_largest_constant f
get_largest_constant-to_positive_normal_form f = normal f

-- `fs` followed by one more operand.
abbrev pub followed_by {ℓ} : {P : Type ℓ} → Formulas P → MtlFormula P → Formulas P
followed_by nil g = cons g nil
followed_by (cons f fs) g = cons f (followed_by fs g)

largest_of_operands-followed_by {ℓ} :
    {P : Type ℓ} (fs : Formulas P) (g : MtlFormula P) (k : ℕ)
    → largest_of_operands k (followed_by fs g) ≡ get_largest_constant g
unfolding largest_of_operands
largest_of_operands-followed_by nil g k = omega arith
largest_of_operands-followed_by (cons f fs) g k =
    largest_of_operands-followed_by fs g (max 0 (get_largest_constant f))

-- The largest constant of a conjunction or disjunction is that of its last operand,
-- whatever the operands before it are.
pub get_largest_constant-last_operand {ℓ} :
    {P : Type ℓ} (fs : Formulas P) (g : MtlFormula P)
    → (get_largest_constant (land (followed_by fs g)) ≡ get_largest_constant g)
      × (get_largest_constant (lor (followed_by fs g)) ≡ get_largest_constant g)
unfolding get_largest_constant
get_largest_constant-last_operand fs g =
    (largest_of_operands-followed_by fs g 0, largest_of_operands-followed_by fs g 0)
