-- ===== src/Mtl/Subformulas.antt =====
-- src/mtl/include/mtl/MTLFormula.hpp: `get_subformulas_of_type`;
-- src/mtl_ata_translation/include/mtl_ata_translation/translator.hpp: `get_closure`.
pub mod Members
use scico_d.Prelude.{
  ℕ, Bool, true, false, ◌&&◌, ◌||◌, List, [], ◌∷◌, Ord, ◌==◌, if◌then◌else◌, ◌≡◌, refl, arith,
  insert, insert_all, member, eqb, Bool-cases, inl, inr, ap, ap₂, ◌∙◌,
}
use scico_d.Mtl.Formula.{
  MtlFormula, Formulas, ltrue, lfalse, prop, land, lor, lneg, luntil, ldual_until, nil, cons,
}
use scico_d.Mtl.Order.{get_operator}
use scico_d.Mtl.Order.Laws.{formula_ord}

-- The formula itself, if it has the operator.
abbrev pub itself {ℓ} : {P : Type ℓ} → ℕ → MtlFormula P → List (MtlFormula P)
itself op f = if get_operator f == op then f ∷ [] else []

unfoldable mutual
  pub get_subformulas_of_type {ℓ} :
      {P : Type ℓ} ⦃o : Ord P⦄ → ℕ → MtlFormula P → List (MtlFormula P)
  get_subformulas_of_type op (land fs) = insert_operands op fs (itself op (land fs))
  get_subformulas_of_type op (lor fs) = insert_operands op fs (itself op (lor fs))
  get_subformulas_of_type op (lneg f) =
      insert_all (get_subformulas_of_type op f) (itself op (lneg f))
  get_subformulas_of_type op (luntil f g i) =
      insert_all (get_subformulas_of_type op g)
        (insert_all (get_subformulas_of_type op f) (itself op (luntil f g i)))
  get_subformulas_of_type op (ldual_until f g i) =
      insert_all (get_subformulas_of_type op g)
        (insert_all (get_subformulas_of_type op f) (itself op (ldual_until f g i)))
  get_subformulas_of_type op (prop p) = itself op (prop p)
  get_subformulas_of_type op ltrue = itself op ltrue
  get_subformulas_of_type op lfalse = itself op lfalse

  -- The loop over the operands.
  pub insert_operands {ℓ} :
      {P : Type ℓ} ⦃o : Ord P⦄ → ℕ → Formulas P → List (MtlFormula P) → List (MtlFormula P)
  insert_operands op nil res = res
  insert_operands op (cons f fs) res =
      insert_operands op fs (insert_all (get_subformulas_of_type op f) res)

-- The locations of the automaton besides the initial one: LOP::LUNTIL is 3 and LOP::LDUNTIL is 4.
unfoldable pub get_closure {ℓ} : {P : Type ℓ} ⦃o : Ord P⦄ → MtlFormula P → List (MtlFormula P)
unfolding get_subformulas_of_type
get_closure formula =
    insert_all (get_subformulas_of_type 4 formula) (get_subformulas_of_type 3 formula)
