-- ===== src/Translation/Automaton/Closure.antt =====
-- src/mtl/include/mtl/MTLFormula.hpp: the subformulas with an operator of a formula in normal form
-- are in normal form.
use scico_d.Prelude.{
  ℕ, List, Ord, ◌==◌, ◌≡◌, arith, insert_all, All, All-imp, All-insert_all, Bool-cases, inl, inr,
}
use scico_d.Mtl.Formula.{
  MtlFormula, Formulas, ltrue, lfalse, prop, land, lor, lneg, luntil, ldual_until, nil, cons,
}
use scico_d.Mtl.Order.{get_operator}
use scico_d.Mtl.Order.Laws.{formula_ord}
use scico_d.Mtl.NormalForm.Shape.{IsLiteral, IsPositive, ArePositive}
use scico_d.Mtl.Subformulas.{itself, get_subformulas_of_type, insert_operands, get_closure}

-- The formula has the operator, and is in positive normal form.
abbrev pub IsPositiveWith {ℓ} : {P : Type ℓ} → ℕ → MtlFormula P → Type 0
IsPositiveWith op f = (get_operator f ≡ op) × IsPositive f

module _ {ℓ} {P : Type ℓ} ⦃o : Ord P⦄ (op : ℕ) where
  itself-IsPositive : (f : MtlFormula P) → IsPositive f → All (IsPositiveWith op) (itself op f)
  itself-IsPositive f h = elim (Bool-cases (get_operator f == op)) [
    | inl e ↦ rw e ((ground arith, h), tt)
    | inr e ↦ rw e tt
  ]

  both-IsPositive :
      (f g u : MtlFormula P)
      → All (IsPositiveWith op) (get_subformulas_of_type op f)
      → All (IsPositiveWith op) (get_subformulas_of_type op g)
      → IsPositive u
      → All (IsPositiveWith op) (
          insert_all
            (get_subformulas_of_type op g)
            (insert_all (get_subformulas_of_type op f) (itself op u)))
  both-IsPositive f g u hf hg hu =
      All-insert_all (IsPositiveWith op) (get_subformulas_of_type op g) _ hg (
        All-insert_all (IsPositiveWith op) (get_subformulas_of_type op f) (itself op u) hf
          (itself-IsPositive u hu))

  -- What the operands contribute is in positive normal form.
  unfoldable AreCollected : Formulas P → Type 0
  AreCollected nil = Unit
  AreCollected (cons f fs) =
      All (IsPositiveWith op) (get_subformulas_of_type op f) × AreCollected fs

  operands-IsPositive :
      (fs : Formulas P) (res : List (MtlFormula P))
      → AreCollected fs
      → All (IsPositiveWith op) res
      → All (IsPositiveWith op) (insert_operands op fs res)
  unfolding insert_operands AreCollected
  operands-IsPositive nil res h k = k
  operands-IsPositive (cons f fs) res (h, hs) k =
      operands-IsPositive fs _ hs
        (All-insert_all (IsPositiveWith op) (get_subformulas_of_type op f) res h k)

  mutual
    unfolding AreCollected get_subformulas_of_type insert_operands IsPositive ArePositive

    collected :
        (f : MtlFormula P) → IsPositive f → All (IsPositiveWith op) (get_subformulas_of_type op f)
    collected ltrue h = itself-IsPositive ltrue tt
    collected lfalse h = itself-IsPositive lfalse tt
    collected (prop p) h = itself-IsPositive (prop p) tt
    collected (land fs) h =
        operands-IsPositive fs (itself op (land fs)) (collected_operands fs h)
          (itself-IsPositive (land fs) h)
    collected (lor fs) h =
        operands-IsPositive fs (itself op (lor fs)) (collected_operands fs h)
          (itself-IsPositive (lor fs) h)
    collected (lneg f) h =
        All-insert_all (IsPositiveWith op) (get_subformulas_of_type op f) (itself op (lneg f))
          (collected_literal f h) (itself-IsPositive (lneg f) h)
    collected (luntil f g i) (hf, hg) =
        both-IsPositive f g (luntil f g i) (collected f hf) (collected g hg) (hf, hg)
    collected (ldual_until f g i) (hf, hg) =
        both-IsPositive f g (ldual_until f g i) (collected f hf) (collected g hg) (hf, hg)

    collected_literal :
        (f : MtlFormula P) → IsLiteral f → All (IsPositiveWith op) (get_subformulas_of_type op f)
    collected_literal ltrue h = itself-IsPositive ltrue tt
    collected_literal lfalse h = itself-IsPositive lfalse tt
    collected_literal (prop p) h = itself-IsPositive (prop p) tt
    collected_literal (land fs) h = absurd h
    collected_literal (lor fs) h = absurd h
    collected_literal (lneg f) h = absurd h
    collected_literal (luntil f g i) h = absurd h
    collected_literal (ldual_until f g i) h = absurd h

    collected_operands : (fs : Formulas P) → ArePositive fs → AreCollected fs
    collected_operands nil h = tt
    collected_operands (cons f fs) (h, hs) = (collected f h, collected_operands fs hs)

pub get_subformulas_of_type-IsPositive {ℓ} :
    {P : Type ℓ} ⦃o : Ord P⦄ (op : ℕ) (f : MtlFormula P)
    → IsPositive f
    → All (IsPositiveWith op) (get_subformulas_of_type op f)
get_subformulas_of_type-IsPositive op f h = collected op f h

pub get_closure-IsPositive {ℓ} :
    {P : Type ℓ} ⦃o : Ord P⦄ (f : MtlFormula P) → IsPositive f → All IsPositive (get_closure f)
unfolding get_closure
get_closure-IsPositive f h =
    All-insert_all IsPositive (get_subformulas_of_type 4 f) (get_subformulas_of_type 3 f)
      (All-imp (λ u p. p.1) (get_subformulas_of_type 4 f) (collected 4 f h))
      (All-imp (λ u p. p.1) (get_subformulas_of_type 3 f) (collected 3 f h))
