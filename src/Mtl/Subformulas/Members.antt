-- ===== src/Mtl/Subformulas/Members.antt =====
-- src/mtl/include/mtl/MTLFormula.hpp: what `get_subformulas_of_type` collects, and the closure.
use scico_d.Prelude.{
  ℕ, Bool, true, false, ◌&&◌, ◌||◌, List, Ord, ◌==◌, ◌≡◌, refl, arith, insert_all, member, eqb,
  Bool-cases, inl, inr, ap, ap₂, ◌∙◌, member-insert_all, eqb→eq,
}
use scico_d.Mtl.Formula.{
  MtlFormula, Formulas, ltrue, lfalse, prop, land, lor, lneg, luntil, ldual_until, nil, cons,
}
use scico_d.Mtl.Order.{get_operator}
use scico_d.Mtl.Order.Laws.{formula_ord}
use scico_d.Mtl.Subformulas.{itself, get_subformulas_of_type, insert_operands, get_closure}

-- `x` occurs in the formula.
unfoldable mutual
  pub is_subformula {ℓ} : {P : Type ℓ} ⦃o : Ord P⦄ → MtlFormula P → MtlFormula P → Bool
  is_subformula x (land fs) = eqb x (land fs) || occurs_in x fs
  is_subformula x (lor fs) = eqb x (lor fs) || occurs_in x fs
  is_subformula x (lneg f) = eqb x (lneg f) || is_subformula x f
  is_subformula x (luntil f g i) = eqb x (luntil f g i) || (is_subformula x f || is_subformula x g)
  is_subformula x (ldual_until f g i) =
      eqb x (ldual_until f g i) || (is_subformula x f || is_subformula x g)
  is_subformula x (prop p) = eqb x (prop p)
  is_subformula x ltrue = eqb x ltrue
  is_subformula x lfalse = eqb x lfalse

  pub occurs_in {ℓ} : {P : Type ℓ} ⦃o : Ord P⦄ → MtlFormula P → Formulas P → Bool
  occurs_in x nil = false
  occurs_in x (cons f fs) = is_subformula x f || occurs_in x fs

module _ {ℓ} {P : Type ℓ} ⦃o : Ord P⦄ (op : ℕ) (x : MtlFormula P) where
  member-itself : (f : MtlFormula P) → member x (itself op f) ≡ ((get_operator x == op) && eqb x f)
  member-itself f = elim (Bool-cases (eqb x f)) [
    | inl e ↦
        let same = ap get_operator (eqb→eq x f e) in
        elim (Bool-cases (get_operator f == op)) [
          | inl h ↦ rw (h, e, same, h) refl
          | inr h ↦ rw (h, e, same, h) refl
        ]
    | inr e ↦ elim (Bool-cases (get_operator f == op)) [
      | inl h ↦ rw (h, e) (ground arith)
      | inr h ↦ rw (h, e) (ground arith)
    ]
  ]

  distribute : (t a b : Bool) → ((t && b) || (t && a)) ≡ (t && (a || b))
  distribute true a b = ground arith
  distribute false a b = refl

  distribute₂ : (t a b c : Bool) → ((t && c) || ((t && b) || (t && a))) ≡ (t && (a || (b || c)))
  distribute₂ true a b c = ground arith
  distribute₂ false a b c = refl

  collected_both :
      (f g u : MtlFormula P)
      → member x (get_subformulas_of_type op f) ≡ ((get_operator x == op) && is_subformula x f)
      → member x (get_subformulas_of_type op g) ≡ ((get_operator x == op) && is_subformula x g)
      → member x (
          insert_all
            (get_subformulas_of_type op g)
            (insert_all (get_subformulas_of_type op f) (itself op u)))
        ≡ ((get_operator x == op) && (eqb x u || (is_subformula x f || is_subformula x g)))
  collected_both f g u hf hg =
      member-insert_all x (get_subformulas_of_type op g) _
      ∙ (ap₂ ◌||◌ hg (
            member-insert_all x (get_subformulas_of_type op f) (itself op u)
            ∙ ap₂ ◌||◌ hf (member-itself u))
          ∙ distribute₂ (get_operator x == op) (eqb x u) (is_subformula x f) (is_subformula x g))

  undistribute : (t a b : Bool) → ((t && a) || (t && b)) ≡ (t && (a || b))
  undistribute true a b = refl
  undistribute false a b = refl

  -- One of the operands contributes `x`.
  of_operands : Formulas P → Bool
  of_operands nil = false
  of_operands (cons f fs) = member x (get_subformulas_of_type op f) || of_operands fs

  member-insert_operands :
      (fs : Formulas P) (res : List (MtlFormula P))
      → member x (insert_operands op fs res) ≡ (member x res || of_operands fs)
  unfolding insert_operands of_operands
  member-insert_operands nil res = ground arith
  member-insert_operands (cons f fs) res =
      member-insert_operands fs (insert_all (get_subformulas_of_type op f) res)
      ∙ ground (arith, member-insert_all x (get_subformulas_of_type op f) res)

  with_operands :
      (fs : Formulas P) (u : MtlFormula P)
      → of_operands fs ≡ ((get_operator x == op) && occurs_in x fs)
      → member x (insert_operands op fs (itself op u))
        ≡ ((get_operator x == op) && (eqb x u || occurs_in x fs))
  with_operands fs u h =
      member-insert_operands fs (itself op u)
      ∙ (ap₂ ◌||◌ (member-itself u) h
          ∙ undistribute (get_operator x == op) (eqb x u) (occurs_in x fs))

  mutual
    unfolding get_subformulas_of_type insert_operands is_subformula occurs_in of_operands

    collected :
        (f : MtlFormula P)
        → member x (get_subformulas_of_type op f) ≡ ((get_operator x == op) && is_subformula x f)
    collected ltrue = member-itself ltrue
    collected lfalse = member-itself lfalse
    collected (prop p) = member-itself (prop p)
    collected (land fs) = with_operands fs (land fs) (collected_operands fs)
    collected (lor fs) = with_operands fs (lor fs) (collected_operands fs)
    collected (lneg f) =
        member-insert_all x (get_subformulas_of_type op f) (itself op (lneg f))
        ∙ (ap₂ ◌||◌ (collected f) (member-itself (lneg f))
            ∙ distribute (get_operator x == op) (eqb x (lneg f)) (is_subformula x f))
    collected (luntil f g i) = collected_both f g (luntil f g i) (collected f) (collected g)
    collected (ldual_until f g i) =
        collected_both f g (ldual_until f g i) (collected f) (collected g)

    collected_operands :
        (fs : Formulas P) → of_operands fs ≡ ((get_operator x == op) && occurs_in x fs)
    collected_operands nil = ground arith
    collected_operands (cons f fs) =
        ap₂ ◌||◌ (collected f) (collected_operands fs)
        ∙ undistribute (get_operator x == op) (is_subformula x f) (occurs_in x fs)

-- The closure of a formula is the set of its subformulas that are untils or dual untils.
pub member-get_closure {ℓ} :
    {P : Type ℓ} ⦃o : Ord P⦄ (x f : MtlFormula P)
    → member x (get_closure f)
      ≡ (((get_operator x == 3) || (get_operator x == 4)) && is_subformula x f)
unfolding get_closure
member-get_closure x f =
    member-insert_all x (get_subformulas_of_type 4 f) (get_subformulas_of_type 3 f)
    ∙ (ap₂ ◌||◌ (collected 4 x f) (collected 3 x f) ∙ ground arith)
