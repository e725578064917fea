-- ===== src/Mtl/Order/Laws.antt =====
-- src/mtl/include/mtl/MTLFormula.hpp: `operator<` is a strict total order, so that formulas can be
-- kept in a `std::set`.
use scico_d.Prelude.{
  ℕ, zero, suc, ◌<◌, Bool, true, false, Ord, ◌≡◌, refl, arith, ap, ap₂, ◌∙◌, subst, sym, ◌⊎◌, inl,
  inr,
}
use scico_d.Mtl.Formula.{MtlFormula, Formulas, nil, cons}
use scico_d.Mtl.Order.{lt_then, lt_formula, lt_formulas, gt_formula}
use scico_d.Mtl.Order.Directions.{gt_formula-lt_formula}
use scico_d.Mtl.Order.Keys.{
  key_of, operands_of, size, sizes, sizes-operands_of, lt_key_irrefl, lt_key_trans, lt_key_total,
  lt_by_key, same_formula,
}

lt_then-neither :
    (lt gt rest tser : Bool)
    → lt_then lt gt rest ≡ false
    → lt_then gt lt tser ≡ false
    → (lt ≡ false) × ((gt ≡ false) × ((rest ≡ false) × (tser ≡ false)))
lt_then-neither true gt rest tser h k = cc
lt_then-neither false true rest tser h k = cc
lt_then-neither false false rest tser h k = (refl, (refl, (h, k)))

lt_then-cases :
    (lt gt rest : Bool)
    → lt_then lt gt rest ≡ true
    → (lt ≡ true) ⊎ ((lt ≡ false) × ((gt ≡ false) × (rest ≡ true)))
lt_then-cases true gt rest h = inl refl
lt_then-cases false true rest h = cc
lt_then-cases false false rest h = inr (refl, (refl, h))

lt_then-of_rest : (lt gt rest : Bool) → gt ≡ false → rest ≡ true → lt_then lt gt rest ≡ true
lt_then-of_rest true gt rest h k = refl
lt_then-of_rest false gt rest h k = rw (h, k)

module _ {ℓ} {P : Type ℓ} ⦃o : Ord P⦄ where
  operands_irrefl :
      (fs : Formulas P)
      → ((f : MtlFormula P) → size f < sizes fs → lt_formula f f ≡ false)
      → lt_formulas fs fs ≡ false
  unfolding lt_formulas size
  operands_irrefl nil ih = refl
  operands_irrefl (cons f fs) ih = ground (
    arith,
    ih f (omega arith),
    gt_formula-lt_formula f f,
    operands_irrefl fs (λ x h. ih x (omega arith)),
  )

  irrefl : (n : ℕ) (f : MtlFormula P) → size f < n → lt_formula f f ≡ false
  irrefl zero f h = absurd (omega arith)
  irrefl (suc n) f h =
      let rest =
        operands_irrefl (operands_of f) (λ x k. irrefl n x (omega (arith, sizes-operands_of f))) in
      rw (lt_by_key f f, lt_key_irrefl (key_of f), rest)

  operands_total :
      (fs gs : Formulas P)
      → ((f g : MtlFormula P)
          → size f < sizes fs
          → lt_formula f g ≡ false
          → lt_formula g f ≡ false
          → f ≡ g)
      → lt_formulas fs gs ≡ false
      → lt_formulas gs fs ≡ false
      → fs ≡ gs
  unfolding lt_formulas size
  operands_total nil nil ih h k = refl
  operands_total nil (cons g gs) ih h k = cc
  operands_total (cons f fs) nil ih h k = cc
  operands_total (cons f fs) (cons g gs) ih h k =
      let (a, (b, (c, d))) =
        lt_then-neither (lt_formula f g) (lt_formula g f) (lt_formulas fs gs) (lt_formulas gs fs)
          (rw (gt_formula-lt_formula f g) at h) (rw (gt_formula-lt_formula g f) at k) in
      ap₂ cons (ih f g (omega arith) a b) (operands_total fs gs (λ x y l. ih x y (omega arith)) c d)

  total :
      (n : ℕ) (f g : MtlFormula P)
      → size f < n
      → lt_formula f g ≡ false
      → lt_formula g f ≡ false
      → f ≡ g
  total zero f g l h k = absurd (omega arith)
  total (suc n) f g l h k =
      let rest =
        operands_total (operands_of f) (operands_of g)
          (λ x y m. total n x y (omega (arith, sizes-operands_of f))) in
      ground (
        arith,
        lt_by_key f g,
        lt_by_key g f,
        lt_key_total (key_of f) (key_of g),
        rest,
        same_formula f g,
      )

  pub lt_formula_irrefl : (f : MtlFormula P) → lt_formula f f ≡ false
  lt_formula_irrefl f = irrefl (suc (size f)) f (omega arith)

  -- Formulas neither of which is smaller than the other are equal.
  pub lt_formula_total :
      (f g : MtlFormula P) → lt_formula f g ≡ false → lt_formula g f ≡ false → f ≡ g
  lt_formula_total f g = total (suc (size f)) f g (omega arith)

  operands_cases :
      (f g : MtlFormula P) (fs gs : Formulas P)
      → lt_formulas (cons f fs) (cons g gs) ≡ true
      → (lt_formula f g ≡ true)
        ⊎ ((lt_formula f g ≡ false) × ((lt_formula g f ≡ false) × (lt_formulas fs gs ≡ true)))
  unfolding lt_formulas
  operands_cases f g fs gs h =
      lt_then-cases (lt_formula f g) (lt_formula g f) (lt_formulas fs gs)
        (rw (gt_formula-lt_formula f g) at h)

  operands_first :
      (f g : MtlFormula P) (fs gs : Formulas P)
      → lt_formula f g ≡ true
      → lt_formulas (cons f fs) (cons g gs) ≡ true
  unfolding lt_formulas
  operands_first f g fs gs h = ap (λ b. lt_then b (gt_formula f g) (lt_formulas fs gs)) h

  operands_rest :
      (f g : MtlFormula P) (fs gs : Formulas P)
      → lt_formula g f ≡ false
      → lt_formulas fs gs ≡ true
      → lt_formulas (cons f fs) (cons g gs) ≡ true
  unfolding lt_formulas
  operands_rest f g fs gs h k =
      lt_then-of_rest (lt_formula f g) (gt_formula f g) (lt_formulas fs gs)
        (gt_formula-lt_formula f g ∙ h) k

  operands_trans :
      (fs gs hs : Formulas P)
      → ((f g h : MtlFormula P)
          → size f < sizes fs
          → lt_formula f g ≡ true
          → lt_formula g h ≡ true
          → lt_formula f h ≡ true)
      → lt_formulas fs gs ≡ true
      → lt_formulas gs hs ≡ true
      → lt_formulas fs hs ≡ true
  unfolding lt_formulas size
  operands_trans nil nil hs ih p q = q
  operands_trans nil (cons g gs) nil ih p q = q
  operands_trans nil (cons g gs) (cons h hs) ih p q = refl
  operands_trans (cons f fs) nil hs ih p q = cc
  operands_trans (cons f fs) (cons g gs) nil ih p q = q
  operands_trans (cons f fs) (cons g gs) (cons h hs) ih p q = elim (operands_cases f g fs gs p) [
    | inl fg ↦ operands_first f h fs hs (elim (operands_cases g h gs hs q) [
      | inl gh ↦ ih f g h (omega arith) fg gh
      | inr (gh, (hg, more)) ↦ subst (λ x. lt_formula f x ≡ true) (lt_formula_total g h gh hg) fg
    ])
    | inr (fg, (gf, less)) ↦
        let same = lt_formula_total f g fg gf in
        elim (operands_cases g h gs hs q) [
          | inl gh ↦ operands_first f h fs hs (subst (λ x. lt_formula x h ≡ true) (sym same) gh)
          | inr (gh, (hg, more)) ↦
              operands_rest f h fs hs (subst (λ x. lt_formula h x ≡ false) (sym same) hg)
                (operands_trans fs gs hs (λ x y z l. ih x y z (omega arith)) less more)
        ]
  ]

  trans :
      (n : ℕ) (f g h : MtlFormula P)
      → size f < n
      → lt_formula f g ≡ true
      → lt_formula g h ≡ true
      → lt_formula f h ≡ true
  trans zero f g h l p q = absurd (omega arith)
  trans (suc n) f g h l p q =
      let rest =
        operands_trans (operands_of f) (operands_of g) (operands_of h)
          (λ x y z m. trans n x y z (omega (arith, sizes-operands_of f))) in
      ground (
        arith,
        lt_by_key f g,
        lt_by_key g h,
        lt_by_key f h,
        lt_key_trans (key_of f) (key_of g) (key_of h),
        lt_key_trans (key_of f) (key_of h) (key_of f),
        lt_key_trans (key_of f) (key_of g) (key_of f),
        lt_key_total (key_of f) (key_of g),
        lt_key_total (key_of g) (key_of h),
        lt_key_irrefl (key_of f),
        rest,
      )

  -- The order of formulas is transitive.
  pub lt_formula_trans :
      (f g h : MtlFormula P) → lt_formula f g ≡ true → lt_formula g h ≡ true → lt_formula f h ≡ true
  lt_formula_trans f g h = trans (suc (size f)) f g h (omega arith)

  instance abbrev pub formula_ord : Ord (MtlFormula P)
  formula_ord = record {
    lt = lt_formula;
    lt_irrefl = lt_formula_irrefl;
    lt_trans = lt_formula_trans;
    lt_total = lt_formula_total;
  }
