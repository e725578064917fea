-- ===== src/Mtl/Formula.antt =====
-- src/mtl/include/mtl/MTLFormula.h and MTLFormula.hpp: formulas over a type `P` of propositions.
-- The private constructors of the source give each operator its number of operands; the data type
-- has one constructor for each operator, with a list where the source takes any number.
use scico_d.Prelude.{ℕ, max, if◌then◌else◌}
use scico_d.Utilities.Interval.{Interval, is_infty}

mutual
  pub data MtlFormula {ℓ} (P : Type ℓ) : Type ℓ where
    ltrue : MtlFormula P
    lfalse : MtlFormula P
    prop : P → MtlFormula P
    land : Formulas P → MtlFormula P
    lor : Formulas P → MtlFormula P
    lneg : MtlFormula P → MtlFormula P
    luntil : MtlFormula P → MtlFormula P → Interval → MtlFormula P
    ldual_until : MtlFormula P → MtlFormula P → Interval → MtlFormula P

  -- `std::vector<MTLFormula>`
  pub data Formulas {ℓ} (P : Type ℓ) : Type ℓ where
    nil : Formulas P
    cons : MtlFormula P → Formulas P → Formulas P

module _ {ℓ} {P : Type ℓ} where
  -- `operator&&`, `operator||`, `operator!`, `until`, `dual_until`
  abbrev pub conjunction : MtlFormula P → MtlFormula P → MtlFormula P
  conjunction a b = land (cons a (cons b nil))

  abbrev pub disjunction : MtlFormula P → MtlFormula P → MtlFormula P
  disjunction a b = lor (cons a (cons b nil))

  -- F_I phi
  abbrev pub finally : MtlFormula P → Interval → MtlFormula P
  finally phi duration = luntil ltrue phi duration

  -- G_I phi
  abbrev pub globally : MtlFormula P → Interval → MtlFormula P
  globally phi duration = lneg (finally (lneg phi) duration)

-- The larger finite bound of the interval of an until.
unfoldable pub largest_bound : Interval → ℕ
largest_bound i =
    max (max 0 (if is_infty i.upper_bound_type then 0 else i.upper))
      (if is_infty i.lower_bound_type then 0 else i.lower)

-- In the loop over the operands of a conjunction or disjunction, `largest_constant` is assigned
-- `std::max(0u, sub_formula.get_largest_constant())` in every round.
unfoldable mutual
  unfolding largest_bound

  pub get_largest_constant {ℓ} : {P : Type ℓ} → MtlFormula P → ℕ
  get_largest_constant ltrue = 0
  get_largest_constant lfalse = 0
  get_largest_constant (prop p) = 0
  get_largest_constant (land fs) = largest_of_operands 0 fs
  get_largest_constant (lor fs) = largest_of_operands 0 fs
  get_largest_constant (lneg f) = get_largest_constant f
  get_largest_constant (luntil f g i) =
      max (max (largest_bound i) (get_largest_constant f)) (get_largest_constant g)
  get_largest_constant (ldual_until f g i) =
      max (max (largest_bound i) (get_largest_constant f)) (get_largest_constant g)

  pub largest_of_operands {ℓ} : {P : Type ℓ} → ℕ → Formulas P → ℕ
  largest_of_operands largest_constant nil = largest_constant
  largest_of_operands largest_constant (cons f fs) =
      largest_of_operands (max 0 (get_largest_constant f)) fs

-- Every interval of an until or dual until in the formula satisfies `Q`.
unfoldable mutual
  pub HasIntervals {ℓ κ} : {P : Type ℓ} → (Interval → Type κ) → MtlFormula P → Type κ
  HasIntervals Q ltrue = Unit
  HasIntervals Q lfalse = Unit
  HasIntervals Q (prop p) = Unit
  HasIntervals Q (land fs) = HaveIntervals Q fs
  HasIntervals Q (lor fs) = HaveIntervals Q fs
  HasIntervals Q (lneg f) = HasIntervals Q f
  HasIntervals Q (luntil f g i) = Q i × HasIntervals Q f × HasIntervals Q g
  HasIntervals Q (ldual_until f g i) = Q i × HasIntervals Q f × HasIntervals Q g

  pub HaveIntervals {ℓ κ} : {P : Type ℓ} → (Interval → Type κ) → Formulas P → Type κ
  HaveIntervals Q nil = Unit
  HaveIntervals Q (cons f fs) = HasIntervals Q f × HaveIntervals Q fs
