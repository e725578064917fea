-- ===== src/Mtl/Order/Keys.antt =====
-- src/mtl/include/mtl/MTLFormula.hpp: a formula is its operator with a proposition or an interval,
-- which is its key, and its operands. `operator<` compares the keys first.
use scico_d.Prelude.{
  ℕ, zero, suc, ◌+◌, Bool, true, false, List, [], ◌∷◌, Ord, nat_ord, pair_ord, list_ord, ◌≡◌, refl,
  arith, ap, ap₂, sym, ◌∙◌,
}
use scico_d.Utilities.Interval.{Interval, BoundType, weak, strict, infty}
use scico_d.Mtl.Formula.{
  MtlFormula, Formulas, ltrue, lfalse, prop, land, lor, lneg, luntil, ldual_until, nil, cons,
}
use scico_d.Mtl.Order.{
  bound_index, to_tuple, lt_interval, lt_then, lt_formula, lt_formulas, gt_formula, gt_formulas,
}

-- What a formula has besides its operands, and its operands.
abbrev pub Key {ℓ} : Type ℓ → Type ℓ
Key P = ℕ × (List P × List (ℕ × (ℕ × (ℕ × ℕ))))

abbrev pub key_of {ℓ} : {P : Type ℓ} → MtlFormula P → Key P
key_of (prop p) = (5, ((p ∷ []), []))
key_of (luntil f g i) = (3, ([], (to_tuple i ∷ [])))
key_of (ldual_until f g i) = (4, ([], (to_tuple i ∷ [])))
key_of (land fs) = (0, ([], []))
key_of (lor fs) = (1, ([], []))
key_of (lneg f) = (2, ([], []))
key_of ltrue = (6, ([], []))
key_of lfalse = (7, ([], []))

abbrev pub operands_of {ℓ} : {P : Type ℓ} → MtlFormula P → Formulas P
operands_of (land fs) = fs
operands_of (lor fs) = fs
operands_of (lneg f) = cons f nil
operands_of (luntil f g i) = cons f (cons g nil)
operands_of (ldual_until f g i) = cons f (cons g nil)
operands_of _ = nil

abbrev bound_of : ℕ → BoundType
bound_of zero = weak
bound_of (suc zero) = strict
bound_of _ = infty

bound_of-bound_index : (b : BoundType) → bound_of (bound_index b) ≡ b
bound_of-bound_index weak = refl
bound_of-bound_index strict = refl
bound_of-bound_index infty = refl

abbrev interval_of : ℕ × (ℕ × (ℕ × ℕ)) → Interval
interval_of (l, (lt, (u, ut))) = record {
  lower = l;
  upper = u;
  lower_bound_type = bound_of lt;
  upper_bound_type = bound_of ut;
}

interval_of-to_tuple : (i : Interval) → interval_of (to_tuple i) ≡ i
interval_of-to_tuple i = λ k. record {
  lower = i.lower;
  upper = i.upper;
  lower_bound_type = bound_of-bound_index i.lower_bound_type k;
  upper_bound_type = bound_of-bound_index i.upper_bound_type k;
}

abbrev formula_of {ℓ} : {P : Type ℓ} → Key P → Formulas P → MtlFormula P
formula_of (zero, k) fs = land fs
formula_of (suc zero, k) fs = lor fs
formula_of (suc (suc zero), k) (cons f fs) = lneg f
formula_of (suc (suc (suc zero)), (ps, i ∷ is)) (cons f (cons g fs)) = luntil f g (interval_of i)
formula_of (suc (suc (suc (suc zero))), (ps, i ∷ is)) (cons f (cons g fs)) =
    ldual_until f g (interval_of i)
formula_of (suc (suc (suc (suc (suc zero)))), (p ∷ ps, is)) fs = prop p
formula_of (suc (suc (suc (suc (suc (suc zero))))), k) fs = ltrue
formula_of _ _ = lfalse

formula_of-key_of {ℓ} : {P : Type ℓ} (f : MtlFormula P) → formula_of (key_of f) (operands_of f) ≡ f
formula_of-key_of ltrue = refl
formula_of-key_of lfalse = refl
formula_of-key_of (prop p) = refl
formula_of-key_of (land fs) = refl
formula_of-key_of (lor fs) = refl
formula_of-key_of (lneg f) = refl
formula_of-key_of (luntil f g i) = ap (luntil f g) (interval_of-to_tuple i)
formula_of-key_of (ldual_until f g i) = ap (ldual_until f g) (interval_of-to_tuple i)

lt_then_single :
    (lt gt rest : Bool)
    → lt_then lt gt rest ≡ lt_then (lt_then lt gt false) (lt_then gt lt false) rest
lt_then_single true gt rest = refl
lt_then_single false true rest = refl
lt_then_single false false rest = refl

module _ {ℓ} {P : Type ℓ} ⦃o : Ord P⦄ where
  abbrev key_ord : Ord (Key P)
  key_ord = pair_ord ⦃a = nat_ord⦄ ⦃b = pair_ord ⦃a = list_ord⦄ ⦃b = list_ord⦄⦄

  -- Both comparisons by way of the keys.
  lt_formula-key_of :
      (f g : MtlFormula P)
      → (lt_formula f g
          ≡ lt_then
              (key_ord.lt (key_of f) (key_of g))
              (key_ord.lt (key_of g) (key_of f))
              (lt_formulas (operands_of f) (operands_of g)))
        × (gt_formula f g
            ≡ lt_then
                (key_ord.lt (key_of g) (key_of f))
                (key_ord.lt (key_of f) (key_of g))
                (gt_formulas (operands_of f) (operands_of g)))
  unfolding lt_formula lt_formulas gt_formula gt_formulas
  lt_formula-key_of (land fs) (land gs) = (refl, refl)
  lt_formula-key_of (lor fs) (lor gs) = (refl, refl)
  lt_formula-key_of (prop p) (prop q) = (ground arith, ground arith)
  lt_formula-key_of (lneg f) (lneg g) = (refl, refl)
  lt_formula-key_of (luntil f1 f2 i) (luntil g1 g2 j) = (
    lt_then_single (lt_interval i j) (lt_interval j i) _,
    lt_then_single (lt_interval j i) (lt_interval i j) _,
  )
  lt_formula-key_of (ldual_until f1 f2 i) (ldual_until g1 g2 j) = (
    lt_then_single (lt_interval i j) (lt_interval j i) _,
    lt_then_single (lt_interval j i) (lt_interval i j) _,
  )
  lt_formula-key_of ltrue ltrue = (refl, refl)
  lt_formula-key_of lfalse lfalse = (refl, refl)
  lt_formula-key_of _ _ = (refl, refl)

unfoldable mutual
  pub size {ℓ} : {P : Type ℓ} → MtlFormula P → ℕ
  size (land fs) = 1 + sizes fs
  size (lor fs) = 1 + sizes fs
  size (lneg f) = 1 + (1 + size f)
  size (luntil f g i) = 1 + ((1 + size f) + (1 + size g))
  size (ldual_until f g i) = 1 + ((1 + size f) + (1 + size g))
  size (prop p) = 1
  size ltrue = 1
  size lfalse = 1

  pub sizes {ℓ} : {P : Type ℓ} → Formulas P → ℕ
  sizes nil = 0
  sizes (cons f fs) = (1 + size f) + sizes fs

pub sizes-operands_of {ℓ} : {P : Type ℓ} (f : MtlFormula P) → suc (sizes (operands_of f)) ≡ size f
unfolding size
sizes-operands_of ltrue = refl
sizes-operands_of lfalse = refl
sizes-operands_of (prop p) = refl
sizes-operands_of (land fs) = omega arith
sizes-operands_of (lor fs) = omega arith
sizes-operands_of (lneg f) = omega arith
sizes-operands_of (luntil f g i) = omega arith
sizes-operands_of (ldual_until f g i) = omega arith

module _ {ℓ} {P : Type ℓ} ⦃o : Ord P⦄ where
  unfoldable pub lt_key : Key P → Key P → Bool
  lt_key a b = key_ord.lt a b

  pub lt_key_irrefl : (a : Key P) → lt_key a a ≡ false
  unfolding lt_key
  lt_key_irrefl a = key_ord.lt_irrefl a

  pub lt_key_trans : (a b c : Key P) → lt_key a b ≡ true → lt_key b c ≡ true → lt_key a c ≡ true
  unfolding lt_key
  lt_key_trans a b c = key_ord.lt_trans a b c

  pub lt_key_total : (a b : Key P) → lt_key a b ≡ false → lt_key b a ≡ false → a ≡ b
  unfolding lt_key
  lt_key_total a b = key_ord.lt_total a b

  pub lt_by_key :
      (f g : MtlFormula P)
      → lt_formula f g
        ≡ lt_then
            (lt_key (key_of f) (key_of g))
            (lt_key (key_of g) (key_of f))
            (lt_formulas (operands_of f) (operands_of g))
  unfolding lt_key
  lt_by_key f g = (lt_formula-key_of f g).0

  pub gt_by_key :
      (f g : MtlFormula P)
      → gt_formula f g
        ≡ lt_then
            (lt_key (key_of g) (key_of f))
            (lt_key (key_of f) (key_of g))
            (gt_formulas (operands_of f) (operands_of g))
  unfolding lt_key
  gt_by_key f g = (lt_formula-key_of f g).1

  pub same_formula :
      (f g : MtlFormula P) → key_of f ≡ key_of g → operands_of f ≡ operands_of g → f ≡ g
  same_formula f g h k = sym (formula_of-key_of f) ∙ (ap₂ formula_of h k ∙ formula_of-key_of g)
