-- ===== src/Mtl/Order.antt =====
-- src/mtl/include/mtl/MTLFormula.h and MTLFormula.hpp: `get_operator` and `operator<` of formulas;
-- src/utilities/include/utilities/Interval.h: `operator<` of intervals.
pub mod Keys
pub mod Directions
pub mod Laws
use scico_d.Prelude.{ℕ, Bool, true, false, ltb, if◌then◌else◌, Ord, nat_ord, pair_ord}
use scico_d.Utilities.Interval.{Interval, BoundType, weak, strict, infty}
use scico_d.Mtl.Formula.{
  MtlFormula, Formulas, ltrue, lfalse, prop, land, lor, lneg, luntil, ldual_until, nil, cons,
}

-- The positions in `enum class BoundType` and in `enum class LOP`.
abbrev pub bound_index : BoundType → ℕ
bound_index weak = 0
bound_index strict = 1
bound_index infty = 2

abbrev pub get_operator {ℓ} : {P : Type ℓ} → MtlFormula P → ℕ
get_operator (land fs) = 0
get_operator (lor fs) = 1
get_operator (lneg f) = 2
get_operator (luntil f g i) = 3
get_operator (ldual_until f g i) = 4
get_operator (prop p) = 5
get_operator ltrue = 6
get_operator lfalse = 7

-- `to_tuple` of the order on intervals.
abbrev pub to_tuple : Interval → ℕ × (ℕ × (ℕ × ℕ))
to_tuple i = (i.lower, (bound_index i.lower_bound_type, (i.upper, bound_index i.upper_bound_type)))

abbrev pub lt_interval : Interval → Interval → Bool
lt_interval first second = pair_ord.lt (to_tuple first) (to_tuple second)

-- One round of a lexicographic comparison: `lt` and `gt` compare the heads.
abbrev pub lt_then : (lt gt rest : Bool) → Bool
lt_then lt gt rest = if lt then true else if gt then false else rest

-- `gt_formula f g` is `g < f`, by recursion on `f` too, since a lexicographic comparison tests both
-- directions. `lt_formulas` is `std::lexicographical_compare` on the operands, written out where
-- their number is fixed.
unfoldable mutual
  pub lt_formula {ℓ} : {P : Type ℓ} ⦃o : Ord P⦄ → MtlFormula P → MtlFormula P → Bool
  lt_formula ⦃o = o⦄ (prop p) (prop q) = o.lt p q
  lt_formula (land fs) (land gs) = lt_formulas fs gs
  lt_formula (lor fs) (lor gs) = lt_formulas fs gs
  lt_formula (lneg f) (lneg g) = lt_then (lt_formula f g) (gt_formula f g) false
  lt_formula (luntil f1 f2 i) (luntil g1 g2 j) = lt_then (lt_interval i j) (lt_interval j i) (
      lt_then (lt_formula f1 g1) (gt_formula f1 g1)
        (lt_then (lt_formula f2 g2) (gt_formula f2 g2) false))
  lt_formula (ldual_until f1 f2 i) (ldual_until g1 g2 j) =
      lt_then (lt_interval i j) (lt_interval j i) (
        lt_then (lt_formula f1 g1) (gt_formula f1 g1)
          (lt_then (lt_formula f2 g2) (gt_formula f2 g2) false))
  lt_formula f g = ltb (get_operator f) (get_operator g)

  pub gt_formula {ℓ} : {P : Type ℓ} ⦃o : Ord P⦄ → MtlFormula P → MtlFormula P → Bool
  gt_formula ⦃o = o⦄ (prop p) (prop q) = o.lt q p
  gt_formula (land fs) (land gs) = gt_formulas fs gs
  gt_formula (lor fs) (lor gs) = gt_formulas fs gs
  gt_formula (lneg f) (lneg g) = lt_then (gt_formula f g) (lt_formula f g) false
  gt_formula (luntil f1 f2 i) (luntil g1 g2 j) = lt_then (lt_interval j i) (lt_interval i j) (
      lt_then (gt_formula f1 g1) (lt_formula f1 g1)
        (lt_then (gt_formula f2 g2) (lt_formula f2 g2) false))
  gt_formula (ldual_until f1 f2 i) (ldual_until g1 g2 j) =
      lt_then (lt_interval j i) (lt_interval i j) (
        lt_then (gt_formula f1 g1) (lt_formula f1 g1)
          (lt_then (gt_formula f2 g2) (lt_formula f2 g2) false))
  gt_formula f g = ltb (get_operator g) (get_operator f)

  pub lt_formulas {ℓ} : {P : Type ℓ} ⦃o : Ord P⦄ → Formulas P → Formulas P → Bool
  lt_formulas nil nil = false
  lt_formulas nil (cons g gs) = true
  lt_formulas (cons f fs) nil = false
  lt_formulas (cons f fs) (cons g gs) =
      lt_then (lt_formula f g) (gt_formula f g) (lt_formulas fs gs)

  pub gt_formulas {ℓ} : {P : Type ℓ} ⦃o : Ord P⦄ → Formulas P → Formulas P → Bool
  gt_formulas nil nil = false
  gt_formulas nil (cons g gs) = false
  gt_formulas (cons f fs) nil = true
  gt_formulas (cons f fs) (cons g gs) =
      lt_then (gt_formula f g) (lt_formula f g) (gt_formulas fs gs)
