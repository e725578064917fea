-- ===== src/Mtl/NormalForm/Meaning.antt =====
-- src/mtl/include/mtl/MTLFormula.hpp: when the positive normal form is satisfied where the formula
-- is, and when it is not.
use scico_d.Prelude.{
  ℕ, zero, suc, ◌+◌, ◌-◌, ◌≤◌, ◌<◌, Bool, true, false, ◌&&◌, ◌||◌, not, length, ltb, Ord, member,
  ◌≡◌, refl, ap, ap₂, fun_ext, arith,
}
use scico_d.Utilities.Interval.{Interval, contains}
use scico_d.Mtl.Formula.{
  MtlFormula, Formulas, ltrue, lfalse, prop, land, lor, lneg, luntil, ldual_until, nil, cons,
  HasIntervals, HaveIntervals,
}
use scico_d.Mtl.Satisfaction.{
  MtlWord, in_time, symbols_at, until_loop, dual_until_loop, satisfies_at, all_satisfied_at,
  any_satisfied_at, satisfies,
}
use scico_d.Mtl.NormalForm.{
  to_positive_normal_form, negated_normal_form, normal_forms, negated_normal_forms,
}

-- The tests of one loop are the negations of the other's, at the positions that are left.
abbrev Opposite : (f g : ℕ → Bool) → ℕ → ℕ → Type 0
Opposite f g j size = (m : ℕ) → j ≤ m → m < size → f m ≡ not (g m)

Opposite-suc : (f g : ℕ → Bool) (j size : ℕ) → Opposite f g j size → Opposite f g (suc j) size
Opposite-suc f g j size h m le lt = h m (omega arith) lt

dual_until_loop-not :
    (front back front' back' timely : ℕ → Bool) (left j size : ℕ)
    → j + left ≡ size
    → Opposite front' front j size
    → Opposite back' back j size
    → ((m : ℕ) → timely m ≡ true)
    → dual_until_loop front' back' timely left j ≡ not (until_loop front back timely left j)
unfolding dual_until_loop until_loop
dual_until_loop-not front back front' back' timely zero j size e hf hb t = refl
dual_until_loop-not front back front' back' timely (suc left) j size e hf hb t = ground (
  arith,
  hf j (omega arith) (omega arith),
  hb j (omega arith) (omega arith),
  t j,
  dual_until_loop-not front back front' back' timely left (suc j) size (omega arith)
      (Opposite-suc front' front j size hf) (Opposite-suc back' back j size hb) t,
)

until_loop-not :
    (front back front' back' timely : ℕ → Bool) (left j size : ℕ)
    → j + left ≡ size
    → Opposite front' front j size
    → Opposite back' back j size
    → ((m : ℕ) → timely m ≡ true)
    → until_loop front' back' timely left j ≡ not (dual_until_loop front back timely left j)
unfolding dual_until_loop until_loop
until_loop-not front back front' back' timely zero j size e hf hb t = refl
until_loop-not front back front' back' timely (suc left) j size e hf hb t = ground (
  arith,
  hf j (omega arith) (omega arith),
  hb j (omega arith) (omega arith),
  t j,
  until_loop-not front back front' back' timely left (suc j) size (omega arith)
      (Opposite-suc front' front j size hf) (Opposite-suc back' back j size hb) t,
)

negation_reads :
    (f g : ℕ → Bool) (j size : ℕ)
    → ((m : ℕ) → f m ≡ (ltb m size && not (g m)))
    → Opposite f g j size
negation_reads f g j size h m le lt = ground (arith, h m)

positions_left : (i size : ℕ) → ltb i size ≡ true → (i + 1) + (size - (i + 1)) ≡ size
positions_left i size h = ground arith

guarded_not : (b x y : Bool) → (b ≡ true → x ≡ not y) → (b && x) ≡ (b && not (b && y))
guarded_not b x y h = ground arith

-- An interval that holds all differences of times, such as (∞, ∞) and [0, ∞).
abbrev pub IsUnrestricted : Interval → Type 0
IsUnrestricted i = (d : ℕ) → contains i d ≡ true

-- Past the end of the word nothing is satisfied.
satisfies_out {ℓ} :
    {P : Type ℓ} ⦃o : Ord P⦄ (w : MtlWord P) (f : MtlFormula P) (i : ℕ)
    → ltb i (length w) ≡ false
    → satisfies_at w f i ≡ false
unfolding satisfies_at
satisfies_out w ltrue i h = ground arith
satisfies_out w _ i h = ground arith

mutual
  unfolding to_positive_normal_form negated_normal_form normal_forms negated_normal_forms
      satisfies_at all_satisfied_at any_satisfied_at HasIntervals HaveIntervals

  satisfies_normal {ℓ} :
      {P : Type ℓ} ⦃o : Ord P⦄ (w : MtlWord P) (f : MtlFormula P)
      → HasIntervals IsUnrestricted f
      → (i : ℕ) → satisfies_at w (to_positive_normal_form f) i ≡ satisfies_at w f i
  satisfies_normal w ltrue h i = refl
  satisfies_normal w lfalse h i = refl
  satisfies_normal w (prop p) h i = refl
  satisfies_normal w (land fs) h i = ap (λ b. ltb i (length w) && b) (all_normal w fs h i)
  satisfies_normal w (lor fs) h i = ap (λ b. ltb i (length w) && b) (any_normal w fs h i)
  satisfies_normal w (lneg f) h i = satisfies_negated w f h i
  satisfies_normal w (luntil f g d) (hd, hf, hg) i =
      ap₂ (λ a b. ltb i (length w) && until_loop a b (in_time w d i) (length w - (i + 1)) (i + 1))
        (fun_ext (satisfies_normal w f hf)) (fun_ext (satisfies_normal w g hg))
  satisfies_normal w (ldual_until f g d) (hd, hf, hg) i =
      ap₂
        (λ a b.
          ltb i (length w) && dual_until_loop a b (in_time w d i) (length w - (i + 1)) (i + 1))
        (fun_ext (satisfies_normal w f hf)) (fun_ext (satisfies_normal w g hg))

  satisfies_negated {ℓ} :
      {P : Type ℓ} ⦃o : Ord P⦄ (w : MtlWord P) (f : MtlFormula P)
      → HasIntervals IsUnrestricted f
      → (i : ℕ)
      → satisfies_at w (negated_normal_form f) i ≡ (ltb i (length w) && not (satisfies_at w f i))
  satisfies_negated w ltrue h i = refl
  satisfies_negated w lfalse h i = refl
  satisfies_negated w (prop p) h i = refl
  satisfies_negated w (land fs) h i = ground (arith, any_negated w fs h i)
  satisfies_negated w (lor fs) h i = ground (arith, all_negated w fs h i)
  satisfies_negated w (lneg f) h i = ground (arith, satisfies_normal w f h i, satisfies_out w f i)
  satisfies_negated w (luntil f g d) (hd, hf, hg) i =
      let f' = satisfies_at w (negated_normal_form f) in
      let g' = satisfies_at w (negated_normal_form g) in
      let size = length w in
      guarded_not (ltb i size) (dual_until_loop f' g' (in_time w d i) (size - (i + 1)) (i + 1))
        (until_loop (satisfies_at w f) (satisfies_at w g) (in_time w d i) (size - (i + 1)) (i + 1))
        (λ inside.
          dual_until_loop-not (satisfies_at w f) (satisfies_at w g) f' g' (in_time w d i)
            (size - (i + 1)) (i + 1) size (positions_left i size inside)
            (negation_reads f' (satisfies_at w f) (i + 1) size (satisfies_negated w f hf))
            (negation_reads g' (satisfies_at w g) (i + 1) size (satisfies_negated w g hg))
            (λ m. hd _))
  satisfies_negated w (ldual_until f g d) (hd, hf, hg) i =
      let f' = satisfies_at w (negated_normal_form f) in
      let g' = satisfies_at w (negated_normal_form g) in
      let size = length w in
      guarded_not (ltb i size) (until_loop f' g' (in_time w d i) (size - (i + 1)) (i + 1))
        (dual_until_loop (satisfies_at w f) (satisfies_at w g) (in_time w d i) (size - (i + 1))
          (i + 1))
        (λ inside.
          until_loop-not (satisfies_at w f) (satisfies_at w g) f' g' (in_time w d i)
            (size - (i + 1)) (i + 1) size (positions_left i size inside)
            (negation_reads f' (satisfies_at w f) (i + 1) size (satisfies_negated w f hf))
            (negation_reads g' (satisfies_at w g) (i + 1) size (satisfies_negated w g hg))
            (λ m. hd _))

  all_normal {ℓ} :
      {P : Type ℓ} ⦃o : Ord P⦄ (w : MtlWord P) (fs : Formulas P)
      → HaveIntervals IsUnrestricted fs
      → (i : ℕ) → all_satisfied_at w (normal_forms fs) i ≡ all_satisfied_at w fs i
  all_normal w nil h i = refl
  all_normal w (cons f fs) (h, hs) i = ap₂ ◌&&◌ (satisfies_normal w f h i) (all_normal w fs hs i)

  any_normal {ℓ} :
      {P : Type ℓ} ⦃o : Ord P⦄ (w : MtlWord P) (fs : Formulas P)
      → HaveIntervals IsUnrestricted fs
      → (i : ℕ) → any_satisfied_at w (normal_forms fs) i ≡ any_satisfied_at w fs i
  any_normal w nil h i = refl
  any_normal w (cons f fs) (h, hs) i = ap₂ ◌||◌ (satisfies_normal w f h i) (any_normal w fs hs i)

  any_negated {ℓ} :
      {P : Type ℓ} ⦃o : Ord P⦄ (w : MtlWord P) (fs : Formulas P)
      → HaveIntervals IsUnrestricted fs
      → (i : ℕ) → ltb i (length w) ≡ true
      → any_satisfied_at w (negated_normal_forms fs) i ≡ not (all_satisfied_at w fs i)
  any_negated w nil h i e = refl
  any_negated w (cons f fs) (h, hs) i e =
      ground (arith, satisfies_negated w f h i, any_negated w fs hs i e)

  all_negated {ℓ} :
      {P : Type ℓ} ⦃o : Ord P⦄ (w : MtlWord P) (fs : Formulas P)
      → HaveIntervals IsUnrestricted fs
      → (i : ℕ) → ltb i (length w) ≡ true
      → all_satisfied_at w (negated_normal_forms fs) i ≡ not (any_satisfied_at w fs i)
  all_negated w nil h i e = refl
  all_negated w (cons f fs) (h, hs) i e =
      ground (arith, satisfies_negated w f h i, all_negated w fs hs i e)

-- If no interval restricts the time, the normal form is satisfied at a position exactly if the
-- formula is.
pub satisfies_at-to_positive_normal_form {ℓ} :
    {P : Type ℓ} ⦃o : Ord P⦄ (w : MtlWord P) (f : MtlFormula P) (i : ℕ)
    → HasIntervals IsUnrestricted f
    → satisfies_at w (to_positive_normal_form f) i ≡ satisfies_at w f i
satisfies_at-to_positive_normal_form w f i h = satisfies_normal w f h i

until_loop_first :
    (front back timely : ℕ → Bool) (left j : ℕ)
    → 0 < left
    → back j ≡ true
    → until_loop front back timely left j ≡ timely j
unfolding until_loop
until_loop_first front back timely zero j h e = absurd (omega arith)
until_loop_first front back timely (suc left) j h e = rw e

dual_until_loop_first :
    (front back timely : ℕ → Bool) (left j : ℕ)
    → 0 < left
    → back j ≡ false
    → dual_until_loop front back timely left j ≡ false
unfolding dual_until_loop
dual_until_loop_first front back timely zero j h e = absurd (omega arith)
dual_until_loop_first front back timely (suc left) j h e = ground arith

-- On a word whose second position satisfies q outside of the interval, the negation of `p until q`
-- is satisfied and its normal form is not.
pub negated_until_differs {ℓ} :
    {P : Type ℓ} ⦃o : Ord P⦄ (w : MtlWord P) (p q : P) (d : Interval)
    → 1 < length w
    → member q (symbols_at w 1) ≡ true
    → in_time w d 0 1 ≡ false
    → (satisfies w (lneg (luntil (prop p) (prop q) d)) ≡ true)
      × (satisfies w (to_positive_normal_form (lneg (luntil (prop p) (prop q) d))) ≡ false)
unfolding satisfies satisfies_at to_positive_normal_form
negated_until_differs w p q d h m t = (
  ground (
    arith,
    until_loop_first (satisfies_at w (prop p)) (satisfies_at w (prop q)) (in_time w d 0)
        (length w - (0 + 1)) (0 + 1) (omega arith) (ground arith),
  ),
  ground (
    arith,
    dual_until_loop_first (satisfies_at w (lneg (prop p))) (satisfies_at w (lneg (prop q)))
        (in_time w d 0) (length w - (0 + 1)) (0 + 1) (omega arith) (ground arith),
  ),
)
