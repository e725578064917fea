-- ===== src/Mtl/Satisfaction.antt =====
-- src/mtl/include/mtl/MTLFormula.hpp: `MTLWord::satisfies_at` and `satisfies`. Words are lists of
-- sets of propositions with a time of type `Endpoint`, whose subtraction wraps around.
pub mod Until
use scico_d.Prelude.{
  ℕ, zero, suc, ◌+◌, ◌-◌, ◌%◌, ◌^◌, Bool, true, false, ◌&&◌, ◌||◌, not, List, [], ◌∷◌, length, ltb,
  if◌then◌else◌, Ord, member, eqb,
}
use scico_d.Utilities.Interval.{Interval, contains}
use scico_d.Mtl.Formula.{
  MtlFormula, Formulas, ltrue, lfalse, prop, land, lor, lneg, luntil, ldual_until, nil, cons,
}

abbrev pub MtlWord {ℓ} : Type ℓ → Type ℓ
MtlWord P = List (List P × ℕ)

module _ {ℓ} {P : Type ℓ} where
  -- `word_[i].first` and `word_[i].second`, which are read only at `i < word_.size()`.
  abbrev pub symbols_at : MtlWord P → ℕ → List P
  symbols_at [] i = []
  symbols_at ((s, t) ∷ w) zero = s
  symbols_at ((s, t) ∷ w) (suc i) = symbols_at w i

  abbrev pub time_at : MtlWord P → ℕ → ℕ
  time_at [] i = 0
  time_at ((s, t) ∷ w) zero = t
  time_at ((s, t) ∷ w) (suc i) = time_at w i

  -- `duration.contains(word_[j].second - word_[i].second)`
  abbrev pub in_time : MtlWord P → Interval → ℕ → ℕ → Bool
  in_time w duration i j = contains duration ((time_at w j + 2 ^ 32 - time_at w i) % 2 ^ 32)

-- The loops over `j`, with the number of positions left: `front` and `back` are the operands at a
-- position, `timely` the test of the interval.
unfoldable pub until_loop : (front back timely : ℕ → Bool) → ℕ → ℕ → Bool
until_loop front back timely zero j = false
until_loop front back timely (suc left) j =
    let rest = until_loop front back timely left (suc j) in
    if back j then timely j else if not (front j) then false else rest

unfoldable pub dual_until_loop : (front back timely : ℕ → Bool) → ℕ → ℕ → Bool
dual_until_loop front back timely zero j = true
dual_until_loop front back timely (suc left) j =
    let rest = dual_until_loop front back timely left (suc j) in
    if front j && back j then timely j else if not (back j) then false else rest

-- Past the end of the word no formula is satisfied.
unfoldable mutual
  unfolding until_loop dual_until_loop

  pub satisfies_at {ℓ} : {P : Type ℓ} ⦃o : Ord P⦄ → MtlWord P → MtlFormula P → ℕ → Bool
  satisfies_at w ltrue i = ltb i (length w) && true
  satisfies_at w lfalse i = ltb i (length w) && false
  satisfies_at w (prop p) i = ltb i (length w) && member p (symbols_at w i)
  satisfies_at w (land fs) i = ltb i (length w) && all_satisfied_at w fs i
  satisfies_at w (lor fs) i = ltb i (length w) && any_satisfied_at w fs i
  satisfies_at w (lneg f) i = ltb i (length w) && not (satisfies_at w f i)
  satisfies_at w (luntil f g duration) i =
      ltb i (length w)
      && until_loop (satisfies_at w f) (satisfies_at w g) (in_time w duration i)
          (length w - (i + 1)) (i + 1)
  satisfies_at w (ldual_until f g duration) i =
      ltb i (length w)
      && dual_until_loop (satisfies_at w f) (satisfies_at w g) (in_time w duration i)
          (length w - (i + 1)) (i + 1)

  pub all_satisfied_at {ℓ} : {P : Type ℓ} ⦃o : Ord P⦄ → MtlWord P → Formulas P → ℕ → Bool
  all_satisfied_at w nil i = true
  all_satisfied_at w (cons f fs) i = satisfies_at w f i && all_satisfied_at w fs i

  pub any_satisfied_at {ℓ} : {P : Type ℓ} ⦃o : Ord P⦄ → MtlWord P → Formulas P → ℕ → Bool
  any_satisfied_at w nil i = false
  any_satisfied_at w (cons f fs) i = satisfies_at w f i || any_satisfied_at w fs i

unfoldable pub satisfies {ℓ} : {P : Type ℓ} ⦃o : Ord P⦄ → MtlWord P → MtlFormula P → Bool
unfolding satisfies_at
satisfies w phi = satisfies_at w phi 0
