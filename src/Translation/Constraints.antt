-- ===== src/Translation/Constraints.antt =====
-- src/mtl_ata_translation/include/mtl_ata_translation/translator.hpp: `create_contains` and
-- `create_negated_contains` against the interval's own test.
use scico_d.Prelude.{ℕ, Bool, true, refl, ◌∙◌, not, ◌≡◌, ◌&&◌, ◌||◌, arith, Ord, nat_ord}
use scico_d.Utilities.Interval.{Interval, BoundType, weak, strict, infty, contains}
use scico_d.Automata.ClockConstraint.{TimeDomain, nat_time, is_satisfied}
use scico_d.Automata.AtaFormula.{States, is_satisfied_by}
use scico_d.Automata.AtaFormula.Simplification.{
  is_satisfied_by-create_conjunction, is_satisfied_by-create_disjunction,
}
use scico_d.Translation.{
  lower_constraint, upper_constraint, negated_lower_constraint, negated_upper_constraint,
  create_contains, create_negated_contains,
}

module _ {ℓ} {V : Type ℓ} ⦃t : TimeDomain V⦄ where
  abbrev pub is_above : BoundType → ℕ → V → Bool
  is_above infty l x = true
  is_above weak l x = not (t.less_than x l)
  is_above strict l x = t.greater_than x l

  abbrev pub is_below : BoundType → ℕ → V → Bool
  is_below infty u x = true
  is_below weak u x = not (t.greater_than x u)
  is_below strict u x = t.less_than x u

  -- A valuation of any domain in the interval.
  unfoldable pub lies_within : Interval → V → Bool
  lies_within i x = is_above i.lower_bound_type i.lower x && is_below i.upper_bound_type i.upper x

module _ {ℓ} {L V : Type ℓ} ⦃o : Ord L⦄ ⦃v : Ord V⦄ ⦃t : TimeDomain V⦄ where
  bounds_of_types :
      (lt ut : BoundType) (l u : ℕ) (x : V) (s : States L V)
      → let i : Interval = record {
        lower = l;
        upper = u;
        lower_bound_type = lt;
        upper_bound_type = ut;
      } in
        (is_satisfied_by (lower_constraint i) s x && is_satisfied_by (upper_constraint i) s x)
        ≡ (is_above lt l x && is_below ut u x)
  unfolding is_satisfied_by is_satisfied
  bounds_of_types weak weak l u x s = refl
  bounds_of_types weak strict l u x s = refl
  bounds_of_types weak infty l u x s = refl
  bounds_of_types strict weak l u x s = refl
  bounds_of_types strict strict l u x s = refl
  bounds_of_types strict infty l u x s = refl
  bounds_of_types infty weak l u x s = refl
  bounds_of_types infty strict l u x s = refl
  bounds_of_types infty infty l u x s = refl

  -- In any domain of valuations, the formula of an interval is satisfied exactly if the valuation
  -- lies within the interval.
  pub is_satisfied_by-create_contains_within :
      (i : Interval) (s : States L V) (x : V)
      → is_satisfied_by (create_contains i) s x ≡ lies_within i x
  unfolding create_contains lies_within
  is_satisfied_by-create_contains_within i s x =
      rw (is_satisfied_by-create_conjunction (lower_constraint i) (upper_constraint i) s x)
        (bounds_of_types i.lower_bound_type i.upper_bound_type i.lower i.upper x s)

within_of_types :
    (lt ut : BoundType) (l u x : ℕ)
    → (is_above lt l x && is_below ut u x)
      ≡ contains (record { lower = l; upper = u; lower_bound_type = lt; upper_bound_type = ut }) x
unfolding contains
within_of_types weak weak l u x = ground arith
within_of_types _ _ l u x = ground arith

-- At whole numbers, the formula of an interval is satisfied exactly if the interval contains the
-- valuation.
pub is_satisfied_by-create_contains :
    {L : Type 0} ⦃o : Ord L⦄ (i : Interval) (s : States L ℕ) (x : ℕ)
    → is_satisfied_by (create_contains i) s x ≡ contains i x
unfolding lies_within
is_satisfied_by-create_contains i s x =
    is_satisfied_by-create_contains_within i s x
    ∙ within_of_types i.lower_bound_type i.upper_bound_type i.lower i.upper x

module _ {ℓ} {L V : Type ℓ} ⦃o : Ord L⦄ ⦃v : Ord V⦄ ⦃t : TimeDomain V⦄ where
  negation_of_types :
      (lt ut : BoundType) (l u : ℕ) (x : V) (s : States L V)
      → let i : Interval = record {
        lower = l;
        upper = u;
        lower_bound_type = lt;
        upper_bound_type = ut;
      } in
        (is_satisfied_by (negated_lower_constraint i) s x
          || is_satisfied_by (negated_upper_constraint i) s x)
        ≡ not (is_satisfied_by (lower_constraint i) s x && is_satisfied_by (upper_constraint i) s x)
  unfolding is_satisfied_by is_satisfied
  negation_of_types weak weak l u x s = ground arith
  negation_of_types _ _ l u x s = ground arith

  -- In any domain of valuations, the formula that excludes an interval is satisfied exactly if the
  -- formula of the interval is not.
  pub is_satisfied_by-create_negated_contains :
      (i : Interval) (s : States L V) (x : V)
      → is_satisfied_by (create_negated_contains i) s x
        ≡ not (is_satisfied_by (create_contains i) s x)
  unfolding create_contains create_negated_contains
  is_satisfied_by-create_negated_contains i s x =
      rw
        (
          is_satisfied_by-create_conjunction (lower_constraint i) (upper_constraint i) s x,
          is_satisfied_by-create_disjunction (negated_lower_constraint i)
              (negated_upper_constraint i) s x,
        )
        (negation_of_types i.lower_bound_type i.upper_bound_type i.lower i.upper x s)
