-- ===== src/Automata/ClockConstraint.antt =====
-- src/automata/include/automata/automata.h and automata.cpp: clock constraints.
use scico_d.Prelude.{ℕ, ◌+◌, ◌-◌, if◌then◌else◌, Bool, not, ◌&&◌, ltb, lt_pair, nat_ord}

-- The difference of two times: whether it is negative, and its amount.
abbrev pub Delta {ℓ} : Type ℓ → Type ℓ
Delta V = Bool × V

-- Clock valuations are doubles. This is what the automata use of them: the valuation 0, sums and
-- differences, and the two comparisons with an `Endpoint`, which is an unsigned number.
pub record TimeDomain {ℓ} (V : Type ℓ) : Type ℓ where
  pub origin : V
  pub add : V → V → V
  pub difference : V → V → Delta V
  pub less_than : V → ℕ → Bool
  pub greater_than : V → ℕ → Bool

-- Whole numbers as valuations.
instance abbrev pub nat_time : TimeDomain ℕ
nat_time = record {
  origin = 0;
  add = ◌+◌;
  difference = λ a b. (ltb a b, if ltb a b then b - a else a - b);
  less_than = ltb;
  greater_than = λ v k. ltb k v;
}

-- The variant over `AtomicClockConstraintT<Comp>`, one alternative for each comparison.
pub data ClockConstraint : Type 0 where
  less less_equal equal_to not_equal_to greater_equal greater : ℕ → ClockConstraint

abbrev pub get_comparand : ClockConstraint → ℕ
get_comparand (less k) = k
get_comparand (less_equal k) = k
get_comparand (equal_to k) = k
get_comparand (not_equal_to k) = k
get_comparand (greater_equal k) = k
get_comparand (greater k) = k

abbrev pub get_relation_index : ClockConstraint → ℕ
get_relation_index (less k) = 0
get_relation_index (less_equal k) = 1
get_relation_index (equal_to k) = 2
get_relation_index (not_equal_to k) = 3
get_relation_index (greater_equal k) = 4
get_relation_index (greater k) = 5

-- `operator<`: the relation's index first, then the comparand.
abbrev pub lt_constraint : ClockConstraint → ClockConstraint → Bool
lt_constraint a b =
    lt_pair (get_relation_index a) (get_comparand a) (get_relation_index b) (get_comparand b)

module _ {ℓ} {V : Type ℓ} ⦃t : TimeDomain V⦄ where
  -- `Comp()(valuation, comparand)`
  unfoldable pub is_satisfied : ClockConstraint → V → Bool
  is_satisfied (less k) v = t.less_than v k
  is_satisfied (less_equal k) v = not (t.greater_than v k)
  is_satisfied (equal_to k) v = not (t.less_than v k) && not (t.greater_than v k)
  is_satisfied (not_equal_to k) v = not (not (t.less_than v k) && not (t.greater_than v k))
  is_satisfied (greater_equal k) v = not (t.less_than v k)
  is_satisfied (greater k) v = t.greater_than v k
