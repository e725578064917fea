-- ===== src/Automata/AtaFormula.antt =====
-- src/automata/include/automata/ata_formula.h and ata_formula.hpp: the formulas of alternating
-- timed automata over locations `L` and clock valuations `V`.
pub mod Models
pub mod Simplification
use scico_d.Prelude.{
  Bool, true, false, not, ◌&&◌, ◌||◌, List, [], ◌∷◌, Ord, lt_pair, lt_pair_irrefl, lt_pair_trans,
  lt_pair_total, ◌≡◌, insert, insert_all, includes, member, any_of, if◌then◌else◌, list_ord,
}
use scico_d.Automata.ClockConstraint.{TimeDomain, ClockConstraint, is_satisfied}

pub record State {ℓ} (L V : Type ℓ) : Type ℓ where
  pub location : L
  pub clock_valuation : V

module _ {ℓ} {L V : Type ℓ} ⦃l : Ord L⦄ ⦃v : Ord V⦄ where
  abbrev pub lt_state : State L V → State L V → Bool
  lt_state a b = lt_pair a.location a.clock_valuation b.location b.clock_valuation

  pub lt_state_irrefl : (a : State L V) → lt_state a a ≡ false
  lt_state_irrefl a = lt_pair_irrefl a.location a.clock_valuation

  pub lt_state_trans :
      (a b c : State L V) → lt_state a b ≡ true → lt_state b c ≡ true → lt_state a c ≡ true
  lt_state_trans a b c =
      lt_pair_trans a.location a.clock_valuation b.location b.clock_valuation c.location
        c.clock_valuation

  pub lt_state_total : (a b : State L V) → lt_state a b ≡ false → lt_state b a ≡ false → a ≡ b
  lt_state_total a b h k =
      let e = lt_pair_total a.location a.clock_valuation b.location b.clock_valuation h k in
      λ i. record { location = e.0 i; clock_valuation = e.1 i }

  instance abbrev pub state_ord : Ord (State L V)
  state_ord = record {
    lt = lt_state;
    lt_irrefl = lt_state_irrefl;
    lt_trans = lt_state_trans;
    lt_total = lt_state_total;
  }

-- The subclasses of `Formula`.
pub data Formula {ℓ} (L : Type ℓ) : Type ℓ where
  true_formula : Formula L
  false_formula : Formula L
  location_formula : L → Formula L
  clock_constraint_formula : ClockConstraint → Formula L
  conjunction_formula : Formula L → Formula L → Formula L
  disjunction_formula : Formula L → Formula L → Formula L
  reset_clock_formula : Formula L → Formula L

-- `std::set<State>`, and `std::set<std::set<State>>`.
abbrev pub States {ℓ} : Type ℓ → Type ℓ → Type ℓ
States L V = List (State L V)

module _ {ℓ} {L V : Type ℓ} ⦃l : Ord L⦄ ⦃v : Ord V⦄ where
  -- The union of one model of the first conjunct with each model of the second.
  unfoldable pub insert_unions :
      States L V → List (States L V) → List (States L V) → List (States L V)
  insert_unions m1 [] res = res
  insert_unions m1 (m2 ∷ s2) res = insert_unions m1 s2 (insert (insert_all m2 m1) res)

  -- The loop over the cartesian product.
  unfoldable pub cartesian_unions :
      List (States L V) → List (States L V) → List (States L V) → List (States L V)
  unfolding insert_unions
  cartesian_unions [] s2 res = res
  cartesian_unions (m1 ∷ s1) s2 res = cartesian_unions s1 s2 (insert_unions m1 s2 res)

  -- `std::experimental::erase_if` on the models that include one of `disjunct2_models`.
  unfoldable pub erase_supersets : List (States L V) → List (States L V) → List (States L V)
  erase_supersets [] s2 = []
  erase_supersets (m1 ∷ s1) s2 =
      let rest = erase_supersets s1 s2 in
      if any_of (λ m2. includes m1 m2) s2 then rest else m1 ∷ rest

  -- The loop that adds the models which include none of those already there.
  unfoldable pub add_models : List (States L V) → List (States L V) → List (States L V)
  add_models [] res = res
  add_models (m2 ∷ s2) res =
      add_models s2 (if any_of (λ m1. includes m2 m1) res then res else insert m2 res)

module _ {ℓ} {L V : Type ℓ} ⦃l : Ord L⦄ ⦃v : Ord V⦄ ⦃t : TimeDomain V⦄ where
  unfoldable pub is_satisfied_by : Formula L → States L V → V → Bool
  is_satisfied_by true_formula states x = true
  is_satisfied_by false_formula states x = false
  is_satisfied_by (location_formula a) states x =
      member (record { location = a; clock_valuation = x }) states
  is_satisfied_by (clock_constraint_formula c) states x = is_satisfied c x
  is_satisfied_by (conjunction_formula f g) states x =
      is_satisfied_by f states x && is_satisfied_by g states x
  is_satisfied_by (disjunction_formula f g) states x =
      is_satisfied_by f states x || is_satisfied_by g states x
  is_satisfied_by (reset_clock_formula f) states x = is_satisfied_by f states t.origin

  unfoldable pub get_minimal_models : Formula L → V → List (States L V)
  unfolding cartesian_unions erase_supersets add_models
  get_minimal_models true_formula x = [] ∷ []
  get_minimal_models false_formula x = []
  get_minimal_models (location_formula a) x =
      (record { location = a; clock_valuation = x } ∷ []) ∷ []
  get_minimal_models (clock_constraint_formula c) x = if is_satisfied c x then [] ∷ [] else []
  get_minimal_models (conjunction_formula f g) x =
      cartesian_unions (get_minimal_models f x) (get_minimal_models g x) []
  get_minimal_models (disjunction_formula f g) x =
      let disjunct1_models = get_minimal_models f x in
      let disjunct2_models = get_minimal_models g x in
      add_models disjunct2_models (erase_supersets disjunct1_models disjunct2_models)
  get_minimal_models (reset_clock_formula f) x = get_minimal_models f t.origin
