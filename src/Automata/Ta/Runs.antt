-- ===== src/Automata/Ta/Runs.antt =====
-- src/automata/include/automata/ta.hpp: the steps of a timed automaton and the words it reads.
use scico_d.Prelude.{
  ℕ, Bool, true, false, not, List, [], ◌∷◌, ◌++◌, Ord, list_ord, pair_ord, eqb, ltb, lt_pair,
  lt_pair_irrefl, lt_pair_trans, lt_pair_total, ◌≡◌, some, none, insert, member, lookup, assign,
  Result, ok, err, after, if◌then◌else◌,
}
use scico_d.Automata.ClockConstraint.{TimeDomain, ClockConstraint, get_comparand, is_satisfied}
use scico_d.Automata.Ta.{Ta, Transition, TaConfiguration, TaError, out_of_range}

module _ {ℓ} {L C V : Type ℓ} ⦃l : Ord L⦄ ⦃c : Ord C⦄ ⦃v : Ord V⦄ where
  abbrev pub lt_configuration : TaConfiguration L C V → TaConfiguration L C V → Bool
  lt_configuration x y = lt_pair x.location x.clock_valuations y.location y.clock_valuations

  pub lt_configuration_irrefl : (x : TaConfiguration L C V) → lt_configuration x x ≡ false
  lt_configuration_irrefl x = lt_pair_irrefl x.location x.clock_valuations

  pub lt_configuration_trans :
      (x y z : TaConfiguration L C V)
      → lt_configuration x y ≡ true
      → lt_configuration y z ≡ true
      → lt_configuration x z ≡ true
  lt_configuration_trans x y z =
      lt_pair_trans x.location x.clock_valuations y.location y.clock_valuations z.location
        z.clock_valuations

  pub lt_configuration_total :
      (x y : TaConfiguration L C V)
      → lt_configuration x y ≡ false
      → lt_configuration y x ≡ false
      → x ≡ y
  lt_configuration_total x y h k =
      let e = lt_pair_total x.location x.clock_valuations y.location y.clock_valuations h k in
      λ i. record { location = e.0 i; clock_valuations = e.1 i }

  instance abbrev pub configuration_ord : Ord (TaConfiguration L C V)
  configuration_ord = record {
    lt = lt_configuration;
    lt_irrefl = lt_configuration_irrefl;
    lt_trans = lt_configuration_trans;
    lt_total = lt_configuration_total;
  }

module _ {ℓ} {C V : Type ℓ} ⦃c : Ord C⦄ ⦃t : TimeDomain V⦄ where
  -- `std::all_of` over the guards; `at` throws where the clock has no valuation.
  unfoldable pub satisfies_guards : List (C × ClockConstraint) → List (C × V) → Result TaError Bool
  unfolding lookup is_satisfied
  satisfies_guards [] clock_vals = ok true
  satisfies_guards ((name, constraint) ∷ guards) clock_vals =
      let rest = satisfies_guards guards clock_vals in
      elim (lookup name clock_vals) [
        | none ↦ err out_of_range
        | some valuation ↦ if is_satisfied constraint valuation then rest else ok false
      ]

  -- `next_clocks[name].reset()` for each reset.
  unfoldable pub reset_clocks : List C → List (C × V) → List (C × V)
  unfolding assign
  reset_clocks [] clocks = clocks
  reset_clocks (name ∷ names) clocks = reset_clocks names (assign name t.origin clocks)

module _ {ℓ} {L A C V : Type ℓ} ⦃l : Ord L⦄ ⦃o : Ord A⦄ ⦃c : Ord C⦄ ⦃t : TimeDomain V⦄ where
  unfoldable pub is_enabled : Transition L A C → A → List (C × V) → Result TaError Bool
  unfolding satisfies_guards
  is_enabled tr symbol clock_vals =
      if not (eqb symbol tr.symbol)
      then ok false
      else satisfies_guards tr.clock_constraints clock_vals

module _ {ℓ} {L A C : Type ℓ} ⦃l : Ord L⦄ where
  -- `equal_range` on the source: the entries from the first that is not below it to the last that is
  -- not above it.
  abbrev pub take_equal : L → List (Transition L A C) → List (Transition L A C)
  take_equal location [] = []
  take_equal location (tr ∷ trs) =
      if l.lt location tr.source then [] else tr ∷ take_equal location trs

  unfoldable pub equal_range : L → List (Transition L A C) → List (Transition L A C)
  equal_range location [] = []
  equal_range location (tr ∷ trs) =
      if l.lt tr.source location then equal_range location trs else take_equal location (tr ∷ trs)

module _ {ℓ} {L A C V : Type ℓ} ⦃l : Ord L⦄ ⦃o : Ord A⦄ ⦃c : Ord C⦄ ⦃v : Ord V⦄
    ⦃t : TimeDomain V⦄ where
  abbrev pub target_configuration : TaConfiguration L C V → Transition L A C → TaConfiguration L C V
  target_configuration configuration tr = record {
    location = tr.target;
    clock_valuations = reset_clocks tr.clock_resets configuration.clock_valuations;
  }

  -- The loop over the transitions of the range.
  unfoldable pub insert_targets :
      TaConfiguration L C V
      → A
      → List (Transition L A C)
      → List (TaConfiguration L C V)
      → Result TaError (List (TaConfiguration L C V))
  unfolding is_enabled reset_clocks
  insert_targets configuration symbol [] res = ok res
  insert_targets configuration symbol (tr ∷ trs) res =
      after (is_enabled tr symbol configuration.clock_valuations) (λ enabled.
        insert_targets configuration symbol trs
          (if enabled then insert (target_configuration configuration tr) res else res))

  unfoldable pub make_symbol_step :
      Ta L A C → TaConfiguration L C V → A → Result TaError (List (TaConfiguration L C V))
  unfolding insert_targets equal_range
  make_symbol_step ta configuration symbol =
      insert_targets configuration symbol (equal_range configuration.location ta.transitions) []

  unfoldable pub get_initial_configuration : Ta L A C → TaConfiguration L C V
  unfolding assign
  get_initial_configuration ta = record {
    location = ta.initial_location;
    clock_valuations = reset_clocks ta.clocks [];
  }

  unfoldable pub is_accepting_configuration : Ta L A C → TaConfiguration L C V → Bool
  is_accepting_configuration ta configuration = member configuration.location ta.final_locations

  -- `get_enabled_transitions`: for each symbol of the alphabet, the enabled transitions with it.
  unfoldable pub enabled_with :
      List (Transition L A C) → TaConfiguration L C V → A → Result TaError (List (Transition L A C))
  unfolding is_enabled
  enabled_with [] configuration symbol = ok []
  enabled_with (tr ∷ trs) configuration symbol =
      after
        (if eqb tr.source configuration.location
          then is_enabled tr symbol configuration.clock_valuations
          else ok false)
        (λ enabled.
          after (enabled_with trs configuration symbol)
            (λ rest. ok (if enabled then tr ∷ rest else rest)))

  unfoldable pub get_enabled_transitions :
      List A
      → List (Transition L A C)
      → TaConfiguration L C V
      → Result TaError (List (Transition L A C))
  unfolding enabled_with
  get_enabled_transitions [] trs configuration = ok []
  get_enabled_transitions (symbol ∷ symbols) trs configuration =
      after (enabled_with trs configuration symbol) (λ enabled.
        after (get_enabled_transitions symbols trs configuration) (λ rest. ok (enabled ++ rest)))

-- `get_largest_constant`
abbrev pub max_comparand {ℓ} : {C : Type ℓ} → List (C × ClockConstraint) → ℕ → ℕ
max_comparand [] res = res
max_comparand ((name, constraint) ∷ guards) res =
    max_comparand guards
      (if ltb res (get_comparand constraint) then get_comparand constraint else res)

abbrev pub max_constant {ℓ} : {L A C : Type ℓ} → List (Transition L A C) → ℕ → ℕ
max_constant [] res = res
max_constant (tr ∷ trs) res = max_constant trs (max_comparand tr.clock_constraints res)

abbrev pub get_largest_constant {ℓ} : {L A C : Type ℓ} → Ta L A C → ℕ
get_largest_constant ta = max_constant ta.transitions 0
