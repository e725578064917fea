-- ===== src/Automata/Ta.antt =====
-- src/automata/include/automata/ta.h and ta.hpp: timed automata over locations `L`, actions `A`,
-- clock names `C` and clock valuations `V`. A multimap is the list of its entries in the order of
-- the keys; entries with the same key stay in the order of their insertion.
pub mod Runs
pub mod Words
pub mod WellFormed
pub mod Steps
pub mod Language
pub mod Totality
pub mod Constants
use scico_d.Prelude.{
  ℕ, Bool, true, false, not, ◌&&◌, List, [], ◌∷◌, ◌++◌, map, Option, none, some, Ord, nat_ord,
  pair_ord, list_ord, eqb, ltb, lt_pair, insert, insert_all, member, includes, any_of, all_of,
  lookup, assign, Result, ok, err, after, if◌then◌else◌,
}
use scico_d.Automata.ClockConstraint.{
  TimeDomain, ClockConstraint, not_equal_to, get_comparand, is_satisfied,
}

-- `InvalidSymbolException`, `InvalidLocationException`, `InvalidClockException`, what the
-- constructor throws itself, and `std::out_of_range` of `std::map::at`.
pub data TaError : Type 0 where
  invalid_symbol invalid_location invalid_clock : TaError
  final_not_location initial_not_location unknown_clock inequality_in_guard out_of_range : TaError

pub record Transition {ℓ} (L A C : Type ℓ) : Type ℓ where
  pub source : L
  pub target : L
  pub symbol : A
  pub clock_constraints : List (C × ClockConstraint)
  pub clock_resets : List C

pub record Ta {ℓ} (L A C : Type ℓ) : Type ℓ where
  pub alphabet : List A
  pub locations : List L
  pub initial_location : L
  pub final_locations : List L
  pub clocks : List C
  pub transitions : List (Transition L A C)

-- `PlantConfiguration`, with a `ClockSetValuation`.
pub record TaConfiguration {ℓ} (L C V : Type ℓ) : Type ℓ where
  pub location : L
  pub clock_valuations : List (C × V)

abbrev pub is_inequality : ClockConstraint → Bool
is_inequality (not_equal_to k) = true
is_inequality _ = false

module _ {ℓ} {C : Type ℓ} ⦃c : Ord C⦄ where
  -- `clocks_.count` for every guard.
  abbrev pub knows_guards : List C → List (C × ClockConstraint) → Bool
  knows_guards clocks guards = all_of (λ g. member g.0 clocks) guards

  abbrev pub knows_resets : List C → List C → Bool
  knows_resets clocks resets = all_of (λ x. member x clocks) resets

  -- The checks of the guards of a transition, in their order.
  abbrev pub check_guards : List C → List (C × ClockConstraint) → Result TaError (Unit {0})
  check_guards clocks [] = ok tt
  check_guards clocks ((clock, constraint) ∷ guards) =
      if not (member clock clocks)
      then err unknown_clock
      else if is_inequality constraint
      then err inequality_in_guard
      else check_guards clocks guards

module _ {ℓ} {L A C : Type ℓ} ⦃l : Ord L⦄ where
  -- The multimap of the transitions has the source as key.
  unfoldable pub insert_transition :
      Transition L A C → List (Transition L A C) → List (Transition L A C)
  insert_transition x [] = x ∷ []
  insert_transition x (y ∷ ys) =
      if l.lt x.source y.source then x ∷ y ∷ ys else y ∷ insert_transition x ys

module _ {ℓ} {L A C : Type ℓ} ⦃l : Ord L⦄ ⦃o : Ord A⦄ ⦃c : Ord C⦄ where
  unfoldable pub add_transition : Ta L A C → Transition L A C → Result TaError (Ta L A C)
  unfolding insert_transition
  add_transition ta tr =
      if not (member tr.symbol ta.alphabet)
      then err invalid_symbol
      else if not (member tr.source ta.locations)
      then err invalid_location
      else if not (member tr.target ta.locations)
      then err invalid_location
      else if not (knows_guards ta.clocks tr.clock_constraints)
      then err invalid_clock
      else if not (knows_resets ta.clocks tr.clock_resets)
      then err invalid_clock
      else ok (record ta { transitions = insert_transition tr ta.transitions })

  unfoldable pub add_location : Ta L A C → L → Ta L A C
  add_location ta location = record ta { locations = insert location ta.locations }

  unfoldable pub add_final_location : Ta L A C → L → Ta L A C
  add_final_location ta location = record ta {
    locations = insert location ta.locations;
    final_locations = insert location ta.final_locations;
  }

  unfoldable pub add_action : Ta L A C → A → Ta L A C
  add_action ta action = record ta { alphabet = insert action ta.alphabet }

  unfoldable pub add_clock : Ta L A C → C → Ta L A C
  add_clock ta name = record ta { clocks = insert name ta.clocks }

  unfoldable pub add_locations : Ta L A C → List L → Ta L A C
  unfolding add_location
  add_locations ta [] = ta
  add_locations ta (location ∷ locations) = add_locations (add_location ta location) locations

  -- The constructor without clocks and transitions.
  unfoldable pub make_empty_ta : List A → L → List L → Ta L A C
  unfolding add_locations
  make_empty_ta alphabet initial finals =
      add_locations
        (record {
          alphabet = alphabet;
          locations = initial ∷ [];
          initial_location = initial;
          final_locations = finals;
          clocks = [];
          transitions = [];
        })
        finals

  unfoldable pub add_transitions : Ta L A C → List (Transition L A C) → Result TaError (Ta L A C)
  unfolding add_transition
  add_transitions ta [] = ok ta
  add_transitions ta (tr ∷ trs) =
      after (check_guards ta.clocks tr.clock_constraints)
        (λ u. after (add_transition ta tr) (λ ta'. add_transitions ta' trs))

  -- The fields before the transitions are added.
  abbrev pub make_ta_without_transitions : List L → List A → L → List L → List C → Ta L A C
  make_ta_without_transitions locations alphabet initial finals clocks = record {
    alphabet = alphabet;
    locations = locations;
    initial_location = initial;
    final_locations = finals;
    clocks = clocks;
    transitions = [];
  }

  -- The constructor with all fields.
  unfoldable pub make_ta :
      List L → List A → L → List L → List C → List (Transition L A C) → Result TaError (Ta L A C)
  unfolding add_transitions
  make_ta locations alphabet initial finals clocks transitions =
      if not (includes locations finals)
      then err final_not_location
      else if not (member initial locations)
      then err initial_not_location
      else add_transitions (make_ta_without_transitions locations alphabet initial finals clocks)
          transitions
