-- ===== src/Examples/Atas.antt =====
-- Alternating timed automata over numbers as locations and symbols.
use scico_d.Prelude.{
  ℕ, Bool, true, false, ◌≡◌, ◌↔◌, refl, List, [], ◌∷◌, some, nat_ord, list_ord, Memᴰ, ok, eqb,
  if◌then◌else◌,
}
use scico_d.Automata.ClockConstraint.{nat_time}
use scico_d.Automata.AtaFormula.{
  State, state_ord, location_formula, disjunction_formula, reset_clock_formula, States,
}
use scico_d.Automata.AtaFormula.Models.{covers}
use scico_d.Automata.Ata.{
  Transition, Ata, make_ata, make_symbol_step, models_of, is_stuck, is_accepting_configuration,
  get_initial_configuration, accepts_word,
}
use scico_d.Automata.Ata.Steps.{includes_sink, satisfies_transitions, covers-make_symbol_step}
use scico_d.Automata.Ata.Words.{HasRun, accepts_word_iff}
use scico_d.Automata.Ata.Sink.{make_ata_sink}

-- On symbol 5, location 0 goes to location 1 with its clock, or to location 2 at 0; 9 is the sink.
abbrev split_transition : Transition ℕ ℕ
split_transition = record {
  source = 0;
  symbol = 5;
  formula = disjunction_formula (location_formula 1) (reset_clock_formula (location_formula 2));
}

abbrev splitting : Ata ℕ ℕ
splitting = record {
  alphabet = 5 ∷ [];
  initial_location = 0;
  final_locations = 2 ∷ [];
  transitions = split_transition ∷ [];
  sink_location = some 9;
}

abbrev state_at : ℕ → ℕ → State ℕ ℕ
state_at a x = record { location = a; clock_valuation = x }

covers-make_symbol_step_example :
    covers (state_at 1 3 ∷ state_at 4 4 ∷ []) (make_symbol_step splitting (state_at 0 3 ∷ []) 5) ≡ (
      if is_stuck (models_of {V = ℕ} splitting (state_at 0 3 ∷ []) 5)
      then includes_sink splitting.sink_location (state_at 1 3 ∷ state_at 4 4 ∷ [])
      else satisfies_transitions splitting 5 (state_at 0 3 ∷ []) (state_at 1 3 ∷ state_at 4 4 ∷ []))
covers-make_symbol_step_example =
    covers-make_symbol_step splitting 5 (state_at 0 3 ∷ []) (state_at 1 3 ∷ state_at 4 4 ∷ [])
      ((refl, tt), (tt, tt))

abbrev rest_of_word : List (ℕ × ℕ)
rest_of_word = (5, 2) ∷ []

accepts_word_iff_example :
    (accepted : Bool) × (accepts_word splitting ((5, 0) ∷ rest_of_word) ≡ ok accepted)
    × ((accepted ≡ true) ↔ (
        (next : States ℕ ℕ) × Memᴰ next
          (make_symbol_step splitting (get_initial_configuration splitting) 5)
        × HasRun splitting rest_of_word 0 next))
accepts_word_iff_example = accepts_word_iff splitting 5 0 rest_of_word refl (refl, tt)

make_ata_sink_example :
    (eqb splitting.initial_location 9 ≡ false)
    × (make_symbol_step splitting (state_at 9 3 ∷ []) 5 ≡ (state_at 9 0 ∷ []) ∷ [])
    × (is_accepting_configuration splitting (state_at 9 3 ∷ []) ≡ false)
unfolding make_ata
make_ata_sink_example =
    make_ata_sink (5 ∷ []) 0 (2 ∷ []) (split_transition ∷ []) 9 splitting 3 5 refl

-- A configuration whose second state has no transition loses that state.
loses_state :
    make_symbol_step splitting (state_at 0 3 ∷ state_at 1 3 ∷ []) 5
    ≡ make_symbol_step splitting (state_at 0 3 ∷ []) 5
unfolding make_symbol_step
loses_state = refl
