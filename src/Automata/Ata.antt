-- ===== src/Automata/Ata.antt =====
-- src/automata/include/automata/ata.h and ata.hpp: alternating timed automata over locations `L`,
-- symbols `S` and clock valuations `V`.
pub mod Steps
pub mod Words
pub mod Sink
use scico_d.Prelude.{
  Bool, true, false, not, ◌||◌, ◌&&◌, List, [], ◌∷◌, ◌++◌, map, Option, none, some, Ord, eqb,
  insert, after, insert_all, member, any_of, all_of, is_empty_list, list_ord, Result, ok, err,
  if◌then◌else◌,
}
use scico_d.Automata.ClockConstraint.{TimeDomain, Delta}
use scico_d.Automata.AtaFormula.{State, state_ord, Formula, States, get_minimal_models}

-- `Transition`
pub record Transition {ℓ} (L S : Type ℓ) : Type ℓ where
  pub source : L
  pub symbol : S
  pub formula : Formula L

-- The transitions are a `std::set`, whose order on transitions with the same source and symbol is
-- that of the addresses of their formulas: any list of transitions stands for the set in its order.
pub record Ata {ℓ} (L S : Type ℓ) : Type ℓ where
  pub alphabet : List S
  pub initial_location : L
  pub final_locations : List L
  pub transitions : List (Transition L S)
  pub sink_location : Option L

-- What the constructor throws, and what the runs throw.
pub data AtaError : Type 0 where
  initial_is_sink sink_is_final sink_has_transition : AtaError
  wrong_transition_type negative_time_delta invalid_timed_word : AtaError

-- `RunStep`: a symbol or a time.
pub data RunStep {ℓ} (S D : Type ℓ) : Type ℓ where
  symbol_step : S → RunStep S D
  time_step : D → RunStep S D

-- `Run`, a vector that grows at the end, with the newest component first.
abbrev pub Run {ℓ} : Type ℓ → Type ℓ → Type ℓ → Type ℓ
Run L S V = List (RunStep S (Delta V) × States L V)

abbrev pub Configurations {ℓ} : Type ℓ → Type ℓ → Type ℓ
Configurations L V = List (States L V)

module _ {ℓ} {L S : Type ℓ} ⦃l : Ord L⦄ ⦃s : Ord S⦄ where
  -- The checks of the constructor where there is a sink location.
  abbrev pub check_sink : Ata L S → L → Result AtaError (Ata L S)
  check_sink a sink =
      if eqb a.initial_location sink
      then err initial_is_sink
      else if member sink a.final_locations
      then err sink_is_final
      else if any_of (λ t. eqb t.source sink) a.transitions
      then err sink_has_transition
      else ok a

  unfoldable pub make_ata :
      List S → L → List L → List (Transition L S) → Option L → Result AtaError (Ata L S)
  make_ata alphabet initial finals transitions sink =
      let a : Ata L S = record {
        alphabet = alphabet;
        initial_location = initial;
        final_locations = finals;
        transitions = transitions;
        sink_location = sink;
      } in
      elim sink [ none ↦ ok a | some l ↦ check_sink a l ]

  -- `std::find_if` on the source and the symbol.
  unfoldable pub find_transition : List (Transition L S) → L → S → Option (Transition L S)
  find_transition [] location symbol = none
  find_transition (t ∷ ts) location symbol =
      if eqb t.source location && eqb t.symbol symbol
      then some t
      else find_transition ts location symbol

module _ {ℓ} {L V : Type ℓ} ⦃l : Ord L⦄ ⦃v : Ord V⦄ where
  -- The unions of one model with each configuration, and of each model with each configuration.
  unfoldable pub expand_by_model :
      States L V → Configurations L V → Configurations L V → Configurations L V
  expand_by_model model [] expanded = expanded
  expand_by_model model (c ∷ cs) expanded =
      expand_by_model model cs (insert (insert_all model c) expanded)

  unfoldable pub expand_by_models :
      Configurations L V → Configurations L V → Configurations L V → Configurations L V
  unfolding expand_by_model
  expand_by_models [] configurations expanded = expanded
  expand_by_models (m ∷ ms) configurations expanded =
      expand_by_models ms configurations (expand_by_model m configurations expanded)

  -- The loop over the models of the states but the first.
  unfoldable pub expand_configurations :
      List (Configurations L V) → Configurations L V → Configurations L V
  unfolding expand_by_models
  expand_configurations [] configurations = configurations
  expand_configurations (models ∷ rest) configurations =
      expand_configurations rest (expand_by_models models configurations [])

  abbrev pub is_stuck : List (Configurations L V) → Bool
  is_stuck models = is_empty_list models || any_of is_empty_list models

  -- `models[0]` is split into configurations; the others are added one by one.
  abbrev pub combine_models : List (Configurations L V) → Configurations L V
  combine_models [] = []
  combine_models (models ∷ rest) = expand_configurations rest (insert_all models [])

module _ {ℓ} {L V : Type ℓ} ⦃l : Ord L⦄ ⦃v : Ord V⦄ ⦃t : TimeDomain V⦄ where
  abbrev pub sink_configurations : Option L → Configurations L V
  sink_configurations none = []
  sink_configurations (some sink) =
      (record { location = sink; clock_valuation = t.origin } ∷ []) ∷ []

  abbrev pub advance_state : Delta V → State L V → State L V
  advance_state time q = record {
    location = q.location;
    clock_valuation = t.add q.clock_valuation time.1;
  }

  unfoldable pub make_time_step : States L V → Delta V → Result AtaError (States L V)
  make_time_step start time =
      if time.0
      then err negative_time_delta
      else ok (insert_all (map (advance_state time) start) [])

abbrev pub is_symbol_step {ℓ} : {S D : Type ℓ} → RunStep S D → Bool
is_symbol_step (symbol_step a) = true
is_symbol_step (time_step a) = false

module _ {ℓ} {L S V : Type ℓ} ⦃l : Ord L⦄ ⦃s : Ord S⦄ ⦃v : Ord V⦄ ⦃t : TimeDomain V⦄ where
  unfoldable pub get_initial_configuration : Ata L S → States L V
  get_initial_configuration a =
      record { location = a.initial_location; clock_valuation = t.origin } ∷ []

  -- The loop over the start states, which skips a state without a transition.
  unfoldable pub models_of_states : Ata L S → States L V → S → List (Configurations L V)
  unfolding find_transition
  models_of_states a [] symbol = []
  models_of_states a (q ∷ qs) symbol = elim (find_transition a.transitions q.location symbol) [
    | none ↦ models_of_states a qs symbol
    | some tr ↦ get_minimal_models tr.formula q.clock_valuation ∷ models_of_states a qs symbol
  ]

  -- Without start states there is one model, the empty set of states.
  abbrev pub models_of : Ata L S → States L V → S → List (Configurations L V)
  models_of a start symbol =
      if is_empty_list start then ([] ∷ []) ∷ [] else models_of_states a start symbol

  unfoldable pub make_symbol_step : Ata L S → States L V → S → Configurations L V
  unfolding models_of_states expand_configurations
  make_symbol_step a start symbol =
      let models = models_of a start symbol in
      if is_stuck models then sink_configurations a.sink_location else combine_models models

  unfoldable pub is_accepting_configuration : Ata L S → States L V → Bool
  is_accepting_configuration a configuration =
      all_of (λ q. member q.location a.final_locations) configuration

module _ {ℓ} {L S V : Type ℓ} ⦃l : Ord L⦄ ⦃s : Ord S⦄ ⦃v : Ord V⦄ ⦃t : TimeDomain V⦄ where
  -- `run.push_back` for each configuration of a step.
  abbrev pub extend_run : Run L S V → S → Configurations L V → List (Run L S V)
  extend_run run symbol configurations = map (λ c. (symbol_step symbol, c) ∷ run) configurations

  abbrev pub prepend_runs :
      List (Run L S V) → Result AtaError (List (Run L S V)) → Result AtaError (List (Run L S V))
  prepend_runs runs (ok rest) = ok (runs ++ rest)
  prepend_runs runs (err e) = err e

  -- The runs of one round of `make_symbol_transition`.
  abbrev pub symbol_successors : Ata L S → Run L S V → S → Result AtaError (List (Run L S V))
  symbol_successors a [] symbol =
      ok (extend_run [] symbol (make_symbol_step a (get_initial_configuration a) symbol))
  symbol_successors a ((step, c) ∷ run) symbol =
      if is_symbol_step step
      then err wrong_transition_type
      else ok (extend_run ((step, c) ∷ run) symbol (make_symbol_step a c symbol))

  unfoldable pub make_symbol_transition :
      Ata L S → List (Run L S V) → S → Result AtaError (List (Run L S V))
  unfolding make_symbol_step get_initial_configuration
  make_symbol_transition a [] symbol = ok []
  make_symbol_transition a (run ∷ runs) symbol =
      after (symbol_successors a run symbol)
        (λ new. prepend_runs new (make_symbol_transition a runs symbol))

  -- The run of one round of `make_time_transition`.
  abbrev pub time_successor : Run L S V → Delta V → Result AtaError (Run L S V)
  time_successor [] time = err wrong_transition_type
  time_successor ((step, c) ∷ run) time =
      if is_symbol_step step
      then after (make_time_step c time) (λ c'. ok ((time_step time, c') ∷ (step, c) ∷ run))
      else err wrong_transition_type

  unfoldable pub make_time_transition :
      List (Run L S V) → Delta V → Result AtaError (List (Run L S V))
  unfolding make_time_step
  make_time_transition [] time = ok []
  make_time_transition (run ∷ runs) time =
      after (time_successor run time)
        (λ new. prepend_runs (new ∷ []) (make_time_transition runs time))

  -- `run.back().second`
  abbrev pub last_configuration : Run L S V → States L V
  last_configuration [] = []
  last_configuration ((step, c) ∷ run) = c

  -- The loop over the word after its first symbol.
  unfoldable pub read_word :
      Ata L S → List (S × V) → V → List (Run L S V) → Result AtaError (List (Run L S V))
  unfolding make_symbol_transition make_time_transition
  read_word a [] last_time runs = ok runs
  read_word a ((symbol, time) ∷ word) last_time runs =
      after (make_time_transition runs (t.difference time last_time)) (λ later.
        after (make_symbol_transition a later symbol) (λ next. read_word a word time next))

  unfoldable pub accepts_word : Ata L S → List (S × V) → Result AtaError Bool
  unfolding make_symbol_transition read_word is_accepting_configuration
  accepts_word a [] = ok false
  accepts_word a ((symbol, time) ∷ word) =
      if not (eqb time t.origin)
      then err invalid_timed_word
      else after (make_symbol_transition a ([] ∷ []) symbol) (λ runs.
        after (read_word a word time runs) (λ final.
          ok (any_of (λ run. is_accepting_configuration a (last_configuration run)) final)))
