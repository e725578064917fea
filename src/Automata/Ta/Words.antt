-- ===== src/Automata/Ta/Words.antt =====
-- src/automata/include/automata/ta.h and ta.hpp: `Path`, and the words that a timed automaton
-- accepts.
use scico_d.Prelude.{
  Bool, false, List, [], ◌∷◌, ◌++◌, map, Ord, lt_list, pair_ord, member, any_of, is_empty_list,
  Result, ok, after, if◌then◌else◌,
}
use scico_d.Automata.ClockConstraint.{TimeDomain}
use scico_d.Automata.Ta.{Ta, TaConfiguration, TaError}
use scico_d.Automata.Ta.Runs.{configuration_ord, make_symbol_step, reset_clocks}

-- `Path`
pub record TaPath {ℓ} (L A C V : Type ℓ) : Type ℓ where
  pub sequence : List (A × (V × L))
  pub clock_valuations : List (C × V)
  pub current_location : L
  pub tick : V

module _ {ℓ} {L A C V : Type ℓ} ⦃l : Ord L⦄ ⦃o : Ord A⦄ ⦃c : Ord C⦄ ⦃v : Ord V⦄
    ⦃t : TimeDomain V⦄ where
  -- The constructor of `Path`.
  unfoldable pub make_path : L → List C → TaPath L A C V
  unfolding reset_clocks
  make_path initial clocks = record {
    sequence = [];
    clock_valuations = reset_clocks clocks [];
    current_location = initial;
    tick = t.origin;
  }

  abbrev pub get_current_configuration : TaPath L A C V → TaConfiguration L C V
  get_current_configuration path = record {
    location = path.current_location;
    clock_valuations = path.clock_valuations;
  }

  -- A set of paths is ordered by `operator<`, which reads the sequences only: a path whose sequence
  -- some path of the set has is not inserted.
  unfoldable pub insert_path : TaPath L A C V → List (TaPath L A C V) → List (TaPath L A C V)
  insert_path p [] = p ∷ []
  insert_path p (q ∷ qs) =
      if lt_list p.sequence q.sequence
      then p ∷ q ∷ qs
      else if lt_list q.sequence p.sequence
      then q ∷ insert_path p qs
      else q ∷ qs

  unfoldable pub insert_paths :
      List (TaPath L A C V) → List (TaPath L A C V) → List (TaPath L A C V)
  unfolding insert_path
  insert_paths [] paths = paths
  insert_paths (p ∷ ps) paths = insert_paths ps (insert_path p paths)

  -- The loop over the target configurations: the new path is a copy of `path` from before the entry
  -- of its symbol is appended, and `path` keeps the entry for the next target.
  unfoldable pub paths_to :
      A
      → V
      → TaPath L A C V
      → List (TaConfiguration L C V)
      → List (TaPath L A C V)
      → List (TaPath L A C V)
  unfolding insert_path
  paths_to symbol time path [] paths = paths
  paths_to symbol time path (target ∷ targets) paths =
      paths_to symbol time
        (record path { sequence = path.sequence ++ (symbol, (time, target.location)) ∷ [] }) targets
        (insert_path
          (record path {
            clock_valuations = target.clock_valuations;
            current_location = target.location;
          })
          paths)

  -- The path after all clocks have ticked.
  abbrev pub advance_path : TaPath L A C V → V → TaPath L A C V
  advance_path path time = record path {
    clock_valuations =
        map (λ x. (x.0, t.add x.1 (t.difference time path.tick).1)) path.clock_valuations;
    tick = time;
  }

  unfoldable pub make_transition :
      Ta L A C → TaPath L A C V → A → V → Result TaError (List (TaPath L A C V))
  unfolding make_symbol_step paths_to
  make_transition ta path symbol time =
      if v.lt time path.tick
      then ok []
      else let later = advance_path path time in
        after (make_symbol_step ta (get_current_configuration later) symbol)
          (λ targets. ok (paths_to symbol time later targets []))

  -- One symbol of the word, from each path.
  unfoldable pub advance_paths :
      Ta L A C
      → List (TaPath L A C V)
      → A
      → V
      → List (TaPath L A C V)
      → Result TaError (List (TaPath L A C V))
  unfolding make_transition insert_paths
  advance_paths ta [] symbol time res_paths = ok res_paths
  advance_paths ta (path ∷ paths) symbol time res_paths =
      after (make_transition ta path symbol time)
        (λ new_paths. advance_paths ta paths symbol time (insert_paths new_paths res_paths))

  unfoldable pub read_symbols :
      Ta L A C → List (A × V) → List (TaPath L A C V) → Result TaError Bool
  unfolding advance_paths
  read_symbols ta [] paths =
      ok (any_of (λ path. member path.current_location ta.final_locations) paths)
  read_symbols ta ((symbol, time) ∷ word) paths =
      after (advance_paths ta paths symbol time [])
        (λ res_paths. if is_empty_list res_paths then ok false else read_symbols ta word res_paths)

  unfoldable pub accepts_word : Ta L A C → List (A × V) → Result TaError Bool
  unfolding read_symbols make_path
  accepts_word ta word = read_symbols ta word (make_path ta.initial_location ta.clocks ∷ [])
