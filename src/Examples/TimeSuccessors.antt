-- ===== src/Examples/TimeSuccessors.antt =====
-- Canonical words with numbers for locations, clocks and formulas, and K = 1.
use scico_d.Prelude.{
  ℕ, ◌≡◌, refl, ◌<◌, ◌↔◌, ◌⊎◌, List, [], ◌∷◌, some, true, ok, arith, insert, insert_all, nat_ord,
}
use scico_d.Search.CanonicalWord.{
  AbRegionSymbol, plant, ata, CanonicalWord, is_valid_canonical_word,
}
use scico_d.Search.CanonicalWord.Valid.{IsCanonical, is_valid_canonical_word_iff}
use scico_d.Search.TimeSuccessor.{get_time_successor, get_nth_time_successor, get_time_successors}
use scico_d.Search.TimeSuccessor.Validity.{get_time_successor-IsCanonical}
use scico_d.Search.TimeSuccessor.Measure.{measure, get_time_successor_decreases}
use scico_d.Search.TimeSuccessor.Timeline.{
  IsTimeline, get_time_successors_total, get_time_successors-get_elem?,
}

abbrev Symbol : Type 0
Symbol = AbRegionSymbol ℕ ℕ ℕ

abbrev clock_at : ℕ → ℕ → Symbol
clock_at x i = plant (record { location = 0; clock = x; region_index = i })

abbrev formula_at : ℕ → ℕ → Symbol
formula_at a i = ata (record { formula = a; region_index = i })

-- One clock at an integer value, one formula between 0 and 1.
abbrev start : CanonicalWord ℕ ℕ ℕ
start = (clock_at 0 0 ∷ []) ∷ (formula_at 7 1 ∷ []) ∷ []

is_valid_canonical_word_iff_example :
    (is_valid_canonical_word start 3 ≡ ok true) ↔ IsCanonical 3 start
is_valid_canonical_word_iff_example = is_valid_canonical_word_iff start 3 (omega arith)

start-IsCanonical : IsCanonical 3 start
unfolding is_valid_canonical_word
start-IsCanonical = is_valid_canonical_word_iff_example.0 refl

get_time_successor-IsCanonical_example : IsCanonical 3 (get_time_successor start 1)
get_time_successor-IsCanonical_example = get_time_successor-IsCanonical start 1 start-IsCanonical

get_time_successor_decreases_example :
    (get_time_successor start 1 ≡ start)
    ⊎ (measure 3 (get_time_successor start 1) < measure 3 start)
get_time_successor_decreases_example = get_time_successor_decreases start 1 start-IsCanonical

-- The clock leaves its integer value first; then the formula's clock reaches 1.
two_steps : get_nth_time_successor start 2 1 ≡ (formula_at 7 2 ∷ []) ∷ (clock_at 0 1 ∷ []) ∷ []
unfolding get_nth_time_successor get_time_successor insert insert_all
two_steps = refl

abbrev final : CanonicalWord ℕ ℕ ℕ
final = (clock_at 0 3 ∷ formula_at 7 3 ∷ []) ∷ []

get_time_successors_total_example :
    (rest : List (ℕ × CanonicalWord ℕ ℕ ℕ)) × (get_time_successors 13 start 1
      ≡ some ((0, start) ∷ rest))
    × IsTimeline 1 start 1 rest
get_time_successors_total_example =
    get_time_successors_total 13 start 1 start-IsCanonical (omega arith)

abbrev timeline : List (ℕ × CanonicalWord ℕ ℕ ℕ)
timeline =
    (0, start)
    ∷ (1, (clock_at 0 1 ∷ []) ∷ (formula_at 7 1 ∷ []) ∷ [])
    ∷ (2, (formula_at 7 2 ∷ []) ∷ (clock_at 0 1 ∷ []) ∷ [])
    ∷ (3, (clock_at 0 1 ∷ []) ∷ (formula_at 7 3 ∷ []) ∷ [])
    ∷ (4, (clock_at 0 2 ∷ []) ∷ (formula_at 7 3 ∷ []) ∷ [])
    ∷ (5, final)
    ∷ []

timeline_found : get_time_successors 13 start 1 ≡ some timeline
unfolding get_time_successors get_time_successor insert insert_all
timeline_found = refl

get_time_successors-get_elem?_example : ◌≡◌ {A = ℕ} 5 5 × (final ≡ get_nth_time_successor start 5 1)
get_time_successors-get_elem?_example =
    get_time_successors-get_elem? 13 start 1 5 (omega arith) timeline_found refl
