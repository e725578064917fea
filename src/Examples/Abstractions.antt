-- ===== src/Examples/Abstractions.antt =====
-- Canonical words of configurations over numbers, up to the largest constant 3.
use scico_d.Prelude.{
  All, assign, insert_all, ℕ, ◌^◌, ◌+◌, ◌*◌, Bool, true, false, ◌≡◌, refl, List, [], ◌∷◌, nat_ord,
  Result, ok, err, arith,
}
use scico_d.Automata.AtaFormula.{State}
use scico_d.Automata.Regions.{Fraction, is_near_zero}
use scico_d.Search.CanonicalWord.{
  CanonicalWord, is_valid_canonical_word, InvalidCanonicalWord, odd_and_even, plant, ata,
}
use scico_d.Search.Abstraction.{AbstractionError, get_canonical_word, reg_a}
use scico_d.Search.TimeSuccessor.{get_time_successor}
use scico_d.Search.NextSuccessors.{
  map_successors, get_next_time_successors, get_next_time_successors_keep,
}
use scico_d.Search.Abstraction.Canonical.{get_canonical_word-IsValid}

abbrev half : ℕ → Fraction
half n = record { num = n; den = 2 }

-- Clock 7 is at 1, clock 8 at 5/2; the automaton is in location 4 at 3/2.
abbrev clocks : List (ℕ × Fraction)
clocks = (7, half 2) ∷ (8, half 5) ∷ []

abbrev states : List (State ℕ Fraction)
states = record { location = 4; clock_valuation = half 3 } ∷ []

get_canonical_word-IsValid_example :
    (word : CanonicalWord ℕ ℕ ℕ) × (get_canonical_word 0 clocks states 3 ≡ ok word)
    × (is_valid_canonical_word word (2 * 3 + 1) ≡ ok true)
unfolding is_near_zero
get_canonical_word-IsValid_example =
    get_canonical_word-IsValid 0 clocks states 3 (ground arith) tt
      (
        (ground arith, ground arith, (λ h. ground arith), λ h. ground arith),
        ((ground arith, ground arith, (λ h. ground arith), λ h. ground arith), tt),
      )
      ((ground arith, ground arith, (λ h. ground arith), λ h. ground arith), tt)

abbrev word_of_clocks : CanonicalWord ℕ ℕ ℕ
word_of_clocks =
    (plant (record { location = 0; clock = 7; region_index = 2 }) ∷ [])
    ∷ (plant (record { location = 0; clock = 8; region_index = 5 })
        ∷ ata (record { formula = 4; region_index = 3 })
        ∷ [])
    ∷ []

canonical_word_of_clocks : get_canonical_word 0 clocks states 3 ≡ ok word_of_clocks
unfolding get_canonical_word
canonical_word_of_clocks = refl

plant_part_of_word :
    reg_a word_of_clocks
    ≡ (plant (record { location = 0; clock = 7; region_index = 2 }) ∷ [])
      ∷ (plant (record { location = 0; clock = 8; region_index = 5 }) ∷ [])
      ∷ []
unfolding reg_a
plant_part_of_word = refl

-- Clock 7 is at 1, clock 8 at 5, a whole number above 3: both get to the first letter, with region
-- indexes 2 and 7, and the check of the word fails.
abbrev late_clocks : List (ℕ × Fraction)
late_clocks = (7, half 2) ∷ (8, half 10) ∷ []

abbrev no_states : List (State ℕ Fraction)
no_states = []

abbrev check_word : Result AbstractionError (CanonicalWord ℕ ℕ ℕ) → Result InvalidCanonicalWord Bool
check_word r = elim r [ ok word ↦ is_valid_canonical_word word 7 | err e ↦ ok false ]

late_clocks_mixed : check_word (get_canonical_word 0 late_clocks no_states 3) ≡ err odd_and_even
unfolding get_canonical_word is_valid_canonical_word
late_clocks_mixed = refl

-- The automaton has the larger fractional part, so the time successor leaves the plant part alone.
abbrev word_with_state : CanonicalWord ℕ ℕ ℕ
word_with_state =
    (plant (record { location = 0; clock = 7; region_index = 1 }) ∷ [])
    ∷ (ata (record { formula = 4; region_index = 3 }) ∷ [])
    ∷ []

abbrev plant_part : CanonicalWord ℕ ℕ ℕ
plant_part = (plant (record { location = 0; clock = 7; region_index = 1 }) ∷ []) ∷ []

get_next_time_successors_keep_example :
    All (λ w. reg_a w ≡ plant_part) (get_next_time_successors (word_with_state ∷ []) 3)
unfolding reg_a map_successors assign get_time_successor insert_all
get_next_time_successors_keep_example =
    get_next_time_successors_keep plant_part (word_with_state ∷ []) 3 (refl, tt) refl

-- Clock 7 is at 1 + 7 * 2^-52, clock 8 at 1 + 9 * 2^-52: the fractional parts are approximately the
-- same, and only the first is near 0. The check of the word fails.
abbrev close_clocks : List (ℕ × Fraction)
close_clocks =
    (7, record { num = 2 ^ 52 + 7; den = 2 ^ 52 })
    ∷ (8, record { num = 2 ^ 52 + 9; den = 2 ^ 52 })
    ∷ []

close_clocks_mixed : check_word (get_canonical_word 0 close_clocks no_states 3) ≡ err odd_and_even
unfolding get_canonical_word is_valid_canonical_word
close_clocks_mixed = refl
