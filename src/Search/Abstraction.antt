-- ===== src/Search/Abstraction.antt =====
-- src/search/include/search/canonical_word.h: the canonical word of a configuration of the plant
-- and one of the alternating automaton; src/search/include/search/reg_a.h: its plant part.
-- Valuations are fractions, as for regions, and so is the difference of two keys: a `double` that
-- is near 0 exactly if the difference is, unless both keys are below 16 times the machine epsilon.
-- The clocks of the plant are in the order of their names, and the states of the automaton in that
-- of their set; the set of all symbols then lists the plant's first.
pub mod Partitions
pub mod Canonical
use scico_d.Prelude.{
  ℕ, ◌+◌, ◌-◌, ◌*◌, Bool, true, false, List, [], ◌∷◌, ◌++◌, map, Ord, ltb, insert, insert_all,
  is_empty_list, if◌then◌else◌, Result, ok, err,
}
use scico_d.Automata.AtaFormula.{State}
use scico_d.Automata.Regions.{Fraction, fractional_part, is_near_zero, get_region_index_of}
use scico_d.Search.CanonicalWord.{
  PlantRegionState, AtaRegionState, AbRegionSymbol, plant, ata, Letter, CanonicalWord,
}
use scico_d.Search.CanonicalWord.Order.{symbol_ord}

pub record PlantState (L C : Type 0) : Type 0 where
  pub location : L
  pub clock : C
  pub clock_valuation : Fraction

-- `std::variant<PlantState, ATAState>`
pub data AbSymbol (L C F : Type 0) : Type 0 where
  plant_symbol : PlantState L C → AbSymbol L C F
  ata_symbol : State F Fraction → AbSymbol L C F

pub data AbstractionError : Type 0 where
  no_clocks : AbstractionError

-- `is_approx_same`, with `fabs` of the difference.
unfoldable pub is_approx_same : Fraction → Fraction → Bool
unfolding is_near_zero
is_approx_same a b = is_near_zero (record {
  num = (a.num * b.den - b.num * a.den) + (b.num * a.den - a.num * b.den);
  den = a.den * b.den;
})

-- `ApproxFloatComparator`
unfoldable pub lt_approx : Fraction → Fraction → Bool
unfolding is_approx_same
lt_approx a b = if is_approx_same a b then false else ltb (a.num * b.den) (b.num * a.den)

module _ {L C F : Type 0} where
  abbrev pub get_time : AbSymbol L C F → Fraction
  get_time (plant_symbol s) = s.clock_valuation
  get_time (ata_symbol s) = s.clock_valuation

  -- `partitioned_g[key].insert(symbol)`
  unfoldable pub insert_partition :
      Fraction
      → AbSymbol L C F
      → List (Fraction × List (AbSymbol L C F))
      → List (Fraction × List (AbSymbol L C F))
  unfolding lt_approx
  insert_partition key w [] = (key, w ∷ []) ∷ []
  insert_partition key w ((k, ws) ∷ ps) =
      if lt_approx key k
      then (key, w ∷ []) ∷ (k, ws) ∷ ps
      else if lt_approx k key
      then (k, ws) ∷ insert_partition key w ps
      else (k, w ∷ ws) ∷ ps

  unfoldable pub partition_symbols :
      List (AbSymbol L C F)
      → List (Fraction × List (AbSymbol L C F))
      → List (Fraction × List (AbSymbol L C F))
  unfolding insert_partition
  partition_symbols [] ps = ps
  partition_symbols (w ∷ ws) ps =
      partition_symbols ws (insert_partition (fractional_part (get_time w)) w ps)

  unfoldable pub region_symbol : ℕ → AbSymbol L C F → AbRegionSymbol L C F
  unfolding get_region_index_of
  region_symbol k (plant_symbol s) = plant (record {
    location = s.location;
    clock = s.clock;
    region_index = get_region_index_of k s.clock_valuation;
  })
  region_symbol k (ata_symbol s) =
      ata (record { formula = s.location; region_index = get_region_index_of k s.clock_valuation })

  -- The symbols of the two configurations.
  abbrev pub collect_symbols :
      L → List (C × Fraction) → List (State F Fraction) → List (AbSymbol L C F)
  collect_symbols location clock_valuations states =
      map (λ x. plant_symbol (record { location = location; clock = x.0; clock_valuation = x.1 }))
        clock_valuations
      ++ map ata_symbol states

module _ {L C F : Type 0} ⦃l : Ord L⦄ ⦃c : Ord C⦄ ⦃f : Ord F⦄ where
  unfoldable pub abstract_partition : ℕ → List (AbSymbol L C F) → Letter L C F
  unfolding region_symbol insert_all
  abstract_partition k ws = insert_all (map (region_symbol k) ws) []

  unfoldable pub get_canonical_word :
      L
      → List (C × Fraction)
      → List (State F Fraction)
      → ℕ
      → Result AbstractionError (CanonicalWord L C F)
  unfolding partition_symbols abstract_partition
  get_canonical_word location clock_valuations states k =
      if is_empty_list clock_valuations
      then err no_clocks
      else ok (
          map (λ p. abstract_partition k p.1)
            (partition_symbols (collect_symbols location clock_valuations states) []))

  -- The plant symbols of a letter.
  abbrev pub plant_letter : Letter L C F → Letter L C F → Letter L C F
  plant_letter [] res = res
  plant_letter (plant s ∷ ws) res = plant_letter ws (insert (plant s) res)
  plant_letter (ata s ∷ ws) res = plant_letter ws res

  unfoldable pub reg_a : CanonicalWord L C F → CanonicalWord L C F
  unfolding insert
  reg_a [] = []
  reg_a (ws ∷ word) =
      if is_empty_list (plant_letter ws []) then reg_a word else plant_letter ws [] ∷ reg_a word
