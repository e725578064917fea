-- ===== src/Search/CanonicalWord.antt =====
-- src/search/include/search/canonical_word.h: regionalised symbols of the product of the plant
-- and the alternating automaton, canonical words over them, and the validity check.
-- A template parameter with an `operator<` is a type with an instance of `Ord`: `L` for locations,
-- `C` for clock names and `F` for the formulas that are the locations of the alternating automaton.
pub mod Order
pub mod Valid
use scico_d.Prelude.{
  ℕ, ◌%◌, Bool, true, false, ◌&&◌, List, [], ◌∷◌, ltb, ◌==◌, if◌then◌else◌, any_of, is_empty_list,
  Result, ok, err,
}

-- (location, clock, region index)
pub record PlantRegionState {ℓ} (L C : Type ℓ) : Type ℓ where
  pub location : L
  pub clock : C
  pub region_index : ℕ

-- (formula, region index)
pub record AtaRegionState {ℓ} (F : Type ℓ) : Type ℓ where
  pub formula : F
  pub region_index : ℕ

-- `std::variant<PlantRegionState, ATARegionState>`
pub data AbRegionSymbol {ℓ} (L C F : Type ℓ) : Type ℓ where
  plant : PlantRegionState L C → AbRegionSymbol L C F
  ata : AtaRegionState F → AbRegionSymbol L C F

-- A letter is a `std::set` of symbols, a canonical word a `std::vector` of letters.
abbrev pub Letter {ℓ} : Type ℓ → Type ℓ → Type ℓ → Type ℓ
Letter L C F = List (AbRegionSymbol L C F)

abbrev pub CanonicalWord {ℓ} : Type ℓ → Type ℓ → Type ℓ → Type ℓ
CanonicalWord L C F = List (Letter L C F)

-- What `is_valid_canonical_word` throws.
pub data InvalidCanonicalWord : Type 0 where
  empty_word empty_configuration odd_and_even above_max_region misplaced_even : InvalidCanonicalWord

module _ {ℓ} {L C F : Type ℓ} where
  abbrev pub get_region_index : AbRegionSymbol L C F → ℕ
  get_region_index (plant s) = s.region_index
  get_region_index (ata s) = s.region_index

  abbrev pub is_even : AbRegionSymbol L C F → Bool
  is_even w = get_region_index w % 2 == 0

  abbrev pub is_odd : AbRegionSymbol L C F → Bool
  is_odd w = get_region_index w % 2 == 1

  -- All letters but the first: `std::next(word.begin())` to `word.end()`.
  abbrev pub later_letters : CanonicalWord L C F → CanonicalWord L C F
  later_letters [] = []
  later_letters (c ∷ cs) = cs

  -- `max_region` is 0 where the check of the largest region is left out.
  unfoldable pub is_valid_canonical_word :
      CanonicalWord L C F → ℕ → Result InvalidCanonicalWord Bool
  is_valid_canonical_word word max_region =
      if is_empty_list word
      then err empty_word
      else if any_of is_empty_list word
      then err empty_configuration
      else if any_of (λ c. any_of is_even c && any_of is_odd c) word
      then err odd_and_even
      else if ltb 0 max_region && any_of (any_of (λ w. ltb max_region (get_region_index w))) word
      then err above_max_region
      else if any_of (any_of is_even) (later_letters word)
      then err misplaced_even
      else ok true
