-- ===== src/Search/TimeSuccessor.antt =====
-- src/search/include/search/synchronous_product.h: the time successors of a canonical word.
pub mod Letters
pub mod Advance
pub mod Validity
pub mod Measure
pub mod Timeline
use mathlib.Core.Option
use scico_d.Prelude.{
  ℕ, zero, suc, ◌+◌, ◌*◌, ◌%◌, ◌^◌, Bool, true, false, List, [], ◌∷◌, ◌++◌, map, Option, none, some,
  Ord, ltb, ◌==◌, if◌then◌else◌, all_of, is_empty_list, insert, insert_all, eqb, list_ord,
}
use scico_d.Search.CanonicalWord.{
  AbRegionSymbol, plant, ata, Letter, CanonicalWord, get_region_index,
}
use scico_d.Search.CanonicalWord.Order.{symbol_ord}

-- `2 * K + 1` on `RegionIndex`, which is `unsigned int`.
abbrev pub max_region_index : ℕ → ℕ
max_region_index k = (2 * k + 1) % 2 ^ 32

module _ {ℓ} {A : Type ℓ} where
  -- `*word.rbegin()`, where the word is not empty.
  abbrev pub last_letter : List A → List (List A) → List A
  last_letter c [] = c
  last_letter c (d ∷ ds) = last_letter d ds

  -- The word without its last letter: the reverse range from `std::next(word.rbegin())`.
  abbrev pub without_last : List A → List (List A) → List (List A)
  without_last c [] = []
  without_last c (d ∷ ds) = c ∷ without_last d ds

  -- A partition is pushed to the result if it is not empty.
  abbrev pub push_nonempty : List A → List (List A)
  push_nonempty [] = []
  push_nonempty (x ∷ xs) = (x ∷ xs) ∷ []

module _ {ℓ} {L C F : Type ℓ} where
  -- One symbol of `increment_region_indexes`: the index grows by one below the maximum.
  abbrev pub increment_symbol : ℕ → AbRegionSymbol L C F → AbRegionSymbol L C F
  increment_symbol m (plant s) = plant (record s {
    region_index = if ltb s.region_index m then s.region_index + 1 else s.region_index;
  })
  increment_symbol m (ata s) = ata (record s {
    region_index = if ltb s.region_index m then s.region_index + 1 else s.region_index;
  })

  abbrev pub is_maxed : ℕ → AbRegionSymbol L C F → Bool
  is_maxed m w = get_region_index w == m

  -- `get_region_index(*word.begin()->begin()) % 2 == 0`; the first letter is not empty by the
  -- assertion that the word is valid.
  abbrev pub has_even_region_index : Letter L C F → Bool
  has_even_region_index [] = false
  has_even_region_index (w ∷ ws) = get_region_index w % 2 == 0

module _ {ℓ} {L C F : Type ℓ} ⦃l : Ord L⦄ ⦃c : Ord C⦄ ⦃f : Ord F⦄ where
  unfoldable pub increment_region_indexes : Letter L C F → ℕ → Letter L C F
  increment_region_indexes configurations m =
      insert_all (map (increment_symbol m) configurations) []

  -- The loop over `incremented`: maxed configurations go to the maxed partition, the others to a
  -- new one.
  unfoldable pub split_maxed :
      ℕ → Letter L C F → Letter L C F → Letter L C F → Letter L C F × Letter L C F
  split_maxed m [] maxed nonmaxed = (maxed, nonmaxed)
  split_maxed m (w ∷ ws) maxed nonmaxed =
      split_maxed m ws (if is_maxed m w then insert w maxed else maxed)
        (if is_maxed m w then nonmaxed else insert w nonmaxed)

  -- The incremented partition in front, `rest` behind it, and the maxed partition last.
  unfoldable pub advance :
      ℕ → Letter L C F → CanonicalWord L C F → Letter L C F → CanonicalWord L C F
  unfolding increment_region_indexes split_maxed
  advance m c rest maxed =
      let parts = split_maxed m (increment_region_indexes c m) maxed [] in
      push_nonempty parts.1 ++ (rest ++ push_nonempty parts.0)

  -- `nonmaxed` are the letters from the front to `last_nonmaxed_partition`.
  unfoldable pub successor_of :
      ℕ → CanonicalWord L C F → CanonicalWord L C F → Letter L C F → CanonicalWord L C F
  unfolding advance
  successor_of m word [] maxed = word
  successor_of m word (front ∷ others) maxed =
      if has_even_region_index front
      then advance m front others maxed
      else advance m (last_letter front others) (without_last front others) maxed

  -- The maxed partition is the last letter, if all its indexes are maximal.
  unfoldable pub get_time_successor : CanonicalWord L C F → ℕ → CanonicalWord L C F
  unfolding successor_of
  get_time_successor [] k = []
  get_time_successor (front ∷ others) k =
      let m = max_region_index k in
      let word = front ∷ others in
      let last = last_letter front others in
      if all_of (is_maxed m) last
      then successor_of m word (without_last front others) last
      else successor_of m word word []

  -- The loop over `i < n`.
  unfoldable pub repeat_time_successor : CanonicalWord L C F → ℕ → ℕ → CanonicalWord L C F
  repeat_time_successor word zero k = word
  repeat_time_successor word (suc n) k = get_time_successor (repeat_time_successor word n k) k

  -- The number is passed as an `unsigned`.
  unfoldable pub get_nth_time_successor : CanonicalWord L C F → ℕ → ℕ → CanonicalWord L C F
  unfolding repeat_time_successor
  get_nth_time_successor word n k = repeat_time_successor word (n % 2 ^ 32) k

  -- The loop of `get_time_successors`, with the last word pushed and the index of the next one.
  -- `none` means that the fuel ran out.
  unfoldable pub time_successors_from :
      ℕ → CanonicalWord L C F → ℕ → ℕ → Option (List (ℕ × CanonicalWord L C F))
  time_successors_from zero back index k = none
  time_successors_from (suc fuel) back index k =
      let cur = get_time_successor back k in
      let rest = time_successors_from fuel cur ((index + 1) % 2 ^ 32) k in
      if eqb cur back then some [] else Option.map (λ l. (index, cur) ∷ l) rest

  unfoldable pub get_time_successors :
      ℕ → CanonicalWord L C F → ℕ → Option (List (ℕ × CanonicalWord L C F))
  unfolding time_successors_from
  get_time_successors fuel word k =
      Option.map (λ l. (0, word) ∷ l) (time_successors_from fuel word 1 k)
