-- ===== src/Search/Domination.antt =====
-- src/search/include/search/operators.h: monotonic domination between canonical words, and between
-- sets of them.
pub mod Embedding
use scico_d.Prelude.{
  Bool, true, false, List, [], ◌∷◌, Option, none, some, Ord, includes, all_of, any_of,
  if◌then◌else◌,
}
use scico_d.Search.CanonicalWord.{Letter, CanonicalWord}
use scico_d.Search.CanonicalWord.Order.{symbol_ord}

module _ {ℓ} {L C F : Type ℓ} ⦃l : Ord L⦄ ⦃c : Ord C⦄ ⦃f : Ord F⦄ where
  -- `std::find_if` from `current_w2_it`: what follows the first partition that includes the given
  -- one.
  unfoldable pub find_including : Letter L C F → CanonicalWord L C F → Option (CanonicalWord L C F)
  find_including w1_partition [] = none
  find_including w1_partition (w2_partition ∷ rest) =
      if includes w2_partition w1_partition then some rest else find_including w1_partition rest

  unfoldable pub is_monotonically_dominated : CanonicalWord L C F → CanonicalWord L C F → Bool
  unfolding find_including
  is_monotonically_dominated [] w2 = true
  is_monotonically_dominated (w1_partition ∷ w1) w2 = elim (find_including w1_partition w2) [
    | none ↦ false
    | some next ↦ is_monotonically_dominated w1 next
  ]

  -- The overload on sets of words.
  unfoldable pub is_monotonically_dominated_set :
      List (CanonicalWord L C F) → List (CanonicalWord L C F) → Bool
  is_monotonically_dominated_set set1 set2 =
      all_of (λ word2. any_of (λ word1. is_monotonically_dominated word1 word2) set1) set2
