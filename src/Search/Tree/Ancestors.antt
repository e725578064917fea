-- ===== src/Search/Tree/Ancestors.antt =====
-- src/search/include/search/operators.h: the search for an ancestor whose words are dominated.
-- `is_dominated` is the test on the words of an ancestor.
pub mod Explored
pub mod Reached
use scico_d.Prelude.{
  ℕ, zero, suc, Bool, true, false, List, [], ◌∷◌, Ord, nat_ord, member, if◌then◌else◌, Result, ok,
  err, after,
}
use scico_d.Search.CanonicalWord.{CanonicalWord}
use scico_d.Search.Domination.{is_monotonically_dominated_set}
use scico_d.Search.Tree.{Node, Heap, TreeError, out_of_fuel}

-- `std::any_of` over the parents, with the vector of the nodes that have been seen.
unfoldable pub any_parent :
    (ℕ → List ℕ → Result TreeError (Bool × List ℕ))
    → List ℕ
    → List ℕ
    → Result TreeError (Bool × List ℕ)
any_parent test [] seen = ok (false, seen)
any_parent test (parent ∷ parents) seen =
    after (test parent seen) (λ x. if x.0 then ok (true, x.1) else any_parent test parents x.1)

module _ {ℓ} {W A : Type ℓ} where
  unfoldable pub ancestor_is_monotonically_dominated :
      ℕ → (List W → Bool) → Heap W A → ℕ → List ℕ → Result TreeError (Bool × List ℕ)
  unfolding any_parent
  ancestor_is_monotonically_dominated zero is_dominated heap i seen = err out_of_fuel
  ancestor_is_monotonically_dominated (suc fuel) is_dominated heap i seen =
      let test : ℕ → List ℕ → Result TreeError (Bool × List ℕ) = λ parent seen_nodes.
        ancestor_is_monotonically_dominated fuel is_dominated heap parent seen_nodes in
      if member i seen
      then ok (false, seen)
      else if is_dominated (heap i).words
      then ok (true, i ∷ seen)
      else any_parent test (heap i).parents (i ∷ seen)

  unfoldable pub dominates_ancestor :
      ℕ → (List W → List W → Bool) → Heap W A → ℕ → Result TreeError (Bool × List ℕ)
  unfolding ancestor_is_monotonically_dominated
  dominates_ancestor fuel is_dominated heap i =
      any_parent
        (λ parent seen.
          ancestor_is_monotonically_dominated fuel (λ words. is_dominated words (heap i).words) heap
            parent seen)
        (heap i).parents (i ∷ [])

-- The test that the source uses.
module _ {ℓ} {L C F A : Type ℓ} ⦃l : Ord L⦄ ⦃c : Ord C⦄ ⦃f : Ord F⦄ where
  unfoldable pub words_dominate_ancestor :
      ℕ → Heap (CanonicalWord L C F) A → ℕ → Result TreeError (Bool × List ℕ)
  unfolding dominates_ancestor is_monotonically_dominated_set
  words_dominate_ancestor fuel heap i =
      dominates_ancestor fuel is_monotonically_dominated_set heap i
