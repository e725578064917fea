-- ===== src/Search/NextSuccessors.antt =====
-- src/search/include/search/synchronous_product.h: `get_next_time_successors` on a set of words.
use scico_d.Prelude.{
  ℕ, Bool, true, List, [], ◌∷◌, Ord, list_ord, eqb, eqb→eq, insert, assign, any_of, if◌then◌else◌,
  ◌≡◌, sym, ◌∙◌, All, All-insert, All-assign, Bool-cases, inl, inr,
}
use scico_d.Search.CanonicalWord.{CanonicalWord}
use scico_d.Search.CanonicalWord.Order.{symbol_ord}
use scico_d.Search.TimeSuccessor.{get_time_successor}
use scico_d.Search.Abstraction.{reg_a}

module _ {L C F : Type 0} ⦃l : Ord L⦄ ⦃c : Ord C⦄ ⦃f : Ord F⦄ where
  -- `successors_map`
  unfoldable pub map_successors :
      ℕ
      → List (CanonicalWord L C F)
      → List (CanonicalWord L C F × CanonicalWord L C F)
      → List (CanonicalWord L C F × CanonicalWord L C F)
  unfolding assign get_time_successor
  map_successors k [] m = m
  map_successors k (word ∷ words) m =
      map_successors k words (assign word (get_time_successor word k) m)

  -- The time successor increments symbols of the automaton only.
  abbrev pub keeps_plant : CanonicalWord L C F × CanonicalWord L C F → Bool
  keeps_plant entry = eqb (reg_a entry.0) (reg_a entry.1)

  -- The loop where some successor has the plant part of its word.
  unfoldable pub insert_kept :
      List (CanonicalWord L C F × CanonicalWord L C F)
      → List (CanonicalWord L C F)
      → List (CanonicalWord L C F)
  unfolding insert reg_a
  insert_kept [] successors = successors
  insert_kept (entry ∷ entries) successors =
      insert_kept entries
        (if keeps_plant entry then insert entry.1 successors else insert entry.0 successors)

  unfoldable pub insert_successors :
      List (CanonicalWord L C F × CanonicalWord L C F)
      → List (CanonicalWord L C F)
      → List (CanonicalWord L C F)
  unfolding insert
  insert_successors [] successors = successors
  insert_successors (entry ∷ entries) successors =
      insert_successors entries (insert entry.1 successors)

  unfoldable pub get_next_time_successors :
      List (CanonicalWord L C F) → ℕ → List (CanonicalWord L C F)
  unfolding map_successors insert_kept insert_successors reg_a
  get_next_time_successors canonical_words k =
      let successors_map = map_successors k canonical_words [] in
      if any_of keeps_plant successors_map
      then insert_kept successors_map []
      else insert_successors successors_map []

  mapped :
      (r : CanonicalWord L C F) (k : ℕ) (words : List (CanonicalWord L C F))
      (m : List (CanonicalWord L C F × CanonicalWord L C F))
      → All (λ w. reg_a w ≡ r) words
      → All (λ e. reg_a e.0 ≡ r) m
      → All (λ e. reg_a e.0 ≡ r) (map_successors k words m)
  unfolding map_successors
  mapped r k [] m hs ks = ks
  mapped r k (word ∷ words) m (h, hs) ks =
      mapped r k words _ hs
        (All-assign (λ e. reg_a e.0 ≡ r) word (get_time_successor word k) m h ks)

  kept :
      (r : CanonicalWord L C F) (m : List (CanonicalWord L C F × CanonicalWord L C F))
      (res : List (CanonicalWord L C F))
      → All (λ e. reg_a e.0 ≡ r) m
      → All (λ w. reg_a w ≡ r) res
      → All (λ w. reg_a w ≡ r) (insert_kept m res)
  unfolding insert_kept
  kept r [] res hs ks = ks
  kept r (entry ∷ entries) res (h, hs) ks = elim (Bool-cases (keeps_plant entry)) [
    | inl e ↦
        let same = eqb→eq (reg_a entry.0) (reg_a entry.1) e in
        rw e (
          kept r entries (insert entry.1 res) hs
            (All-insert (λ w. reg_a w ≡ r) entry.1 res (sym same ∙ h) ks))
    | inr e ↦
        rw e
          (kept r entries (insert entry.0 res) hs (All-insert (λ w. reg_a w ≡ r) entry.0 res h ks))
  ]

  -- Take words with a common plant part. If the time successor of some word has the plant part of
  -- its word, then all next time successors still have the common plant part.
  pub get_next_time_successors_keep :
      (r : CanonicalWord L C F) (words : List (CanonicalWord L C F)) (k : ℕ)
      → All (λ w. reg_a w ≡ r) words
      → any_of keeps_plant (map_successors k words []) ≡ true
      → All (λ w. reg_a w ≡ r) (get_next_time_successors words k)
  unfolding get_next_time_successors
  get_next_time_successors_keep r words k hs e =
      rw e (kept r (map_successors k words []) [] (mapped r k words [] hs tt) tt)
