-- ===== src/Search/Tree/Graph.antt =====
-- src/search/include/search/search.h: `label_graph` on the nodes of the search graph. The actions of
-- the environment are read in assertions only, and are no argument here. `visited` lists the set of
-- the nodes that have been visited.
pub mod Total
pub mod Ends
pub mod Strategy
pub mod Agreement
use scico_d.Prelude.{
  ℕ, zero, suc, false, not, List, [], ◌∷◌, Ord, nat_ord, member, ◌==◌, if◌then◌else◌, Result, ok,
  err, after,
}
use scico_d.Search.Labels.{
  NodeLabel, top, bottom, is_unlabeled, LabelReason, good_node, bad_node, dead_node,
  monotonic_domination, label_graph_decision,
}
use scico_d.Search.Tree.{
  Node, Heap, TreeError, out_of_fuel, good_state, bad_state, dead_state, unknown_state, store,
  set_label, read_children,
}

module _ {ℓ} {W A : Type ℓ} where
  -- The new reason, and then `set_label`.
  unfoldable pub set_decision : Heap W A → ℕ → NodeLabel × LabelReason → Result TreeError (Heap W A)
  unfolding store set_label
  set_decision heap i d =
      set_label 1 (store heap i (record (heap i) { label_reason = d.1 })) i d.0 false

  -- The calls on the children but the node itself.
  unfoldable pub visit_children :
      (Heap W A → List ℕ → ℕ → Result TreeError (Heap W A × List ℕ))
      → Heap W A
      → List ℕ
      → ℕ
      → List ((ℕ × A) × ℕ)
      → Result TreeError (Heap W A × List ℕ)
  visit_children visit heap visited i [] = ok (heap, visited)
  visit_children visit heap visited i ((action, child) ∷ children) =
      after (if child == i then ok (heap, visited) else visit heap visited child)
        (λ x. visit_children visit x.0 x.1 i children)

module _ {ℓ} {W A : Type ℓ} ⦃o : Ord A⦄ where
  -- A node that has no label and has not been visited, after it is put among the visited.
  unfoldable pub label_visited :
      (Heap W A → List ℕ → ℕ → Result TreeError (Heap W A × List ℕ))
      → (controller : List A) → Heap W A
      → List ℕ
      → ℕ
      → Result TreeError (Heap W A × List ℕ)
  unfolding set_decision visit_children label_graph_decision
  label_visited visit controller heap visited i = elim (heap i).state [
    | good_state ↦ after (set_decision heap i (top, good_node)) (λ h. ok (h, visited))
    | dead_state ↦ after (set_decision heap i (top, dead_node)) (λ h. ok (h, visited))
    | bad_state ↦ after (set_decision heap i (bottom, bad_node)) (λ h. ok (h, visited))
    | unknown_state ↦ after (visit_children visit heap visited i (heap i).children) (λ x.
        after (set_decision x.0 i (label_graph_decision controller (read_children x.0 i)))
          (λ h. ok (h, x.1)))
  ]

  unfoldable pub label_graph :
      ℕ → (controller : List A) → Heap W A → List ℕ → ℕ → Result TreeError (Heap W A × List ℕ)
  unfolding store label_visited
  label_graph zero controller heap visited i = err out_of_fuel
  label_graph (suc fuel) controller heap visited i =
      let visit : Heap W A → List ℕ → ℕ → Result TreeError (Heap W A × List ℕ) =
        λ h v child. label_graph fuel controller h v child in
      if not (is_unlabeled (heap i).label)
      then ok (heap, visited)
      else if member i visited
      then ok (
        store heap i (record (heap i) { label = top; label_reason = monotonic_domination }),
        visited,
      )
      else label_visited visit controller heap (i ∷ visited) i
