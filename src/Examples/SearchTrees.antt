-- ===== src/Examples/SearchTrees.antt =====
-- Search nodes at numbers as addresses, with numbers as words and actions.
use scico_d.Prelude.{
  Bool, true, ltb, length, not, eqb, ◌↔◌, ℕ, true, false, ◌≡◌, refl, List, [], ◌∷◌, nat_ord, ◌==◌,
  if◌then◌else◌, Result, ok, err, arith, Bool-cases, inl, inr,
}
use scico_d.Search.Labels.{NodeLabel, unlabeled, canceled, top, bottom, is_unlabeled, unknown}
use scico_d.Search.Tree.{
  Node, Heap, TreeError, unknown_state, set_label, add_child, propagate, child_exists,
  unlabeled_leaf, insert_child, insert_parent,
}
use scico_d.Search.Tree.Later.{IsLater}
use scico_d.Search.Tree.Cancel.{IsClosed, unlabeled_count, set_label_total}
use scico_d.Search.Tree.Propagation.{HasParents, propagate_total}
use scico_d.Search.Tree.Ancestors.{dominates_ancestor}
use scico_d.Search.Tree.Ancestors.Explored.{IsAncestor}
use scico_d.Search.Tree.Ancestors.Reached.{HasAncestors, unseen_count, dominates_ancestor_iff}
use scico_d.Search.Tree.Histories.{
  History, start, then_add, KeepsDecisions, IsLinked, History-KeepsDecisions,
}

abbrev fresh : List ℕ → List ((ℕ × ℕ) × ℕ) → Node ℕ ℕ
fresh parents children = record {
  words = [];
  state = unknown_state;
  label = unlabeled;
  parents = parents;
  is_expanded = true;
  is_expanding = false;
  label_reason = unknown;
  min_total_region_increments = 0;
  children = children;
}

-- Node 0 has the children 1, by action 5 after 2 time successors, and 2.
abbrev family : Heap ℕ ℕ
family j = if j == 0 then fresh [] (((2, 5), 1) ∷ ((3, 6), 2) ∷ []) else fresh (0 ∷ []) []

abbrev family_ids : List ℕ
family_ids = 0 ∷ 1 ∷ 2 ∷ []

family-IsClosed : IsClosed family_ids family
family-IsClosed j m = elim (Bool-cases (j == 0)) [
  | inl e ↦ rw e (refl, (refl, tt))
  | inr e ↦ rw e tt
]

set_label_total_example :
    (next : Heap ℕ ℕ) × (set_label 4 family 0 bottom true ≡ ok next)
    × ((next 0).label ≡ (if is_unlabeled (family 0).label then bottom else (family 0).label))
    × IsLater family next
unfolding unlabeled_count
set_label_total_example =
    set_label_total 4 family_ids family 0 bottom true family-IsClosed refl (ground arith) refl refl

-- A child without children that is labelled TOP passes this on: the environment has the actions.
abbrev good_family : Heap ℕ ℕ
good_family j = if j == 0 then family 0 else record (family j) { label = top }

good_family-HasParents : HasParents (7 ∷ []) (5 ∷ 6 ∷ []) family_ids good_family
good_family-HasParents j m = elim (Bool-cases (j == 0)) [
  | inl e ↦ rw e tt
  | inr e ↦ rw e ((refl, refl), tt)
]

propagate_total_example :
    (next : Heap ℕ ℕ) × (propagate 5 (7 ∷ []) (5 ∷ 6 ∷ []) good_family 1 ≡ ok next)
unfolding unlabeled_count
propagate_total_example =
    propagate_total (7 ∷ []) (5 ∷ 6 ∷ []) 5 family_ids good_family 1 good_family-HasParents refl
      (λ k. refl) (ground arith)

-- A leaf without a label fails the assertion.
asserts_label : propagate 5 (7 ∷ []) (5 ∷ []) family 1 ≡ err unlabeled_leaf
unfolding propagate
asserts_label = refl

-- Every node alone.
abbrev blank : Heap ℕ ℕ
blank j = fresh [] []

abbrev two_nodes : Heap ℕ ℕ
two_nodes = insert_parent (insert_child blank 0 (2, 5) 1) 0 2 1

two_nodes-History : History (7 ∷ []) (5 ∷ []) blank two_nodes
unfolding add_child
two_nodes-History = then_add (start blank) 0 (2, 5) 1 refl

History-KeepsDecisions_example :
    KeepsDecisions blank two_nodes × (IsLinked blank → IsLinked two_nodes)
History-KeepsDecisions_example =
    History-KeepsDecisions (7 ∷ []) (5 ∷ []) blank two_nodes two_nodes-History

abbrev label_after : Result TreeError (Heap ℕ ℕ) → ℕ → NodeLabel
label_after r i = elim r [ ok heap ↦ (heap i).label | err e ↦ unlabeled ]

-- Labelling the root cancels the children that have no other parent.
cancels_children : label_after (set_label 4 family 0 bottom true) 2 ≡ canceled
unfolding set_label
cancels_children = refl

propagates_top : label_after (propagate 3 (7 ∷ []) (5 ∷ 6 ∷ []) good_family 1) 0 ≡ top
unfolding propagate
propagates_top = refl

-- A second child by the same action.
has_child_already : add_child family 0 (2, 5) 2 ≡ err child_exists
unfolding add_child
has_child_already = refl

-- A test on the words of an ancestor: they are not more than those of the node.
abbrev is_below : List ℕ → List ℕ → Bool
is_below words new = not (ltb (length new) (length words))

family-HasAncestors : HasAncestors family_ids family
family-HasAncestors j m = elim (Bool-cases (j == 0)) [ inl e ↦ rw e tt | inr e ↦ rw e (refl, tt) ]

dominates_ancestor_iff_example :
    (found : Bool) × (next : List ℕ) × (dominates_ancestor 4 is_below family 1 ≡ ok (found, next))
    × ((found ≡ true) ↔ (
        (a : ℕ) × IsAncestor family a 1
        × (eqb a 1 ≡ false)
        × (is_below (family a).words (family 1).words ≡ true)))
unfolding unseen_count
dominates_ancestor_iff_example =
    dominates_ancestor_iff family 4 family_ids is_below 1 family-HasAncestors refl (ground arith)
