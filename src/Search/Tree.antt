-- ===== src/Search/Tree.antt =====
-- src/search/include/search/search_tree.h: the nodes of the search graph. Nodes are shared through
-- pointers: a heap gives the node at each address, a number. `W` is the type of canonical words and
-- `A` that of actions. The operations run one after another.
pub mod Later
pub mod Cancel
pub mod Propagation
pub mod Ancestors
pub mod Histories
pub mod Graph
use scico_d.Prelude.{
  ℕ, zero, suc, ◌+◌, ◌%◌, ◌^◌, Bool, true, false, not, ◌&&◌, ◌||◌, List, [], ◌∷◌, Option, none,
  some, map, Ord, nat_ord, pair_ord, insert, min, lookup, has_key, assign, all_of, is_empty_list,
  ◌==◌, if◌then◌else◌, Result, ok, err, after,
}
use scico_d.Search.Labels.{
  NodeLabel, unlabeled, canceled, top, bottom, is_unlabeled, LabelReason, Child,
  label_propagate_decision,
}

pub data NodeState : Type 0 where
  unknown_state good_state bad_state dead_state : NodeState

pub record Node {ℓ} (W A : Type ℓ) : Type ℓ where
  pub words : List W
  pub state : NodeState
  pub label : NodeLabel
  pub parents : List ℕ
  pub is_expanded : Bool
  pub is_expanding : Bool
  pub label_reason : LabelReason
  pub min_total_region_increments : ℕ
  pub children : List ((ℕ × A) × ℕ)

abbrev pub Heap {ℓ} : Type ℓ → Type ℓ → Type ℓ
Heap W A = ℕ → Node W A

-- The exceptions of `set_label` and `add_child`, the assertion of `label_propagate` that a leaf has a
-- label, and recursion beyond the fuel.
pub data TreeError : Type 0 where
  label_already_set child_exists unlabeled_leaf out_of_fuel : TreeError

abbrev pub same_label : NodeLabel → NodeLabel → Bool
same_label unlabeled unlabeled = true
same_label bottom bottom = true
same_label top top = true
same_label canceled canceled = true
same_label _ _ = false

abbrev pub is_canceled : NodeLabel → Bool
is_canceled canceled = true
is_canceled _ = false

-- The test before the exception of `set_label`.
abbrev pub is_relabeling : NodeLabel → NodeLabel → Bool
is_relabeling label new_label =
    not (is_unlabeled label)
    && (not (is_canceled label)
        && (not (is_canceled new_label) && not (same_label label new_label)))

module _ {ℓ} {W A : Type ℓ} where
  unfoldable pub store : Heap W A → ℕ → Node W A → Heap W A
  store heap i node j = if j == i then node else heap j

  unfoldable pub reset_label : Heap W A → ℕ → Heap W A
  unfolding store
  reset_label heap i =
      if is_canceled (heap i).label
      then store heap i (record (heap i) { label = unlabeled })
      else heap

  -- Every parent of the child but the child itself has a label.
  abbrev pub is_abandoned : Heap W A → ℕ → Bool
  is_abandoned heap child =
      all_of (λ parent. (parent == child) || not (is_unlabeled (heap parent).label))
        (heap child).parents

  -- The loop over the children; `cancel` sets the label CANCELED.
  unfoldable pub cancel_children :
      (Heap W A → ℕ → Result TreeError (Heap W A))
      → Heap W A
      → List ((ℕ × A) × ℕ)
      → Result TreeError (Heap W A)
  cancel_children cancel heap [] = ok heap
  cancel_children cancel heap ((action, child) ∷ children) =
      after (if is_abandoned heap child then cancel heap child else ok heap)
        (λ next. cancel_children cancel next children)

  unfoldable pub set_label : ℕ → Heap W A → ℕ → NodeLabel → Bool → Result TreeError (Heap W A)
  unfolding store cancel_children
  set_label zero heap i new_label with_children = err out_of_fuel
  set_label (suc fuel) heap i new_label with_children =
      let cancel : Heap W A → ℕ → Result TreeError (Heap W A) =
        λ next child. set_label fuel next child canceled true in
      if is_relabeling (heap i).label new_label
      then err label_already_set
      else if not (is_unlabeled (heap i).label)
      then ok heap
      else let labeled = store heap i (record (heap i) { label = new_label }) in
        if with_children then cancel_children cancel labeled (heap i).children else ok labeled

  -- The calls on the parents but the node itself.
  unfoldable pub propagate_to_parents :
      (Heap W A → ℕ → Result TreeError (Heap W A))
      → Heap W A
      → ℕ
      → List ℕ
      → Result TreeError (Heap W A)
  propagate_to_parents propagate heap i [] = ok heap
  propagate_to_parents propagate heap i (parent ∷ parents) =
      after (if parent == i then ok heap else propagate heap parent)
        (λ next. propagate_to_parents propagate next i parents)

  -- The children with what `label_propagate` reads of them.
  abbrev pub read_children : Heap W A → ℕ → List (Child A)
  read_children heap i =
      map
        (λ x. record { step = x.0.0; action = x.0.1; label = (heap x.1).label; is_self = x.1 == i })
        (heap i).children

module _ {ℓ} {W A : Type ℓ} ⦃o : Ord A⦄ where
  -- One call without the calls on the parents: the new heap, and whether these follow. `set_label`
  -- is called without the children.
  unfoldable pub label_node :
      (controller environment : List A) → Heap W A → ℕ → Result TreeError (Heap W A × Bool)
  unfolding set_label label_propagate_decision
  label_node controller environment heap i =
      if (heap i).is_expanding
      then ok (heap, false)
      else if not (heap i).is_expanded
      then ok (heap, false)
      else if is_empty_list (heap i).children && is_unlabeled (heap i).label
      then err unlabeled_leaf
      else if is_empty_list (heap i).children
      then ok (heap, true)
      else if not (is_unlabeled (heap i).label)
      then ok (heap, false)
      else elim (label_propagate_decision controller environment (read_children heap i)) [
        | none ↦ ok (heap, false)
        | some (label, reason) ↦
            after
              (set_label 1 (store heap i (record (heap i) { label_reason = reason })) i label false)
              (λ next. ok (next, true))
      ]

  unfoldable pub propagate :
      ℕ → (controller environment : List A) → Heap W A → ℕ → Result TreeError (Heap W A)
  unfolding label_node propagate_to_parents
  propagate zero controller environment heap i = err out_of_fuel
  propagate (suc fuel) controller environment heap i =
      let up : Heap W A → ℕ → Result TreeError (Heap W A) =
        λ next parent. propagate fuel controller environment next parent in
      after (label_node controller environment heap i)
        (λ x. if x.1 then propagate_to_parents up x.0 i (heap i).parents else ok x.0)

  -- The new entry of the children, and then the new parent of the child with the time to reach it.
  unfoldable pub insert_child : Heap W A → ℕ → (ℕ × A) → ℕ → Heap W A
  unfolding store assign
  insert_child heap i action child =
      store heap i (record (heap i) { children = assign action child (heap i).children })

  unfoldable pub insert_parent : Heap W A → ℕ → ℕ → ℕ → Heap W A
  unfolding store insert
  insert_parent heap i step child = store heap child (record (heap child) {
    min_total_region_increments =
        min (heap child).min_total_region_increments
          (((heap i).min_total_region_increments + step) % 2 ^ 32);
    parents = insert i (heap child).parents;
  })

  unfoldable pub add_child : Heap W A → ℕ → (ℕ × A) → ℕ → Result TreeError (Heap W A)
  unfolding insert_child insert_parent
  add_child heap i action child =
      if has_key action (heap i).children
      then err child_exists
      else ok (insert_parent (insert_child heap i action child) i action.0 child)
