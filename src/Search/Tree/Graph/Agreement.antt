-- ===== src/Search/Tree/Graph/Agreement.antt =====
-- src/search/include/search/search.h and search_tree.h: `label_graph` and `label_propagate` on a
-- node whose children have labels.
use scico_d.Prelude.{
  ℕ, suc, Bool, true, false, List, [], ◌∷◌, ◌≡◌, refl, arith, Ord, nat_ord, ◌==◌, member, all_of,
  Bool-cases, inl, inr, if◌then◌else◌, Result, map, ok, err, ◌∙◌, after, is_empty_list,
}
use scico_d.Search.Labels.{
  NodeLabel, LabelReason, Child, no_steps, is_unlabeled, graph_children, label_graph_decision,
}
use scico_d.Search.Labels.Agreement.{
  is_settled, is_tied, label_propagate_decision-label_graph_decision,
}
use scico_d.Search.Tree.{Heap, unknown_state, read_children, label_node, set_label, store}
use scico_d.Search.Tree.Graph.{set_decision, visit_children, label_graph}
use scico_d.Search.Tree.Graph.Ends.{label_visited-unknown}

after_twice {ℓ} :
    {H : Type ℓ} {V E : Type 0} (r : Result E H) (v : V)
    → after {B = H × Bool} r (λ h. ok (h, true))
      ≡ after {B = H × Bool} (after {B = H × V} r (λ h. ok (h, v))) (λ x. ok (x.0, true))
after_twice (ok h) v = refl
after_twice (err e) v = refl

module _ {ℓ} {A : Type ℓ} ⦃o : Ord A⦄ (controller environment : List A) where
  settled_labelled :
      (c : Child A)
      → is_settled controller environment c ≡ true
      → (is_unlabeled c.label ≡ false) × (c.is_self ≡ false)
  settled_labelled c h = (ground arith, ground arith)

module _ {ℓ} {W A : Type ℓ} ⦃o : Ord A⦄ (controller environment : List A) where
  -- The calls on children with labels change nothing.
  visit_settled :
      (fuel : ℕ) (heap : Heap W A) (visited : List ℕ) (i : ℕ) (cs : List ((ℕ × A) × ℕ))
      → all_of (is_settled controller environment) (
          map
            (λ x. record {
              step = x.0.0;
              action = x.0.1;
              label = (heap x.1).label;
              is_self = x.1 == i;
            })
            cs)
        ≡ true
      → visit_children (λ h v c. label_graph (suc fuel) controller h v c) heap visited i cs
        ≡ ok (heap, visited)
  unfolding visit_children label_graph
  visit_settled fuel heap visited i [] h = refl
  visit_settled fuel heap visited i ((action, child) ∷ cs) h =
      let c : Child A = record {
        step = action.0;
        action = action.1;
        label = (heap child).label;
        is_self = child == i;
      } in
      let (u, s) = settled_labelled controller environment c (ground arith) in
      rw (s, u) (visit_settled fuel heap visited i cs (ground arith))

  unvisited :
      (fuel : ℕ) (heap : Heap W A) (visited : List ℕ) (i : ℕ)
      → is_unlabeled (heap i).label ≡ true
      → (heap i).state ≡ unknown_state
      → member i visited ≡ false
      → all_of (is_settled controller environment) (read_children heap i) ≡ true
      → label_graph (suc (suc fuel)) controller heap visited i
        ≡ after
            (set_decision heap i (label_graph_decision controller (read_children heap i)))
            (λ h. ok (h, i ∷ visited))
  unfolding label_graph
  unvisited fuel heap visited i u st new settled =
      rw (u, new)
        (label_visited-unknown controller (λ h v c. label_graph (suc fuel) controller h v c) heap
            (i ∷ visited) i st
          ∙ rw (visit_settled fuel heap (i ∷ visited) i (heap i).children settled) refl)

  decided :
      (heap : Heap W A) (visited : List ℕ) (i : ℕ) (d : NodeLabel × LabelReason)
      → after {B = Heap W A × Bool}
          (set_label 1 (store heap i (record (heap i) { label_reason = d.1 })) i d.0 false)
          (λ h. ok (h, true))
        ≡ after {B = Heap W A × Bool}
            (after {B = Heap W A × List ℕ} (set_decision heap i d) (λ h. ok (h, i ∷ visited)))
            (λ x. ok (x.0, true))
  unfolding set_decision
  decided heap visited i d = after_twice (set_decision heap i d) (i ∷ visited)

  -- Take an expanded node with children, without a label, whose state is not known and that has not
  -- been visited. All children are labelled TOP or BOTTOM and differ from the node, and their actions
  -- are those of the controller and the environment. Then `label_propagate` does to the heap, before
  -- it goes to the parents, what `label_graph` does, unless the first good controller action and the
  -- first bad environment action are at the same step: then it leaves the heap as it is and stops.
  pub label_node-label_graph :
      (fuel : ℕ) (heap : Heap W A) (visited : List ℕ) (i : ℕ)
      → (heap i).is_expanding ≡ false
      → (heap i).is_expanded ≡ true
      → is_empty_list (heap i).children ≡ false
      → is_unlabeled (heap i).label ≡ true
      → (heap i).state ≡ unknown_state
      → member i visited ≡ false
      → all_of (is_settled controller environment) (read_children heap i) ≡ true
      → label_node controller environment heap i ≡ (
          if is_tied (graph_children controller (read_children heap i) no_steps)
          then ok (heap, false)
          else after (label_graph (suc (suc fuel)) controller heap visited i) (λ x. ok (x.0, true)))
  unfolding label_node
  label_node-label_graph fuel heap visited i expanding expanded n u st new settled =
      let d = label_graph_decision controller (read_children heap i) in
      let agreed =
        label_propagate_decision-label_graph_decision controller environment (read_children heap i)
          settled in
      let whole : label_graph (suc (suc fuel)) controller heap visited i
          ≡ after (set_decision heap i d) (λ h. ok (h, i ∷ visited)) =
        unvisited fuel heap visited i u st new settled in
      elim (Bool-cases (is_tied (graph_children controller (read_children heap i) no_steps))) [
        | inl t ↦ rw (expanding, expanded, n, u, agreed, t) refl
        | inr t ↦ rw (expanding, expanded, n, u, agreed, t, whole) (decided heap visited i d)
      ]
