-- ===== src/Search/Tree/Graph/Strategy.antt =====
-- src/search/include/search/search.h: `label_graph` labels a node TOP where the controller
-- has a strategy.
use scico_d.Prelude.{
  ℕ, suc, ◌<◌, Bool, true, false, List, [], ◌∷◌, map, ◌≡◌, ◌⊎◌, refl, sym, subst, ◌∙◌, ap, inl, inr,
  arith, Ord, nat_ord, ◌==◌, ltb, member, all_of, if◌then◌else◌, ok, err,
}
use scico_d.Search.Labels.{
  NodeLabel, top, bottom, is_top, is_unlabeled, max_step, Child, label_graph_decision,
}
use scico_d.Search.Labels.Strategy.{has_strategy, label_graph_decision-has_strategy}
use scico_d.Search.Tree.{Heap, label_already_set, unknown_state, read_children}
use scico_d.Search.Tree.Later.{IsLater}
use scico_d.Search.Tree.Cancel.{IsClosed}
use scico_d.Search.Tree.Ancestors.Reached.{unseen_count, unseen_count-new}
use scico_d.Search.Tree.Graph.{visit_children, label_graph}
use scico_d.Search.Tree.Graph.Ends.{label_visited-Labels, label_graph-Ends}
use scico_d.Search.Tree.Graph.Total.{IsDecision, label_graph_decision-IsDecision}

decision_by_top : (l : NodeLabel) → IsDecision l → l ≡ (if is_top l then top else bottom)
decision_by_top l (inl e) = rw e refl
decision_by_top l (inr e) = rw e refl

module _ {ℓ} {W A : Type ℓ} ⦃o : Ord A⦄ (controller : List A) where
  -- The labels of the children leave the steps as they are.
  read_steps :
      (heap : Heap W A) (i : ℕ) (cs : List ((ℕ × A) × ℕ))
      → all_of (λ x. ltb x.0.0 max_step) cs ≡ true
      → all_of
          (λ (c : Child A). ltb c.step max_step)
          (map
            (λ x. record {
              step = x.0.0;
              action = x.0.1;
              label = (heap x.1).label;
              is_self = x.1 == i;
            })
            cs)
        ≡ true
  read_steps heap i [] h = refl
  read_steps heap i (c ∷ cs) h = ground (arith, read_steps heap i cs)

  later_steps :
      (heap next : Heap W A) (i : ℕ)
      → IsLater heap next
      → all_of (λ x. ltb x.0.0 max_step) (heap i).children ≡ true
      → all_of (λ c. ltb c.step max_step) (read_children next i) ≡ true
  later_steps heap next i later h =
      read_steps next i (next i).children
        (subst (λ cs. all_of (λ x. ltb x.0.0 max_step) cs ≡ true) (sym (later i).same_children) h)

  strategy_label :
      (heap : Heap W A) (i : ℕ)
      → all_of (λ c. ltb c.step max_step) (read_children heap i) ≡ true
      → (label_graph_decision controller (read_children heap i)).0
        ≡ (if has_strategy controller (read_children heap i) then top else bottom)
  strategy_label heap i h =
      decision_by_top _ (label_graph_decision-IsDecision controller (read_children heap i))
      ∙ ap (λ (b : Bool). if b then top else bottom)
          (label_graph_decision-has_strategy controller (read_children heap i) h)

  bottom_strategy :
      (heap : Heap W A) (i : ℕ)
      → all_of (λ c. ltb c.step max_step) (read_children heap i) ≡ true
      → (label_graph_decision controller (read_children heap i)).0 ≡ bottom
      → has_strategy controller (read_children heap i) ≡ false
  bottom_strategy heap i h b =
      sym (label_graph_decision-has_strategy controller (read_children heap i) h)
      ∙ ap (λ l. is_top l) b

  -- Take nodes among which the children of each are, and one of them with no label, whose state is
  -- not known and that has not been visited, with more fuel than nodes that have not been visited,
  -- and steps below the largest number. The calls on its children end, with a heap or with the
  -- exception of a label that is already set. In the second case so does `label_graph`. In the first
  -- it labels the node TOP exactly if on that heap the controller has a strategy: some good action of
  -- the controller comes before all bad actions of the environment, or the environment has an action
  -- and none of its actions is bad. Otherwise it labels the node BOTTOM, or ends with the exception
  -- where the node has become TOP as the end of a loop.
  pub label_graph-has_strategy :
      (fuel : ℕ) (ids : List ℕ) (heap : Heap W A) (visited : List ℕ) (i : ℕ)
      → IsClosed ids heap
      → member i ids ≡ true
      → unseen_count ids visited < suc fuel
      → is_unlabeled (heap i).label ≡ true
      → (heap i).state ≡ unknown_state
      → member i visited ≡ false
      → all_of (λ x. ltb x.0.0 max_step) (heap i).children ≡ true
      → let children =
          visit_children
            (λ h v c. label_graph fuel controller h v c)
            heap
            (i ∷ visited)
            i
            (heap i).children in
        let result = label_graph (suc fuel) controller heap visited i in
        ((x : Heap W A × List ℕ) × (children ≡ ok x)
          × (((next : Heap W A) × (result ≡ ok (next, x.1))
                × ((next i).label
                    ≡ (if has_strategy controller (read_children x.0 i) then top else bottom)))
              ⊎ ((result ≡ err label_already_set)
                  × ((x.0 i).label ≡ top)
                  × (has_strategy controller (read_children x.0 i) ≡ false))))
        ⊎ ((children ≡ err label_already_set) × (result ≡ err label_already_set))
  unfolding label_graph
  label_graph-has_strategy fuel ids heap visited i closed m count u st n steps =
      rw (u, n)
        (elim (label_visited-Labels controller ids fuel (λ h v c. label_graph fuel controller h v c)
          (λ h v c closed' m' count'. label_graph-Ends controller fuel ids h v c closed' m' count')
          heap visited i closed m u st (ground (arith, unseen_count-new ids visited i m n))) [
            | inr e ↦ inr e
            | inl (x, e, later, sub, keeps, inl (next, e', l, same, later')) ↦ inl (
              x,
              e,
              inl (next, e', l ∙ strategy_label x.0 i (later_steps heap x.0 i later steps)),
            )
            | inl (x, e, later, sub, keeps, inr (e', t, b)) ↦
                inl
                  (x, e, inr (e', t, bottom_strategy x.0 i (later_steps heap x.0 i later steps) b))
          ])
