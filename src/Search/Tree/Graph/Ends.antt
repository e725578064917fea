-- ===== src/Search/Tree/Graph/Ends.antt =====
-- src/search/include/search/search.h: `label_graph` ends, and what comes of a node by the run on its
-- children.
use scico_d.Prelude.{
  ℕ, zero, suc, ◌<◌, true, false, List, ◌∷◌, ◌≡◌, ◌⊎◌, refl, subst, ◌∙◌, ap, inl, inr, arith, Ord,
  nat_ord, ◌==◌, member, Subset, Bool-cases, Result, ok, err, after,
}
use scico_d.Search.Labels.{
  NodeLabel, top, bottom, is_unlabeled, LabelReason, good_node, bad_node, dead_node,
  monotonic_domination, label_graph_decision,
}
use scico_d.Search.Tree.{Heap, TreeError, label_already_set, unknown_state, store, read_children}
use scico_d.Search.Tree.Later.{IsLater, IsLater-refl, IsLater-trans, store-IsLater}
use scico_d.Search.Tree.Cancel.{IsClosed}
use scico_d.Search.Tree.Ancestors.Reached.{unseen_count, unseen_count-new}
use scico_d.Search.Tree.Graph.{set_decision, visit_children, label_visited, label_graph}
use scico_d.Search.Tree.Graph.Total.{
  IsDecision, state_cases, label_graph_decision-IsDecision, stored_node, IsSameBut, store-IsSameBut,
  set_decision-IsLater, set_decision_cases, KeepsVisited, KeepsVisited-trans, same-KeepsVisited,
  Ends, visit_children_total,
}

decided_label : (l : NodeLabel) → IsDecision l → is_unlabeled l ≡ false
decided_label l (inl e) = rw e refl
decided_label l (inr e) = rw e refl

visited_label :
    (l l' : NodeLabel)
    → is_unlabeled l ≡ true
    → (l' ≡ l) ⊎ (l' ≡ top)
    → (is_unlabeled l' ≡ true) ⊎ (l' ≡ top)
visited_label l l' u (inl e) = inl (rw e u)
visited_label l l' u (inr e) = inr e

module _ {ℓ} {W A : Type ℓ} ⦃o : Ord A⦄ (controller : List A) where
  -- The end of a loop.
  loop-Ends :
      (heap : Heap W A) (visited : List ℕ) (i : ℕ)
      → is_unlabeled (heap i).label ≡ true
      → Ends
          (λ g. is_unlabeled (g i).label ≡ false)
          heap
          visited
          (ok (
            store heap i (record (heap i) { label = top; label_reason = monotonic_domination }),
            visited,
          ))
  loop-Ends heap visited i u =
      let node = record (heap i) { label = top; label_reason = monotonic_domination } in
      inl (
        (store heap i node, visited),
        refl,
        store-IsLater heap i node
            (record { same_children = refl; same_parents = refl; same_label_if = inr u }),
        (λ a k. k),
        (λ x k. elim (Bool-cases (x == i)) [
          | inl e ↦
              let same : i ≡ x = ground arith in
              inr (
                subst (λ y. (store heap i node y).label ≡ top) same
                  (ap (λ n. n.label) (stored_node heap i node)))
          | inr e ↦ inl (ap (λ n. n.label) (store-IsSameBut heap i node x e))
        ]),
        ap (λ n. is_unlabeled n.label) (stored_node heap i node),
      )

  -- A node that has been put among the visited, where its state decides.
  decided-Ends :
      (heap : Heap W A) (visited : List ℕ) (i : ℕ) (d : NodeLabel × LabelReason)
      → IsDecision d.0
      → is_unlabeled (heap i).label ≡ true
      → member i visited ≡ false
      → Ends
          (λ g. is_unlabeled (g i).label ≡ false)
          heap
          visited
          (after (set_decision heap i d) (λ h. ok (h, i ∷ visited)))
  decided-Ends heap visited i d decision u n = elim (set_decision_cases heap i d decision (inl u)) [
    | inr (e, t, b) ↦ inr (rw e refl)
    | inl (next, e, l, same) ↦ inl (
      (next, i ∷ visited),
      rw e refl,
      set_decision-IsLater heap next i d e,
      (λ a m. ground arith),
      same-KeepsVisited visited i heap next n same,
      rw l (decided_label d.0 decision),
    )
  ]

  pub label_visited-unknown :
      (visit : Heap W A → List ℕ → ℕ → Result TreeError (Heap W A × List ℕ)) (heap : Heap W A)
      (visited : List ℕ) (i : ℕ)
      → (heap i).state ≡ unknown_state
      → label_visited visit controller heap visited i
        ≡ after (visit_children visit heap visited i (heap i).children) (λ x.
          after
            (set_decision x.0 i (label_graph_decision controller (read_children x.0 i)))
            (λ h. ok (h, x.1)))
  unfolding label_visited
  label_visited-unknown visit heap visited i st = rw (st, label_visited) refl

  -- What comes of a node by the run on its children: the exception of that run, or a label, or the
  -- exception where the node is TOP as the end of a loop and has to be BOTTOM.
  abbrev pub Labels :
      ℕ
      → Heap W A
      → (visited : List ℕ) → (children result : Result TreeError (Heap W A × List ℕ)) → Type ℓ
  Labels i heap visited children result =
      ((x : Heap W A × List ℕ) × (children ≡ ok x)
        × IsLater heap x.0
        × Subset visited x.1
        × KeepsVisited visited heap x.0
        × (((next : Heap W A) × (result ≡ ok (next, x.1))
              × ((next i).label ≡ (label_graph_decision controller (read_children x.0 i)).0)
              × IsSameBut i x.0 next
              × IsLater x.0 next)
            ⊎ ((result ≡ err label_already_set)
                × ((x.0 i).label ≡ top)
                × ((label_graph_decision controller (read_children x.0 i)).0 ≡ bottom))))
      ⊎ ((children ≡ err label_already_set) × (result ≡ err label_already_set))

  module _ (ids : List ℕ) (fuel : ℕ)
      (visit : Heap W A → List ℕ → ℕ → Result TreeError (Heap W A × List ℕ))
      (f : (h : Heap W A) (v : List ℕ) (c : ℕ)
        → IsClosed ids h
        → member c ids ≡ true
        → unseen_count ids v < fuel
        → Ends (λ g. is_unlabeled (g c).label ≡ false) h v (visit h v c)) where
    pub label_visited-Labels :
        (heap : Heap W A) (visited : List ℕ) (i : ℕ)
        → IsClosed ids heap
        → member i ids ≡ true
        → is_unlabeled (heap i).label ≡ true
        → (heap i).state ≡ unknown_state
        → unseen_count ids (i ∷ visited) < fuel
        → Labels i heap
            (i ∷ visited)
            (visit_children visit heap (i ∷ visited) i (heap i).children)
            (label_visited visit controller heap (i ∷ visited) i)
    label_visited-Labels heap visited i closed m u st count =
        let shape = label_visited-unknown visit heap (i ∷ visited) i st in
        elim (visit_children_total ids fuel visit f heap (i ∷ visited) i (heap i).children closed
          (closed i m) count) [
            | inr e ↦ inr (e, shape ∙ rw e refl)
            | inl (x, e, later, sub, keeps, t) ↦
                let d = label_graph_decision controller (read_children x.0 i) in
                let now =
                  visited_label (heap i).label (x.0 i).label u
                    (keeps i (ground (arith, nat_ord.lt_irrefl i))) in
                inl (
                  x,
                  e,
                  later,
                  sub,
                  keeps,
                  elim (set_decision_cases x.0 i d
                      (label_graph_decision-IsDecision controller (read_children x.0 i)) now) [
                        | inl (next, e', l, same) ↦ inl (
                          next,
                          shape ∙ rw (e, e') refl,
                          l,
                          same,
                          set_decision-IsLater x.0 next i d e',
                        )
                        | inr (e', t', b) ↦ inr (shape ∙ rw (e, e') refl, t', b)
                      ],
                )
          ]

    -- The state decides, or the children do.
    label_visited-Ends :
        (heap : Heap W A) (visited : List ℕ) (i : ℕ)
        → IsClosed ids heap
        → member i ids ≡ true
        → is_unlabeled (heap i).label ≡ true
        → member i visited ≡ false
        → unseen_count ids (i ∷ visited) < fuel
        → Ends
            (λ g. is_unlabeled (g i).label ≡ false)
            heap
            visited
            (label_visited visit controller heap (i ∷ visited) i)
    unfolding label_visited
    label_visited-Ends heap visited i closed m u n count = elim (state_cases (heap i).state) [
      | inr (inl e) ↦
          rw (e, label_visited) (decided-Ends heap visited i (top, good_node) (inl refl) u n)
      | inr (inr (inl e)) ↦
          rw (e, label_visited) (decided-Ends heap visited i (top, dead_node) (inl refl) u n)
      | inr (inr (inr e)) ↦
          rw (e, label_visited) (decided-Ends heap visited i (bottom, bad_node) (inr refl) u n)
      | inl st ↦ elim (label_visited-Labels heap visited i closed m u st count) [
        | inr (e, e') ↦ inr e'
        | inl (x, e, later, sub, keeps, inr (e', t, b)) ↦ inr e'
        | inl (x, e, later, sub, keeps, inl (next, e', l, same, later')) ↦ inl (
          (next, x.1),
          e',
          IsLater-trans heap x.0 next later later',
          (λ a k. sub a (ground arith)),
          KeepsVisited-trans visited visited heap x.0 next (λ a k. k)
              (λ y k. keeps y (ground arith)) (same-KeepsVisited visited i x.0 next n same),
          rw l (decided_label _ (label_graph_decision-IsDecision controller (read_children x.0 i))),
        )
      ]
    ]

  pub label_graph-Ends :
      (fuel : ℕ) (ids : List ℕ) (heap : Heap W A) (visited : List ℕ) (i : ℕ)
      → IsClosed ids heap
      → member i ids ≡ true
      → unseen_count ids visited < fuel
      → Ends
          (λ g. is_unlabeled (g i).label ≡ false)
          heap
          visited
          (label_graph fuel controller heap visited i)
  unfolding label_graph
  label_graph-Ends zero ids heap visited i closed m count = absurd (ground arith)
  label_graph-Ends (suc fuel) ids heap visited i closed m count =
      elim (Bool-cases (is_unlabeled (heap i).label)) [
        | inr u ↦
            rw u (inl ((heap, visited), refl, IsLater-refl heap, (λ a k. k), (λ x k. inl refl), u))
        | inl u ↦ elim (Bool-cases (member i visited)) [
          | inl n ↦ rw (u, n) (loop-Ends heap visited i u)
          | inr n ↦
              rw (u, n)
                (label_visited-Ends ids fuel (λ h v c. label_graph fuel controller h v c)
                  (λ h v c closed' m' count'. label_graph-Ends fuel ids h v c closed' m' count')
                  heap visited i closed m u n (ground (arith, unseen_count-new ids visited i m n)))
        ]
      ]
