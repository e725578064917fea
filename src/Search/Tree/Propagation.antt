-- ===== src/Search/Tree/Propagation.antt =====
-- src/search/include/search/search_tree.h: `label_propagate` ends, with the parents that it calls.
use scico_d.Prelude.{
  ℕ, zero, suc, ◌<◌, Bool, true, false, List, [], ◌∷◌, some, Option-cases, ◌≡◌, refl, sym, subst,
  inl, inr, arith, Ord, nat_ord, ◌==◌, Result, ok, Bool-cases, All, All-imp, member, is_empty_list,
}
use scico_d.Search.Labels.{
  NodeLabel, LabelReason, is_unlabeled, label_propagate_decision, propagate_children, no_steps,
  propagate_decision, Child, Steps,
}
use scico_d.Search.Tree.{
  Node, Heap, TreeError, store, set_label, read_children, label_node, propagate_to_parents,
  propagate,
}
use scico_d.Search.Tree.Later.{IsLater, propagate-IsLater, label_node-IsLater}
use scico_d.Search.Tree.Cancel.{unlabeled_count, unlabeled_count-IsLater, unlabeled_count-labeled}

decided_label :
    (s : Steps) (label : NodeLabel) (reason : LabelReason)
    → propagate_decision s ≡ some (label, reason)
    → is_unlabeled label ≡ false
decided_label s label reason e = ground arith

propagated_label {ℓ} :
    {A : Type ℓ} ⦃o : Ord A⦄ (controller environment : List A) (children : List (Child A))
    (label : NodeLabel) (reason : LabelReason)
    → label_propagate_decision controller environment children ≡ some (label, reason)
    → is_unlabeled label ≡ false
unfolding label_propagate_decision
propagated_label controller environment children label reason e =
    decided_label (propagate_children controller environment children no_steps) label reason e

stored_node {ℓ} :
    {W A : Type ℓ} (heap : Heap W A) (i : ℕ) (node : Node W A) → store heap i node i ≡ node
unfolding store
stored_node heap i node = let self : (i == i) ≡ true = ground arith in rw self refl

module _ {ℓ} {W A : Type ℓ} ⦃o : Ord A⦄ (controller environment : List A) where
  -- The parents of the nodes are among them, and each has a child.
  abbrev pub HasParents : List ℕ → Heap W A → Type 0
  HasParents ids heap =
      (j : ℕ)
      → member j ids ≡ true
      → All (λ p. (member p ids ≡ true) × (is_empty_list (heap p).children ≡ false))
          (heap j).parents

  parents-IsLater :
      (ids : List ℕ) (heap next : Heap W A)
      → IsLater heap next
      → (ps : List ℕ)
      → All (λ p. (member p ids ≡ true) × (is_empty_list (heap p).children ≡ false)) ps
      → All (λ p. (member p ids ≡ true) × (is_empty_list (next p).children ≡ false)) ps
  parents-IsLater ids heap next f ps hs =
      All-imp
        (λ p (q : (member p ids ≡ true) × (is_empty_list (heap p).children ≡ false)).
          (q.0, subst (λ cs. is_empty_list cs ≡ false) (sym (f p).same_children) q.1))
        ps hs

  HasParents-IsLater :
      (ids : List ℕ) (heap next : Heap W A)
      → IsLater heap next
      → HasParents ids heap
      → HasParents ids next
  HasParents-IsLater ids heap next f h j m =
      subst (λ ps. All (λ p. (member p ids ≡ true) × (is_empty_list (next p).children ≡ false)) ps)
        (sym (f j).same_parents) (parents-IsLater ids heap next f (heap j).parents (h j m))

  -- A node without a label gets the label that is decided.
  decided_heap :
      (heap : Heap W A) (i : ℕ) (label : NodeLabel) (reason : LabelReason)
      → is_unlabeled (heap i).label ≡ true
      → is_unlabeled label ≡ false
      → (next : Heap W A) × (set_label 1
            (store heap i (record (heap i) { label_reason = reason }))
            i
            label
            false
          ≡ ok next)
        × (is_unlabeled (next i).label ≡ false)
  unfolding set_label
  decided_heap heap i label reason u l =
      let explained = store heap i (record (heap i) { label_reason = reason }) in
      let still : is_unlabeled (explained i).label ≡ true =
        subst (λ n. is_unlabeled n.label ≡ true) (sym (stored_node heap i _)) u in
      let node = record (explained i) { label = label } in
      (
        store explained i node,
        rw still refl,
        subst (λ n. is_unlabeled n.label ≡ false) (sym (stored_node explained i node)) l,
      )

  -- A leaf has a label, as the source asserts.
  abbrev pub HasLabelIfLeaf : Heap W A → ℕ → Type 0
  HasLabelIfLeaf heap i =
      is_empty_list (heap i).children ≡ true → is_unlabeled (heap i).label ≡ false

  -- One call ends; if the calls on the parents follow, the node is a leaf or has got a label.
  label_node_total :
      (heap : Heap W A) (i : ℕ)
      → HasLabelIfLeaf heap i
      → (next : Heap W A) × (continues : Bool) × (label_node controller environment heap i
          ≡ ok (next, continues))
        × (continues ≡ true
            → is_empty_list (heap i).children ≡ false
            → (is_unlabeled (heap i).label ≡ true) × (is_unlabeled (next i).label ≡ false))
  unfolding label_node
  label_node_total heap i leaf = elim (Bool-cases (heap i).is_expanding) [
    | inl p ↦ (heap, false, rw p refl, λ k. ground arith)
    | inr p ↦ elim (Bool-cases (heap i).is_expanded) [
      | inr q ↦ (heap, false, rw (p, q) refl, λ k. ground arith)
      | inl q ↦ elim (Bool-cases (is_empty_list (heap i).children)) [
        | inl r ↦ (heap, true, rw (p, q, r, leaf r) refl, λ k n. ground arith)
        | inr r ↦ elim (Bool-cases (is_unlabeled (heap i).label)) [
          | inr u ↦ (heap, false, rw (p, q, r, u) refl, λ k. ground arith)
          | inl u ↦
              elim (Option-cases
                (label_propagate_decision controller environment (read_children heap i))) [
                  | inl e ↦ (heap, false, rw (p, q, r, u, e) refl, λ k. ground arith)
                  | inr ((label, reason), e) ↦
                      let (next, f, l) = decided_heap heap i label reason u (
                        propagated_label controller environment (read_children heap i) label reason
                          e) in
                      (next, true, rw (p, q, r, u, e, f) refl, λ k n. (u, l))
                ]
        ]
      ]
    ]
  ]

  calls_total :
      (ids : List ℕ) (fuel : ℕ) (up : Heap W A → ℕ → Result TreeError (Heap W A))
      → ((h : Heap W A) (p : ℕ)
          → HasParents ids h
          → member p ids ≡ true
          → is_empty_list (h p).children ≡ false
          → unlabeled_count h ids < fuel
          → (h' : Heap W A) × (up h p ≡ ok h') × IsLater h h')
      → (heap : Heap W A) (i : ℕ) (parents : List ℕ) → HasParents ids heap
      → All (λ p. (member p ids ≡ true) × (is_empty_list (heap p).children ≡ false)) parents
      → unlabeled_count heap ids < fuel
      → (next : Heap W A) × (propagate_to_parents up heap i parents ≡ ok next)
  unfolding propagate_to_parents
  calls_total ids fuel up f heap i [] closed ms count = (heap, refl)
  calls_total ids fuel up f heap i (parent ∷ parents) closed ((m, n), ms) count =
      elim (Bool-cases (parent == i)) [
        | inl p ↦
            let (next, e') = calls_total ids fuel up f heap i parents closed ms count in
            (next, rw p e')
        | inr p ↦
            let (h, e, later) = f heap parent closed m n count in
            let (next, e') =
              calls_total ids fuel up f h i parents (HasParents-IsLater ids heap h later closed)
                (parents-IsLater ids heap h later parents ms)
                (ground (arith, unlabeled_count-IsLater ids heap h later)) in
            (next, rw (p, e) e')
      ]

  -- On a node with children.
  inner_total :
      (fuel : ℕ) (ids : List ℕ) (heap : Heap W A) (i : ℕ)
      → HasParents ids heap
      → member i ids ≡ true
      → is_empty_list (heap i).children ≡ false
      → unlabeled_count heap ids < fuel
      → (next : Heap W A) × (propagate fuel controller environment heap i ≡ ok next)
        × IsLater heap next
  unfolding propagate
  inner_total zero ids heap i closed m n count = absurd (ground arith)
  inner_total (suc fuel) ids heap i closed m n count =
      let (h, continues, e, changed) = label_node_total heap i (λ k. ground arith) in
      let later = label_node-IsLater controller environment heap i (h, continues) e in
      elim (Bool-cases continues) [
        | inr c ↦ (h, rw (e, c) refl, later)
        | inl c ↦
            let (u, l) = changed c n in
            let fewer = unlabeled_count-labeled ids heap h i later u l m in
            let (next, e') =
              calls_total ids fuel (λ g p. propagate fuel controller environment g p)
                (λ g p closed' m' n' count'. inner_total fuel ids g p closed' m' n' count') h i
                (heap i).parents (HasParents-IsLater ids heap h later closed)
                (parents-IsLater ids heap h later (heap i).parents (closed i m)) (ground arith) in
            let whole : propagate (suc fuel) controller environment heap i ≡ ok next =
              rw (e, c) e' in
            (next, whole, propagate-IsLater controller environment (suc fuel) heap next i whole)
      ]

  -- Take nodes among which the parents of each are, each parent with a child. With fuel above one
  -- more than the number of those without a label, `label_propagate` on one of them, which has a
  -- label if it is a leaf, ends without an exception or a failed assertion.
  pub propagate_total :
      (fuel : ℕ) (ids : List ℕ) (heap : Heap W A) (i : ℕ)
      → HasParents ids heap
      → member i ids ≡ true
      → HasLabelIfLeaf heap i
      → suc (unlabeled_count heap ids) < fuel
      → (next : Heap W A) × (propagate fuel controller environment heap i ≡ ok next)
  unfolding propagate
  propagate_total zero ids heap i closed m leaf count = absurd (ground arith)
  propagate_total (suc fuel) ids heap i closed m leaf count =
      let (h, continues, e, changed) = label_node_total heap i leaf in
      let later = label_node-IsLater controller environment heap i (h, continues) e in
      elim (Bool-cases continues) [
        | inr c ↦ (h, rw (e, c) refl)
        | inl c ↦
            let (next, e') =
              calls_total ids fuel (λ g p. propagate fuel controller environment g p)
                (λ g p closed' m' n' count'. inner_total fuel ids g p closed' m' n' count') h i
                (heap i).parents (HasParents-IsLater ids heap h later closed)
                (parents-IsLater ids heap h later (heap i).parents (closed i m))
                (ground (arith, unlabeled_count-IsLater ids heap h later)) in
            (next, rw (e, c) e')
      ]
