-- ===== src/Search/Tree/Cancel.antt =====
-- src/search/include/search/search_tree.h: `set_label` ends, with the children that it cancels.
use scico_d.Prelude.{
  ℕ, zero, suc, ◌+◌, ◌≤◌, ◌<◌, Bool, true, false, List, [], ◌∷◌, ◌≡◌, refl, sym, ap, subst, ◌∙◌,
  inl, inr, arith, nat_ord, ◌==◌, if◌then◌else◌, Result, ok, Bool-cases, All, member,
}
use scico_d.Search.Labels.{NodeLabel, canceled, is_unlabeled}
use scico_d.Search.Tree.{
  Node, Heap, TreeError, store, set_label, cancel_children, is_abandoned, is_relabeling,
}
use scico_d.Search.Tree.Later.{
  IsLater, store-IsLater, set_label-IsLater, cancel_children-IsLater, IsLater-refl, IsLater-trans,
}

relabels_canceled : (label : NodeLabel) → is_relabeling label canceled ≡ false
relabels_canceled label = ground arith

module _ {ℓ} {W A : Type ℓ} where
  -- How many of the nodes have no label.
  unfoldable pub unlabeled_count : Heap W A → List ℕ → ℕ
  unlabeled_count heap [] = 0
  unlabeled_count heap (j ∷ js) =
      (if is_unlabeled (heap j).label then 1 else 0) + unlabeled_count heap js

  -- The children of the nodes are among them.
  abbrev pub IsClosed : List ℕ → Heap W A → Type 0
  IsClosed ids heap =
      (j : ℕ) → member j ids ≡ true → All (λ x. member x.1 ids ≡ true) (heap j).children

  pub IsLater-IsClosed :
      (ids : List ℕ) (heap next : Heap W A)
      → IsLater heap next
      → IsClosed ids heap
      → IsClosed ids next
  IsLater-IsClosed ids heap next f h j m =
      subst (λ cs. All (λ x. member x.1 ids ≡ true) cs) (sym (f j).same_children) (h j m)

  was_unlabeled :
      (heap next : Heap W A) (j : ℕ)
      → IsLater heap next
      → is_unlabeled (next j).label ≡ true
      → is_unlabeled (heap j).label ≡ true
  was_unlabeled heap next j f u = elim (f j).same_label_if [
    | inl e ↦ subst (λ l. is_unlabeled l ≡ true) e u
    | inr k ↦ k
  ]

  pub unlabeled_count-IsLater :
      (ids : List ℕ) (heap next : Heap W A)
      → IsLater heap next
      → unlabeled_count next ids ≤ unlabeled_count heap ids
  unfolding unlabeled_count
  unlabeled_count-IsLater [] heap next f = ground arith
  unlabeled_count-IsLater (j ∷ js) heap next f =
      ground (arith, was_unlabeled heap next j f, unlabeled_count-IsLater js heap next f)

  -- A node that gets a label makes the count smaller.
  pub unlabeled_count-labeled :
      (ids : List ℕ) (heap next : Heap W A) (i : ℕ)
      → IsLater heap next
      → is_unlabeled (heap i).label ≡ true
      → is_unlabeled (next i).label ≡ false
      → member i ids ≡ true
      → unlabeled_count next ids < unlabeled_count heap ids
  unfolding unlabeled_count
  unlabeled_count-labeled [] heap next i f u n m = ground arith
  unlabeled_count-labeled (j ∷ js) heap next i f u n m = elim (Bool-cases (i == j)) [
    | inl e ↦
        let same : i ≡ j = ground arith in
        let u' = subst (λ k. is_unlabeled (heap k).label ≡ true) same u in
        let n' = subst (λ k. is_unlabeled (next k).label ≡ false) same n in
        ground (arith, u', n', unlabeled_count-IsLater js heap next f)
    | inr e ↦ ground (
      arith,
      was_unlabeled heap next j f,
      unlabeled_count-labeled js heap next i f u n (ground arith),
    )
  ]

  cancel_children_total :
      (ids : List ℕ) (fuel : ℕ) (cancel : Heap W A → ℕ → Result TreeError (Heap W A))
      → ((h : Heap W A) (c : ℕ)
          → IsClosed ids h
          → member c ids ≡ true
          → unlabeled_count h ids < fuel
          → (h' : Heap W A) × (cancel h c ≡ ok h') × IsLater h h')
      → (heap : Heap W A) (children : List ((ℕ × A) × ℕ)) → IsClosed ids heap
      → All (λ x. member x.1 ids ≡ true) children
      → unlabeled_count heap ids < fuel
      → (next : Heap W A) × (cancel_children cancel heap children ≡ ok next)
  unfolding cancel_children
  cancel_children_total ids fuel cancel f heap [] closed ms count = (heap, refl)
  cancel_children_total ids fuel cancel f heap ((action, child) ∷ children) closed (m, ms) count =
      elim (Bool-cases (is_abandoned heap child)) [
        | inl p ↦
            let (h, e, later) = f heap child closed m count in
            let (next, e') =
              cancel_children_total ids fuel cancel f h children
                (IsLater-IsClosed ids heap h later closed) ms
                (ground (arith, unlabeled_count-IsLater ids heap h later)) in
            (next, rw (p, e) e')
        | inr p ↦
            let (next, e') =
              cancel_children_total ids fuel cancel f heap children closed ms count in
            (next, rw p e')
      ]

  pub stored :
      (heap next : Heap W A) (i : ℕ) (node : Node W A)
      → is_unlabeled node.label ≡ false
      → IsLater (store heap i node) next
      → (next i).label ≡ node.label
  unfolding store
  stored heap next i node l f =
      let self : (i == i) ≡ true = ground arith in
      let same : (store heap i node i) ≡ node = rw self refl in
      elim (f i).same_label_if [
        | inl e ↦ e ∙ ap (λ n. n.label) same
        | inr u ↦
            let u' : is_unlabeled node.label ≡ true =
              subst (λ n. is_unlabeled n.label ≡ true) same u in
            ground (arith, u', l)
      ]

  -- What `set_label` on a node without a label does.
  abbrev labeled_heap : Heap W A → ℕ → NodeLabel → Heap W A
  labeled_heap heap i label = store heap i (record (heap i) { label = label })

  labeled_heap-IsLater :
      (heap : Heap W A) (i : ℕ) (label : NodeLabel)
      → is_unlabeled (heap i).label ≡ true
      → IsLater heap (labeled_heap heap i label)
  labeled_heap-IsLater heap i label u =
      store-IsLater heap i (record (heap i) { label = label })
        (record { same_children = refl; same_parents = refl; same_label_if = inr u })

  -- Take nodes among which the children of each are. With fuel above the number of those without a
  -- label, `set_label` on one of them ends, with the children that it cancels and theirs, unless the
  -- node has another label already. The node then has the new label if it had none, and its old
  -- label otherwise.
  pub set_label_total :
      (fuel : ℕ) (ids : List ℕ) (heap : Heap W A) (i : ℕ) (label : NodeLabel) (with_children : Bool)
      → IsClosed ids heap
      → member i ids ≡ true
      → unlabeled_count heap ids < fuel
      → is_unlabeled label ≡ false
      → is_relabeling (heap i).label label ≡ false
      → (next : Heap W A) × (set_label fuel heap i label with_children ≡ ok next)
        × ((next i).label ≡ (if is_unlabeled (heap i).label then label else (heap i).label))
        × IsLater heap next
  unfolding set_label
  set_label_total zero ids heap i label with_children closed m count l r = absurd (ground arith)
  set_label_total (suc fuel) ids heap i label with_children closed m count l r =
      elim (Bool-cases (is_unlabeled (heap i).label)) [
        | inr u ↦ (heap, rw (r, u) refl, rw u refl, IsLater-refl heap)
        | inl u ↦
            let labeled = labeled_heap heap i label in
            let first = labeled_heap-IsLater heap i label u in
            elim (Bool-cases with_children) [
              | inr w ↦ (
                labeled,
                rw (r, u, w) refl,
                rw u (stored heap labeled i _ l (IsLater-refl labeled)),
                first,
              )
              | inl w ↦
                  let fewer =
                    unlabeled_count-labeled ids heap labeled i first u
                      (subst (λ x. is_unlabeled x ≡ false)
                        (sym (stored heap labeled i _ l (IsLater-refl labeled))) l)
                      m in
                  let (next, e) =
                    cancel_children_total ids fuel (λ h c. set_label fuel h c canceled true)
                      (λ h c closed' m' count'.
                        let (h', e', label', later') =
                          set_label_total fuel ids h c canceled true closed' m' count' refl
                            (relabels_canceled (h c).label) in
                        (h', e', later'))
                      labeled (heap i).children (IsLater-IsClosed ids heap labeled first closed)
                      (closed i m) (ground arith) in
                  let later =
                    cancel_children-IsLater (λ h c. set_label fuel h c canceled true)
                      (λ h h' c. set_label-IsLater fuel h h' c canceled true) labeled next
                      (heap i).children e in
                  (
                    next,
                    rw (r, u, w) e,
                    rw u (stored heap next i _ l later),
                    IsLater-trans heap labeled next first later,
                  )
            ]
      ]
