-- ===== src/Search/Tree/Later.antt =====
-- src/search/include/search/search_tree.h: what setting labels leaves as it is.
use scico_d.Prelude.{
  is_empty_list, ℕ, zero, suc, Bool, true, false, not, ◌&&◌, List, [], ◌∷◌, Option, none, some, ◌≡◌,
  refl, sym, ap, subst, ◌∙◌, ◌⊎◌, inl, inr, arith, Ord, ◌==◌, if◌then◌else◌, Result, ok, err, after,
  after-ok, ok-injective, Bool-cases,
}
use scico_d.Search.Labels.{NodeLabel, LabelReason, canceled, is_unlabeled, label_propagate_decision}
use scico_d.Search.Tree.{
  Node, Heap, TreeError, store, set_label, cancel_children, is_abandoned, is_relabeling,
  propagate_to_parents, read_children, label_node, propagate,
}

module _ {ℓ} {W A : Type ℓ} where
  -- The node has the same links, and its label is the same unless it had none.
  pub record IsLaterNode (n n' : Node W A) : Type ℓ where
    pub same_children : n'.children ≡ n.children
    pub same_parents : n'.parents ≡ n.parents
    pub same_label_if : (n'.label ≡ n.label) ⊎ (is_unlabeled n.label ≡ true)

  abbrev pub IsLater : Heap W A → Heap W A → Type ℓ
  IsLater heap next = (j : ℕ) → IsLaterNode (heap j) (next j)

  pub IsLater-refl : (heap : Heap W A) → IsLater heap heap
  IsLater-refl heap j = record {
    same_children = refl;
    same_parents = refl;
    same_label_if = inl refl;
  }

  pub IsLater-trans : (h1 h2 h3 : Heap W A) → IsLater h1 h2 → IsLater h2 h3 → IsLater h1 h3
  IsLater-trans h1 h2 h3 p q j = record {
    same_children = (q j).same_children ∙ (p j).same_children;
    same_parents = (q j).same_parents ∙ (p j).same_parents;
    same_label_if = elim (p j).same_label_if [
      | inr u ↦ inr u
      | inl e ↦ elim (q j).same_label_if [
        | inl e' ↦ inl (e' ∙ e)
        | inr u ↦ inr (subst (λ l. is_unlabeled l ≡ true) e u)
      ]
    ];
  }

  pub store-IsLater :
      (heap : Heap W A) (i : ℕ) (node : Node W A)
      → IsLaterNode (heap i) node
      → IsLater heap (store heap i node)
  unfolding store
  store-IsLater heap i node p j = elim (Bool-cases (j == i)) [
    | inl e ↦
        let same : j ≡ i = ground arith in
        rw e (subst (λ k. IsLaterNode (heap k) node) (sym same) p)
    | inr e ↦ rw e (IsLater-refl heap j)
  ]

  pub cancel_children-IsLater :
      (cancel : Heap W A → ℕ → Result TreeError (Heap W A))
      → ((h h' : Heap W A) (c : ℕ) → cancel h c ≡ ok h' → IsLater h h')
      → (heap next : Heap W A) (children : List ((ℕ × A) × ℕ))
      → cancel_children cancel heap children ≡ ok next
      → IsLater heap next
  unfolding cancel_children
  cancel_children-IsLater cancel f heap next [] e =
      subst (IsLater heap) (ok-injective e) (IsLater-refl heap)
  cancel_children-IsLater cancel f heap next ((action, child) ∷ children) e =
      let (h, e1, e2) =
        after-ok (if is_abandoned heap child then cancel heap child else ok heap) e in
      let rest = cancel_children-IsLater cancel f h next children e2 in
      elim (Bool-cases (is_abandoned heap child)) [
        | inl p ↦ IsLater-trans heap h next (f heap h child (ground arith)) rest
        | inr p ↦
            let same : ◌≡◌ {A = Result TreeError (Heap W A)} (ok heap) (ok h) = ground arith in
            subst (λ x. IsLater x next) (sym (ok-injective same)) rest
      ]

  pub set_label-IsLater :
      (fuel : ℕ) (heap next : Heap W A) (i : ℕ) (label : NodeLabel) (with_children : Bool)
      → set_label fuel heap i label with_children ≡ ok next
      → IsLater heap next
  unfolding set_label
  set_label-IsLater zero heap next i label with_children e = ground arith
  set_label-IsLater (suc fuel) heap next i label with_children e =
      elim (Bool-cases (is_relabeling (heap i).label label)) [
        | inl p ↦ ground arith
        | inr p ↦ elim (Bool-cases (is_unlabeled (heap i).label)) [
          | inr q ↦
              let same : ◌≡◌ {A = Result TreeError (Heap W A)} (ok heap) (ok next) = ground arith in
              subst (IsLater heap) (ok-injective same) (IsLater-refl heap)
          | inl q ↦
              let labeled = store heap i (record (heap i) { label = label }) in
              let first : IsLater heap labeled =
                store-IsLater heap i (record (heap i) { label = label })
                  (record { same_children = refl; same_parents = refl; same_label_if = inr q }) in
              elim (Bool-cases with_children) [
                | inl r ↦ IsLater-trans heap labeled next first (
                    cancel_children-IsLater (λ h c. set_label fuel h c canceled true)
                      (λ h h' c. set_label-IsLater fuel h h' c canceled true) labeled next
                      (heap i).children (ground arith))
                | inr r ↦
                    let same : ◌≡◌ {A = Result TreeError (Heap W A)} (ok labeled) (ok next) =
                      ground arith in
                    subst (IsLater heap) (ok-injective same) first
              ]
        ]
      ]

  pub propagate_to_parents-IsLater :
      (up : Heap W A → ℕ → Result TreeError (Heap W A))
      → ((h h' : Heap W A) (p : ℕ) → up h p ≡ ok h' → IsLater h h')
      → (heap next : Heap W A) (i : ℕ) (parents : List ℕ)
      → propagate_to_parents up heap i parents ≡ ok next
      → IsLater heap next
  unfolding propagate_to_parents
  propagate_to_parents-IsLater up f heap next i [] e =
      subst (IsLater heap) (ok-injective e) (IsLater-refl heap)
  propagate_to_parents-IsLater up f heap next i (parent ∷ parents) e =
      let (h, e1, e2) = after-ok (if parent == i then ok heap else up heap parent) e in
      let rest = propagate_to_parents-IsLater up f h next i parents e2 in
      elim (Bool-cases (parent == i)) [
        | inl p ↦
            let same : ◌≡◌ {A = Result TreeError (Heap W A)} (ok heap) (ok h) = ground arith in
            subst (λ x. IsLater x next) (sym (ok-injective same)) rest
        | inr p ↦ IsLater-trans heap h next (f heap h parent (ground arith)) rest
      ]

module _ {ℓ} {W A : Type ℓ} where
  unchanged_or :
      (heap : Heap W A) (test continues : Bool) (r : Result TreeError (Heap W A × Bool))
      (x : Heap W A × Bool)
      → (if test then ok (heap, continues) else r) ≡ ok x
      → (r ≡ ok x → IsLater heap x.0)
      → IsLater heap x.0
  unchanged_or heap true continues r x e k =
      subst (IsLater heap) (ap (λ y. y.0) (ok-injective e)) (IsLater-refl heap)
  unchanged_or heap false continues r x e k = k e

  refused_or :
      (heap : Heap W A) (test : Bool) (e : TreeError) (r : Result TreeError (Heap W A × Bool))
      (x : Heap W A × Bool)
      → (if test then err e else r) ≡ ok x
      → (r ≡ ok x → IsLater heap x.0)
      → IsLater heap x.0
  refused_or heap true e r x h k = cc
  refused_or heap false e r x h k = k h

module _ {ℓ} {W A : Type ℓ} ⦃o : Ord A⦄ (controller environment : List A) where
  -- The heap after a call on one node, by the decision on its label.
  decided-IsLater :
      (heap : Heap W A) (i : ℕ) (decision : Option (NodeLabel × LabelReason)) (x : Heap W A × Bool)
      → (elim decision [
        | none ↦ ok (heap, false)
        | some (label, reason) ↦
            after
              (set_label 1 (store heap i (record (heap i) { label_reason = reason })) i label false)
              (λ next. ok (next, true))
      ])
        ≡ ok x
      → IsLater heap x.0
  decided-IsLater heap i none x e =
      subst (IsLater heap) (ap (λ y. y.0) (ok-injective e)) (IsLater-refl heap)
  decided-IsLater heap i (some (label, reason)) x e =
      let explained = store heap i (record (heap i) { label_reason = reason }) in
      let (next, e1, e2) =
        after-ok (set_label 1 explained i label false) {rest = λ h. ok (h, true)} e in
      let first : IsLater heap explained =
        store-IsLater heap i (record (heap i) { label_reason = reason })
          (record { same_children = refl; same_parents = refl; same_label_if = inl refl }) in
      subst (IsLater heap) (ap (λ y. y.0) (ok-injective e2)) (
        IsLater-trans heap explained next first
          (set_label-IsLater 1 explained next i label false e1))

  pub label_node-IsLater :
      (heap : Heap W A) (i : ℕ) (x : Heap W A × Bool)
      → label_node controller environment heap i ≡ ok x
      → IsLater heap x.0
  unfolding label_node
  label_node-IsLater heap i x e = unchanged_or heap (heap i).is_expanding false _ x e (λ e1.
      unchanged_or heap (not (heap i).is_expanded) false _ x e1 (λ e2.
        refused_or heap (is_empty_list (heap i).children && is_unlabeled (heap i).label) _ _ x e2
          (λ e3. unchanged_or heap (is_empty_list (heap i).children) true _ x e3 (λ e4.
            unchanged_or heap (not (is_unlabeled (heap i).label)) false _ x e4 (λ e5.
              decided-IsLater heap i
                (label_propagate_decision controller environment (read_children heap i)) x e5)))))

  pub propagate-IsLater :
      (fuel : ℕ) (heap next : Heap W A) (i : ℕ)
      → propagate fuel controller environment heap i ≡ ok next
      → IsLater heap next
  unfolding propagate
  propagate-IsLater zero heap next i e = ground arith
  propagate-IsLater (suc fuel) heap next i e =
      let ((h, continues), e1, e2) = after-ok (label_node controller environment heap i) e in
      let first = label_node-IsLater heap i (h, continues) e1 in
      elim (Bool-cases continues) [
        | inl p ↦ IsLater-trans heap h next first (
            propagate_to_parents-IsLater (λ g p. propagate fuel controller environment g p)
              (λ g g' p. propagate-IsLater fuel g g' p) h next i (heap i).parents (ground arith))
        | inr p ↦
            let same : ◌≡◌ {A = Result TreeError (Heap W A)} (ok h) (ok next) = ground arith in
            subst (IsLater heap) (ok-injective same) first
      ]
