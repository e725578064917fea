-- ===== src/Search/Tree/Histories.antt =====
-- src/search/include/search/search_tree.h: what stays true of the nodes while children are added
-- and labels are set, reset and propagated.
use scico_d.Prelude.{
  Subset-insert, All-assign, ℕ, Bool, true, false, ◌||◌, List, ◌≡◌, refl, sym, ap, subst, ◌∙◌, inl,
  inr, arith, Ord, nat_ord, pair_ord, ◌==◌, Result, ok, ok-injective, Bool-cases, All, All-imp,
  member, member-insert, assign, has_key, eqb_refl,
}
use scico_d.Search.Labels.{NodeLabel, unlabeled, is_unlabeled, is_top, is_bottom}
use scico_d.Search.Tree.{
  Node, Heap, TreeError, store, set_label, reset_label, propagate, add_child, insert_child,
  insert_parent, is_canceled,
}
use scico_d.Search.Tree.Later.{IsLater, set_label-IsLater, propagate-IsLater}

-- TOP or BOTTOM
abbrev pub is_decided : NodeLabel → Bool
is_decided label = is_top label || is_bottom label

decided_has_label : (label : NodeLabel) → is_decided label ≡ true → is_unlabeled label ≡ false
decided_has_label label h = ground arith

module _ {ℓ} {W A : Type ℓ} where
  -- The node is a parent of each of its children.
  abbrev pub IsLinked : Heap W A → Type 0
  IsLinked heap = (i : ℕ) → All (λ x. member i (heap x.1).parents ≡ true) (heap i).children

  abbrev pub KeepsDecisions : Heap W A → Heap W A → Type 0
  KeepsDecisions heap next =
      (j : ℕ) → is_decided (heap j).label ≡ true → (next j).label ≡ (heap j).label

  IsLater→KeepsDecisions : (heap next : Heap W A) → IsLater heap next → KeepsDecisions heap next
  IsLater→KeepsDecisions heap next f j h = elim (f j).same_label_if [
    | inl e ↦ e
    | inr u ↦ ground (arith, decided_has_label (heap j).label h)
  ]

  -- A field that the stored node has in common with the old one.
  field-store {κ} :
      {X : Type κ} (f : Node W A → X) (heap : Heap W A) (i : ℕ) (node : Node W A) (j : ℕ)
      → f node ≡ f (heap i)
      → f (store heap i node j) ≡ f (heap j)
  unfolding store
  field-store f heap i node j e = elim (Bool-cases (j == i)) [
    | inl p ↦ let same : j ≡ i = ground arith in rw p (e ∙ ap (λ k. f (heap k)) (sym same))
    | inr p ↦ rw p refl
  ]

  SameLinks-IsLinked :
      (heap next : Heap W A)
      → ((j : ℕ) → (next j).children ≡ (heap j).children)
      → ((j k : ℕ) → member k (heap j).parents ≡ true → member k (next j).parents ≡ true)
      → IsLinked heap
      → IsLinked next
  SameLinks-IsLinked heap next f g h i =
      subst (λ cs. All (λ x. member i (next x.1).parents ≡ true) cs) (sym (f i))
        (All-imp (λ x m. g x.1 i m) (heap i).children (h i))

  IsLater-IsLinked : (heap next : Heap W A) → IsLater heap next → IsLinked heap → IsLinked next
  IsLater-IsLinked heap next f =
      SameLinks-IsLinked heap next (λ j. (f j).same_children)
        (λ j k m. subst (λ ps. member k ps ≡ true) (sym (f j).same_parents) m)

  reset_label-IsLinked : (heap : Heap W A) (i : ℕ) → IsLinked heap → IsLinked (reset_label heap i)
  unfolding reset_label
  reset_label-IsLinked heap i h = elim (Bool-cases (is_canceled (heap i).label)) [
    | inl p ↦ rw p (
        let node = record (heap i) { label = unlabeled } in
        SameLinks-IsLinked heap (store heap i node)
          (λ j. field-store (λ n. n.children) heap i node j refl)
          (λ j k m.
            subst (λ ps. member k ps ≡ true) (sym (field-store (λ n. n.parents) heap i node j refl))
              m)
          h)
    | inr p ↦ rw p h
  ]

  reset_label-KeepsDecisions : (heap : Heap W A) (i : ℕ) → KeepsDecisions heap (reset_label heap i)
  unfolding reset_label store
  reset_label-KeepsDecisions heap i j h = elim (Bool-cases (is_canceled (heap i).label)) [
    | inr p ↦ rw p refl
    | inl p ↦ elim (Bool-cases (j == i)) [
      | inr q ↦ rw (p, q) refl
      | inl q ↦
          let same : j ≡ i = ground arith in
          let canceled_too : is_canceled (heap j).label ≡ true =
            subst (λ k. is_canceled (heap k).label ≡ true) (sym same) p in
          ground (arith, canceled_too, h)
    ]
  ]

  then_later :
      (h h1 h2 : Heap W A)
      → KeepsDecisions h h1 × (IsLinked h → IsLinked h1)
      → KeepsDecisions h1 h2
      → (IsLinked h1 → IsLinked h2)
      → KeepsDecisions h h2 × (IsLinked h → IsLinked h2)
  then_later h h1 h2 (d, l) d' l' =
      (λ j p. d' j (subst (λ x. is_decided x ≡ true) (sym (d j p)) p) ∙ d j p, λ x. l' (l x))

module _ {ℓ} {W A : Type ℓ} ⦃o : Ord A⦄ where
  added :
      (heap next : Heap W A) (i : ℕ) (action : ℕ × A) (child : ℕ)
      → add_child heap i action child ≡ ok next
      → insert_parent (insert_child heap i action child) i action.0 child ≡ next
  unfolding add_child
  added heap next i action child e = elim (Bool-cases (has_key action (heap i).children)) [
    | inl p ↦ ground arith
    | inr p ↦
        let result : ◌≡◌ {A = Result TreeError (Heap W A)}
            (ok (insert_parent (insert_child heap i action child) i action.0 child)) (ok next) =
          ground arith in
        ok-injective result
  ]

  -- A field that neither the new entry nor the new parent changes.
  field-added {κ} :
      {X : Type κ} (f : Node W A → X) (heap next : Heap W A) (i : ℕ) (action : ℕ × A) (child : ℕ)
      → ((n : Node W A) (m : ℕ) (ps : List ℕ)
          → f (record n { min_total_region_increments = m; parents = ps }) ≡ f n)
      → ((n : Node W A) (cs : List ((ℕ × A) × ℕ)) → f (record n { children = cs }) ≡ f n)
      → add_child heap i action child ≡ ok next
      → (j : ℕ) → f (next j) ≡ f (heap j)
  unfolding insert_parent insert_child
  field-added f heap next i action child g h e j =
      let linked = insert_child heap i action child in
      subst (λ k. f (k j) ≡ f (heap j)) (added heap next i action child e)
        (field-store f linked child _ j (g (linked child) _ _)
          ∙ field-store f heap i _ j (h (heap i) _))

  insert_child_self :
      (heap : Heap W A) (i : ℕ) (action : ℕ × A) (child k : ℕ)
      → (k == i) ≡ true
      → (insert_child heap i action child k).children ≡ assign action child (heap i).children
  unfolding insert_child store
  insert_child_self heap i action child k p = rw p refl

  insert_child_other :
      (heap : Heap W A) (i : ℕ) (action : ℕ × A) (child k : ℕ)
      → (k == i) ≡ false
      → (insert_child heap i action child k).children ≡ (heap k).children
  unfolding insert_child store
  insert_child_other heap i action child k p = rw p refl

  insert_parent_new :
      (heap : Heap W A) (i step child : ℕ)
      → member i (insert_parent heap i step child child).parents ≡ true
  unfolding insert_parent store
  insert_parent_new heap i step child =
      let self : (child == child) ≡ true = ground arith in
      rw self (ground (arith, member-insert i i (heap child).parents, eqb_refl i))

  insert_parent_keeps :
      (heap : Heap W A) (i step child j k : ℕ)
      → member k (heap j).parents ≡ true
      → member k (insert_parent heap i step child j).parents ≡ true
  unfolding insert_parent store
  insert_parent_keeps heap i step child j k m = elim (Bool-cases (j == child)) [
    | inr p ↦ rw p m
    | inl p ↦
        let same : j ≡ child = ground arith in
        rw p (
          Subset-insert i (heap child).parents k
            (subst (λ x. member k (heap x).parents ≡ true) same m))
  ]

  add_child-IsLinked :
      (heap next : Heap W A) (i : ℕ) (action : ℕ × A) (child : ℕ)
      → add_child heap i action child ≡ ok next
      → IsLinked heap
      → IsLinked next
  unfolding insert_parent insert_child
  add_child-IsLinked heap next i action child e h =
      let linked = insert_child heap i action child in
      let final = insert_parent linked i action.0 child in
      subst IsLinked (added heap next i action child e) (λ k.
        let IsParent : (ℕ × A) × ℕ → Type 0 = λ x. member k (final x.1).parents ≡ true in
        let grow : (x : (ℕ × A) × ℕ) → member k (heap x.1).parents ≡ true → IsParent x = λ x m.
          insert_parent_keeps linked i action.0 child x.1 k (
            subst (λ ps. member k ps ≡ true) (sym (field-store (λ n. n.parents) heap i _ x.1 refl))
              m) in
        let old = All-imp grow (heap k).children (h k) in
        subst (All IsParent) (sym (field-store (λ n. n.children) linked child _ k refl))
          (elim (Bool-cases (k == i)) [
            | inr p ↦ rw (insert_child_other heap i action child k p) old
            | inl p ↦
                let same : k ≡ i = ground arith in
                let new : IsParent (action, child) =
                  subst (λ x. member x (final child).parents ≡ true) (sym same)
                    (insert_parent_new linked i action.0 child) in
                rw (insert_child_self heap i action child k p) (
                  All-assign IsParent action child (heap i).children new
                    (subst (λ x. All IsParent (heap x).children) same old))
          ]))

module _ {ℓ} {W A : Type ℓ} ⦃o : Ord A⦄ (controller environment : List A) where
  -- Operations on the nodes, one after another.
  pub data History : Heap W A → Heap W A → Type ℓ where
    start : (heap : Heap W A) → History heap heap
    then_label :
        {h h1 h2 : Heap W A}
        → History h h1
        → (fuel i : ℕ) (label : NodeLabel) (with_children : Bool)
        → set_label fuel h1 i label with_children ≡ ok h2
        → History h h2
    then_reset : {h h1 : Heap W A} → History h h1 → (i : ℕ) → History h (reset_label h1 i)
    then_propagate :
        {h h1 h2 : Heap W A}
        → History h h1
        → (fuel i : ℕ) → propagate fuel controller environment h1 i ≡ ok h2
        → History h h2
    then_add :
        {h h1 h2 : Heap W A}
        → History h h1
        → (i : ℕ) (action : ℕ × A) (child : ℕ) → add_child h1 i action child ≡ ok h2
        → History h h2

  -- Whatever the operations on the nodes do, a label TOP or BOTTOM never changes, and each node
  -- remains a parent of each of its children.
  pub History-KeepsDecisions :
      (heap next : Heap W A)
      → History heap next
      → KeepsDecisions heap next × (IsLinked heap → IsLinked next)
  History-KeepsDecisions heap _ (start _) = ((λ j h. refl), λ h. h)
  History-KeepsDecisions heap next (then_label {h1 = h1} r fuel i label with_children e) =
      let later = set_label-IsLater fuel h1 next i label with_children e in
      then_later heap h1 next (History-KeepsDecisions heap h1 r)
        (IsLater→KeepsDecisions h1 next later) (IsLater-IsLinked h1 next later)
  History-KeepsDecisions heap _ (then_reset {h1 = h1} r i) =
      then_later heap h1 (reset_label h1 i) (History-KeepsDecisions heap h1 r)
        (reset_label-KeepsDecisions h1 i) (reset_label-IsLinked h1 i)
  History-KeepsDecisions heap next (then_propagate {h1 = h1} r fuel i e) =
      let later = propagate-IsLater controller environment fuel h1 next i e in
      then_later heap h1 next (History-KeepsDecisions heap h1 r)
        (IsLater→KeepsDecisions h1 next later) (IsLater-IsLinked h1 next later)
  History-KeepsDecisions heap next (then_add {h1 = h1} r i action child e) =
      then_later heap h1 next (History-KeepsDecisions heap h1 r)
        (λ j h.
          field-added (λ n. n.label) h1 next i action child (λ n m ps. refl) (λ n cs. refl) e j)
        (add_child-IsLinked h1 next i action child e)
