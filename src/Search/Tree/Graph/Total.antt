-- ===== src/Search/Tree/Graph/Total.antt =====
-- src/search/include/search/search.h: `label_graph` ends, and what it keeps.
use scico_d.Prelude.{
  ℕ, ◌<◌, true, false, List, [], ◌∷◌, ◌≡◌, ◌⊎◌, refl, sym, subst, ◌∙◌, ap, inl, inr, arith, Ord,
  nat_ord, ◌==◌, member, Subset, All, Bool-cases, if◌then◌else◌, Result, ok, err,
}
use scico_d.Search.Labels.{
  NodeLabel, top, bottom, is_top, is_unlabeled, LabelReason, Child, Steps, no_steps, graph_decision,
  graph_children, label_graph_decision,
}
use scico_d.Search.Tree.{
  Node, NodeState, Heap, TreeError, label_already_set, good_state, bad_state, dead_state,
  unknown_state, store, set_label,
}
use scico_d.Search.Tree.Later.{
  IsLater, IsLater-refl, IsLater-trans, store-IsLater, set_label-IsLater,
}
use scico_d.Search.Tree.Cancel.{IsClosed, IsLater-IsClosed}
use scico_d.Search.Tree.Ancestors.Reached.{unseen_count, unseen_count-Subset}
use scico_d.Search.Tree.Graph.{set_decision, visit_children}

-- TOP or BOTTOM.
abbrev pub IsDecision : NodeLabel → Type 0
IsDecision l = (l ≡ top) ⊎ (l ≡ bottom)

pub state_cases :
    (s : NodeState)
    → (s ≡ unknown_state) ⊎ ((s ≡ good_state) ⊎ ((s ≡ dead_state) ⊎ (s ≡ bad_state)))
state_cases unknown_state = inl refl
state_cases good_state = inr (inl refl)
state_cases dead_state = inr (inr (inl refl))
state_cases bad_state = inr (inr (inr refl))

by_top : (l : NodeLabel) → l ≡ (if is_top l then top else bottom) → IsDecision l
by_top top e = inl refl
by_top _ e = inr e

graph_decision_either :
    (s : Steps) → (graph_decision s).0 ≡ (if is_top (graph_decision s).0 then top else bottom)
graph_decision_either s = ground arith

pub label_graph_decision-IsDecision {ℓ} :
    {A : Type ℓ} ⦃o : Ord A⦄ (controller : List A) (children : List (Child A))
    → IsDecision (label_graph_decision controller children).0
unfolding label_graph_decision
label_graph_decision-IsDecision controller children =
    by_top _ (graph_decision_either (graph_children controller children no_steps))

module _ {ℓ} {W A : Type ℓ} where
  pub stored_node : (heap : Heap W A) (i : ℕ) (node : Node W A) → store heap i node i ≡ node
  unfolding store
  stored_node heap i node = let self : (i == i) ≡ true = ground arith in rw self refl

  -- The other nodes are the same.
  abbrev pub IsSameBut : ℕ → Heap W A → Heap W A → Type ℓ
  IsSameBut i heap next = (x : ℕ) → (x == i) ≡ false → next x ≡ heap x

  pub store-IsSameBut :
      (heap : Heap W A) (i : ℕ) (node : Node W A) → IsSameBut i heap (store heap i node)
  unfolding store
  store-IsSameBut heap i node x e = rw e refl

  pub set_decision-IsLater :
      (heap next : Heap W A) (i : ℕ) (d : NodeLabel × LabelReason)
      → set_decision heap i d ≡ ok next
      → IsLater heap next
  unfolding set_decision
  set_decision-IsLater heap next i d e =
      let explained = store heap i (record (heap i) { label_reason = d.1 }) in
      IsLater-trans heap explained next
        (store-IsLater heap i (record (heap i) { label_reason = d.1 })
          (record { same_children = refl; same_parents = refl; same_label_if = inl refl }))
        (set_label-IsLater 1 explained next i d.0 false e)

  -- A label TOP or BOTTOM is set on a node with no label or TOP, but for BOTTOM on TOP.
  pub set_decision_cases :
      (heap : Heap W A) (i : ℕ) (d : NodeLabel × LabelReason)
      → IsDecision d.0
      → (is_unlabeled (heap i).label ≡ true) ⊎ ((heap i).label ≡ top)
      → ((next : Heap W A) × (set_decision heap i d ≡ ok next)
          × ((next i).label ≡ d.0)
          × IsSameBut i heap next)
        ⊎ ((set_decision heap i d ≡ err label_already_set)
            × ((heap i).label ≡ top)
            × (d.0 ≡ bottom))
  unfolding set_decision set_label
  set_decision_cases heap i d decision (inl u) =
      let node = record (heap i) { label_reason = d.1 } in
      let explained = store heap i node in
      let still : is_unlabeled (explained i).label ≡ true =
        subst (λ n. is_unlabeled n.label ≡ true) (sym (stored_node heap i node)) u in
      let labeled = record (explained i) { label = d.0 } in
      inl (
        store explained i labeled,
        rw still refl,
        ap (λ n. n.label) (stored_node explained i labeled),
        λ x e. store-IsSameBut explained i labeled x e ∙ store-IsSameBut heap i node x e,
      )
  set_decision_cases heap i d (inl t) (inr s) =
      let node = record (heap i) { label_reason = d.1 } in
      let explained = store heap i node in
      let still : (explained i).label ≡ top = ap (λ n. n.label) (stored_node heap i node) ∙ s in
      inl (explained, rw (still, t) refl, still ∙ sym t, store-IsSameBut heap i node)
  set_decision_cases heap i d (inr b) (inr s) =
      let node = record (heap i) { label_reason = d.1 } in
      let explained = store heap i node in
      let still : (explained i).label ≡ top = ap (λ n. n.label) (stored_node heap i node) ∙ s in
      inr (rw (still, b) refl, s, b)

  -- The visited nodes keep their labels or get TOP, as the ends of loops.
  abbrev pub KeepsVisited : List ℕ → Heap W A → Heap W A → Type 0
  KeepsVisited visited heap next =
      (x : ℕ) → member x visited ≡ true → ((next x).label ≡ (heap x).label) ⊎ ((next x).label ≡ top)

  pub KeepsVisited-trans :
      (v w : List ℕ) (h1 h2 h3 : Heap W A)
      → Subset v w
      → KeepsVisited v h1 h2
      → KeepsVisited w h2 h3
      → KeepsVisited v h1 h3
  KeepsVisited-trans v w h1 h2 h3 sub p q x m = elim (q x (sub x m)) [
    | inr t ↦ inr t
    | inl e ↦ elim (p x m) [ inl e' ↦ inl (e ∙ e') | inr t ↦ inr (e ∙ t) ]
  ]

  pub same-KeepsVisited :
      (visited : List ℕ) (i : ℕ) (heap next : Heap W A)
      → member i visited ≡ false
      → IsSameBut i heap next
      → KeepsVisited visited heap next
  same-KeepsVisited visited i heap next n f x m = elim (Bool-cases (x == i)) [
    | inl e ↦
        let same : x ≡ i = ground arith in
        absurd (subst (λ y. member y visited ≡ true → ⊥) (sym same) (λ k. cc) m)
    | inr e ↦ inl (ap (λ n. n.label) (f x e))
  ]

  -- The run ends on a later heap with `P`, or with the exception of `set_label`.
  abbrev pub Ends :
      (Heap W A → Type 0) → Heap W A → List ℕ → Result TreeError (Heap W A × List ℕ) → Type ℓ
  Ends P heap visited r =
      ((x : Heap W A × List ℕ) × (r ≡ ok x)
        × IsLater heap x.0
        × Subset visited x.1
        × KeepsVisited visited heap x.0
        × P x.0)
      ⊎ (r ≡ err label_already_set)

  pub visit_children_total :
      (ids : List ℕ) (fuel : ℕ)
      (visit : Heap W A → List ℕ → ℕ → Result TreeError (Heap W A × List ℕ))
      → ((h : Heap W A) (v : List ℕ) (c : ℕ)
          → IsClosed ids h
          → member c ids ≡ true
          → unseen_count ids v < fuel
          → Ends (λ g. is_unlabeled (g c).label ≡ false) h v (visit h v c))
      → (heap : Heap W A) (visited : List ℕ) (i : ℕ) (children : List ((ℕ × A) × ℕ))
      → IsClosed ids heap
      → All (λ x. member x.1 ids ≡ true) children
      → unseen_count ids visited < fuel
      → Ends (λ g. Unit) heap visited (visit_children visit heap visited i children)
  unfolding visit_children
  visit_children_total ids fuel visit f heap visited i [] closed ms count =
      inl ((heap, visited), refl, IsLater-refl heap, (λ a m. m), (λ x m. inl refl), tt)
  visit_children_total ids fuel visit f heap visited i ((action, child) ∷ cs) closed (m, ms) count =
      elim (Bool-cases (child == i)) [
        | inl p ↦ rw p (visit_children_total ids fuel visit f heap visited i cs closed ms count)
        | inr p ↦ elim (f heap visited child closed m count) [
          | inr e ↦ inr (rw (p, e) refl)
          | inl (x, e, later, sub, keeps, l) ↦
              elim (visit_children_total ids fuel visit f x.0 x.1 i cs
                (IsLater-IsClosed ids heap x.0 later closed) ms
                (ground (arith, unseen_count-Subset ids visited x.1 sub))) [
                  | inr e' ↦ inr (rw (p, e) e')
                  | inl (y, e', later', sub', keeps', l') ↦ inl (
                    y,
                    rw (p, e) e',
                    IsLater-trans heap x.0 y.0 later later',
                    (λ a k. sub' a (sub a k)),
                    KeepsVisited-trans visited x.1 heap x.0 y.0 sub keeps keeps',
                    tt,
                  )
                ]
        ]
      ]
