-- ===== src/Examples/GraphLabels.antt =====
-- Search nodes at numbers as addresses, with action 0 of the controller and action 1 of the
-- environment.
use scico_d.Prelude.{
  ℕ, true, false, ◌≡◌, ◌⊎◌, refl, List, [], ◌∷◌, nat_ord, ◌==◌, if◌then◌else◌, Result, ok, err,
  after, arith, Bool-cases, inl, inr,
}
use scico_d.Search.Labels.{NodeLabel, unlabeled, top, bottom, unknown, no_steps, graph_children}
use scico_d.Search.Labels.Strategy.{has_strategy}
use scico_d.Search.Labels.Agreement.{is_tied}
use scico_d.Search.Tree.{
  Node, NodeState, Heap, TreeError, label_already_set, unknown_state, good_state, bad_state,
  label_node, read_children,
}
use scico_d.Search.Tree.Cancel.{IsClosed}
use scico_d.Search.Tree.Ancestors.Reached.{unseen_count}
use scico_d.Search.Tree.Graph.{visit_children, label_graph}
use scico_d.Search.Tree.Graph.Strategy.{label_graph-has_strategy}
use scico_d.Search.Tree.Graph.Agreement.{label_node-label_graph}

abbrev node : NodeState → NodeLabel → List ℕ → List ((ℕ × ℕ) × ℕ) → Node ℕ ℕ
node state label parents children = record {
  words = [];
  state = state;
  label = label;
  parents = parents;
  is_expanded = true;
  is_expanding = false;
  label_reason = unknown;
  min_total_region_increments = 0;
  children = children;
}

-- At node 0 the controller acts at step 1 and reaches node 1, before the environment at step 2.
abbrev choices : List ((ℕ × ℕ) × ℕ)
choices = ((1, 0), 1) ∷ ((2, 1), 2) ∷ []

-- Nodes 1 and 2 have labels.
abbrev labelled : Heap ℕ ℕ
labelled j =
    if j == 0
    then node unknown_state unlabeled [] choices
    else node unknown_state (if j == 1 then top else bottom) (0 ∷ []) []

label_node-label_graph_example : label_node (0 ∷ []) (1 ∷ []) labelled 0 ≡ (
    if is_tied (graph_children (0 ∷ []) (read_children labelled 0) no_steps)
    then ok (labelled, false)
    else after (label_graph 2 (0 ∷ []) labelled [] 0) (λ x. ok (x.0, true)))
label_node-label_graph_example =
    label_node-label_graph (0 ∷ []) (1 ∷ []) 0 labelled [] 0 refl refl refl refl refl refl refl

-- Nodes 1 and 2 have no labels, but states: good, and bad.
abbrev decided : Heap ℕ ℕ
decided j =
    if j == 0
    then node unknown_state unlabeled [] choices
    else node (if j == 1 then good_state else bad_state) unlabeled (0 ∷ []) []

abbrev ids : List ℕ
ids = 0 ∷ 1 ∷ 2 ∷ []

decided-IsClosed : IsClosed ids decided
decided-IsClosed j m = elim (Bool-cases (j == 0)) [
  | inl e ↦ rw e (refl, (refl, tt))
  | inr e ↦ rw e tt
]

abbrev visit : Heap ℕ ℕ → List ℕ → ℕ → Result TreeError (Heap ℕ ℕ × List ℕ)
visit h v c = label_graph 3 (0 ∷ []) h v c

label_graph-has_strategy_example :
    ((x : Heap ℕ ℕ × List ℕ) × (visit_children visit decided (0 ∷ []) 0 choices ≡ ok x)
      × (((next : Heap ℕ ℕ) × (label_graph 4 (0 ∷ []) decided [] 0 ≡ ok (next, x.1))
            × ((next 0).label
                ≡ (if has_strategy (0 ∷ []) (read_children x.0 0) then top else bottom)))
          ⊎ ((label_graph 4 (0 ∷ []) decided [] 0 ≡ err label_already_set)
              × ((x.0 0).label ≡ top)
              × (has_strategy (0 ∷ []) (read_children x.0 0) ≡ false))))
    ⊎ ((visit_children visit decided (0 ∷ []) 0 choices ≡ err label_already_set)
        × (label_graph 4 (0 ∷ []) decided [] 0 ≡ err label_already_set))
unfolding unseen_count
label_graph-has_strategy_example =
    label_graph-has_strategy (0 ∷ []) 3 ids decided [] 0 decided-IsClosed refl (ground arith) refl
      refl refl refl

abbrev label_of : Result TreeError (Heap ℕ ℕ × List ℕ) → ℕ → NodeLabel
label_of r i = elim r [ ok x ↦ (x.0 i).label | err e ↦ unlabeled ]

controller_wins : label_of (label_graph 4 (0 ∷ []) decided [] 0) 0 ≡ top
unfolding label_graph
controller_wins = refl

-- The environment leads from node 0 to node 1 and back, and from node 0 to node 2, which is bad.
-- The loop labels node 0 TOP, and then the label BOTTOM cannot be set.
abbrev loop : Heap ℕ ℕ
loop j =
    if j == 0
    then node unknown_state unlabeled (1 ∷ []) (((1, 1), 1) ∷ ((2, 1), 2) ∷ [])
    else if j == 1
    then node unknown_state unlabeled (0 ∷ []) (((1, 1), 0) ∷ [])
    else node bad_state unlabeled (0 ∷ []) []

loop_refused : label_graph 5 (0 ∷ []) loop [] 0 ≡ err label_already_set
unfolding label_graph
loop_refused = refl
