-- ===== src/Search/Labels.antt =====
-- src/search/include/search/search_tree.h and search.h: how `label_propagate` and `label_graph`
-- decide on the label of an expanded node from the labels of its children. `A` is the type of
-- actions.
pub mod Agreement
pub mod Strategy
use scico_d.Prelude.{
  ℕ, ◌-◌, ◌^◌, Bool, true, false, not, ◌&&◌, List, [], ◌∷◌, Option, none, some, Ord, member, min,
  ltb, ◌==◌, if◌then◌else◌,
}

pub data NodeLabel : Type 0 where
  unlabeled bottom top canceled : NodeLabel

pub data LabelReason : Type 0 where
  unknown good_node bad_node dead_node no_ata_successor monotonic_domination no_bad_env_action
        good_controller_action_first bad_env_action_first all_controller_actions_bad :
      LabelReason

abbrev pub is_top : NodeLabel → Bool
is_top top = true
is_top _ = false

abbrev pub is_bottom : NodeLabel → Bool
is_bottom bottom = true
is_bottom _ = false

abbrev pub is_unlabeled : NodeLabel → Bool
is_unlabeled unlabeled = true
is_unlabeled _ = false

-- An entry of `children`: the timed action, the label of the child, and whether the child is the
-- node itself.
pub record Child {ℓ} (A : Type ℓ) : Type ℓ where
  pub step : ℕ
  pub action : A
  pub label : NodeLabel
  pub is_self : Bool

-- `std::numeric_limits<RegionIndex>::max()`
abbrev pub max_step : ℕ
max_step = 2 ^ 32 - 1

-- The local variables of the loops; `label_graph` has the first, the fourth and the last.
pub record Steps : Type 0 where
  pub first_good_controller_step : ℕ
  pub first_non_bad_controller_step : ℕ
  pub first_non_good_environment_step : ℕ
  pub first_bad_environment_step : ℕ
  pub has_environment_step : Bool

abbrev pub no_steps : Steps
no_steps = record {
  first_good_controller_step = max_step;
  first_non_bad_controller_step = max_step;
  first_non_good_environment_step = max_step;
  first_bad_environment_step = max_step;
  has_environment_step = false;
}

module _ {ℓ} {A : Type ℓ} ⦃o : Ord A⦄ where
  -- One round of the loop of `label_propagate`.
  abbrev pub propagate_child : (controller environment : List A) → Child A → Steps → Steps
  propagate_child controller environment c s =
      if member c.action controller
      then record s {
        first_good_controller_step =
            if is_top c.label
            then min s.first_good_controller_step c.step
            else if c.is_self
            then min s.first_good_controller_step c.step
            else s.first_good_controller_step;
        first_non_bad_controller_step =
            if is_top c.label
            then s.first_non_bad_controller_step
            else if c.is_self
            then s.first_non_bad_controller_step
            else if is_unlabeled c.label
            then min s.first_non_bad_controller_step c.step
            else s.first_non_bad_controller_step;
      }
      else if member c.action environment
      then record s {
        has_environment_step = true;
        first_bad_environment_step =
            if is_bottom c.label
            then min s.first_bad_environment_step c.step
            else s.first_bad_environment_step;
        first_non_good_environment_step =
            if is_bottom c.label
            then s.first_non_good_environment_step
            else if not c.is_self && is_unlabeled c.label
            then min s.first_non_good_environment_step c.step
            else s.first_non_good_environment_step;
      }
      else s

  unfoldable pub propagate_children :
      (controller environment : List A) → List (Child A) → Steps → Steps
  propagate_children controller environment [] s = s
  propagate_children controller environment (c ∷ cs) s =
      propagate_children controller environment cs (propagate_child controller environment c s)

  -- One round of the loop of `label_graph`.
  abbrev pub graph_child : (controller : List A) → Child A → Steps → Steps
  graph_child controller c s =
      if member c.action controller
      then record s {
        first_good_controller_step =
            if is_top c.label
            then min s.first_good_controller_step c.step
            else s.first_good_controller_step;
      }
      else record s {
        has_environment_step = true;
        first_bad_environment_step =
            if is_top c.label
            then s.first_bad_environment_step
            else min s.first_bad_environment_step c.step;
      }

  unfoldable pub graph_children : (controller : List A) → List (Child A) → Steps → Steps
  graph_children controller [] s = s
  graph_children controller (c ∷ cs) s = graph_children controller cs (graph_child controller c s)

-- The label and its reason that `label_propagate` sets, if any.
abbrev pub propagate_decision : Steps → Option (NodeLabel × LabelReason)
propagate_decision s =
    let bad = min s.first_bad_environment_step s.first_non_good_environment_step in
    if ltb s.first_good_controller_step bad
    then some (top, good_controller_action_first)
    else if s.has_environment_step && (bad == max_step)
    then some (top, no_bad_env_action)
    else if (not s.has_environment_step && (s.first_good_controller_step == max_step))
        && (s.first_non_bad_controller_step == max_step)
    then some (bottom, all_controller_actions_bad)
    else if s.has_environment_step
        && ltb s.first_bad_environment_step
            (min s.first_good_controller_step s.first_non_bad_controller_step)
    then some (bottom, bad_env_action_first)
    else none

abbrev pub graph_decision : Steps → NodeLabel × LabelReason
graph_decision s =
    if ltb s.first_good_controller_step s.first_bad_environment_step
    then (top, good_controller_action_first)
    else if s.has_environment_step && (s.first_bad_environment_step == max_step)
    then (top, no_bad_env_action)
    else if not s.has_environment_step
    then (bottom, all_controller_actions_bad)
    else (bottom, bad_env_action_first)

module _ {ℓ} {A : Type ℓ} ⦃o : Ord A⦄ where
  -- `label_propagate` where the node is expanded, has no label and has children: from the loop over
  -- the children to the decision on the new label.
  unfoldable pub label_propagate_decision :
      (controller environment : List A) → List (Child A) → Option (NodeLabel × LabelReason)
  unfolding propagate_children
  label_propagate_decision controller environment children =
      propagate_decision (propagate_children controller environment children no_steps)

  -- `label_graph` where the state of the node is not known: from the second loop over the children,
  -- after the calls on them, to the decision on the label.
  unfoldable pub label_graph_decision :
      (controller : List A) → List (Child A) → NodeLabel × LabelReason
  unfolding graph_children
  label_graph_decision controller children =
      graph_decision (graph_children controller children no_steps)
