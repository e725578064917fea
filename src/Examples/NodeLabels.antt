-- ===== src/Examples/NodeLabels.antt =====
-- Children of a node, with action 0 of the controller and action 1 of the environment.
use scico_d.Prelude.{ℕ, ◌≡◌, refl, true, false, List, [], ◌∷◌, none, some, if◌then◌else◌, nat_ord}
use scico_d.Search.Labels.{
  is_top, NodeLabel, top, bottom, unlabeled, Child, no_steps, graph_children,
  label_propagate_decision, label_graph_decision, good_controller_action_first,
  all_controller_actions_bad, bad_env_action_first,
}
use scico_d.Search.Labels.Strategy.{has_strategy, label_graph_decision-has_strategy}
use scico_d.Search.Labels.Agreement.{is_tied, label_propagate_decision-label_graph_decision}

abbrev child : ℕ → ℕ → NodeLabel → Child ℕ
child step action label = record { step = step; action = action; label = label; is_self = false }

-- The controller acts at step 1, before the bad action of the environment at step 2.
abbrev controller_first : List (Child ℕ)
controller_first = child 1 0 top ∷ child 2 1 bottom ∷ []

label_propagate_decision-label_graph_decision_at_values :
    label_propagate_decision (0 ∷ []) (1 ∷ []) controller_first ≡ (
      if is_tied (graph_children (0 ∷ []) controller_first no_steps)
      then none
      else some (label_graph_decision (0 ∷ []) controller_first))
label_propagate_decision-label_graph_decision_at_values =
    label_propagate_decision-label_graph_decision (0 ∷ []) (1 ∷ []) controller_first refl

first_wins :
    label_propagate_decision (0 ∷ []) (1 ∷ []) controller_first
    ≡ some (top, good_controller_action_first)
unfolding label_propagate_decision
first_wins = refl

-- Both act at step 1.
abbrev same_step : List (Child ℕ)
same_step = child 1 0 top ∷ child 1 1 bottom ∷ []

same_step_propagated : label_propagate_decision (0 ∷ []) (1 ∷ []) same_step ≡ none
unfolding label_propagate_decision
same_step_propagated = refl

same_step_labelled : label_graph_decision (0 ∷ []) same_step ≡ (bottom, bad_env_action_first)
unfolding label_graph_decision
same_step_labelled = refl

-- The only action of the controller leads back to the node.
abbrev self_loop : List (Child ℕ)
self_loop = record { step = 1; action = 0; label = unlabeled; is_self = true } ∷ []

self_loop_propagated :
    label_propagate_decision (0 ∷ []) (1 ∷ []) self_loop ≡ some (top, good_controller_action_first)
unfolding label_propagate_decision
self_loop_propagated = refl

self_loop_labelled : label_graph_decision (0 ∷ []) self_loop ≡ (bottom, all_controller_actions_bad)
unfolding label_graph_decision
self_loop_labelled = refl

label_graph_decision-has_strategy_at_values :
    is_top (label_graph_decision (0 ∷ []) controller_first).0
    ≡ has_strategy (0 ∷ []) controller_first
label_graph_decision-has_strategy_at_values =
    label_graph_decision-has_strategy (0 ∷ []) controller_first refl
