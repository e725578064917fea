-- ===== src/Search/Labels/Agreement.antt =====
-- src/search/include/search/search_tree.h and search.h: the decisions of `label_propagate` and
-- `label_graph` on the same children.
use scico_d.Prelude.{
  ◌≤◌, Bool, true, false, not, ◌&&◌, ◌||◌, List, [], ◌∷◌, none, some, Ord, member, ltb, ◌==◌,
  if◌then◌else◌, ◌≡◌, refl, arith, all_of, Bool-cases, inl, inr,
}
use scico_d.Search.Labels.{
  NodeLabel, unlabeled, bottom, top, canceled, Child, Steps, no_steps, max_step, is_top, is_bottom,
  is_unlabeled, propagate_child, propagate_children, graph_child, graph_children,
  propagate_decision, graph_decision, label_propagate_decision, label_graph_decision,
}

labelled :
    (l : NodeLabel)
    → (is_top l || is_bottom l) ≡ true
    → (is_bottom l ≡ not (is_top l)) × (is_unlabeled l ≡ false)
labelled top h = (refl, refl)
labelled bottom h = (refl, refl)
labelled unlabeled h = cc
labelled canceled h = cc

-- Where all children are settled, the two loops keep the same steps.
record Related (p g : Steps) : Type 0 where
  same_good : p.first_good_controller_step ≡ g.first_good_controller_step
  same_bad : p.first_bad_environment_step ≡ g.first_bad_environment_step
  same_environment : p.has_environment_step ≡ g.has_environment_step
  no_non_bad : p.first_non_bad_controller_step ≡ max_step
  no_non_good : p.first_non_good_environment_step ≡ max_step
  good_bounded : g.first_good_controller_step ≤ max_step
  bad_bounded : g.first_bad_environment_step ≤ max_step
  no_environment : g.has_environment_step ≡ false → g.first_bad_environment_step ≡ max_step

module _ {ℓ} {A : Type ℓ} ⦃o : Ord A⦄ (controller environment : List A) where
  -- The child has a label other than CANCELED, is not the node itself, and its action is one of
  -- the controller or of the environment.
  abbrev pub is_settled : Child A → Bool
  is_settled c =
      (member c.action controller || member c.action environment)
      && ((is_top c.label || is_bottom c.label) && not c.is_self)

  settled_label : (c : Child A) → is_settled c ≡ true → (is_top c.label || is_bottom c.label) ≡ true
  settled_label c h = ground arith

  settled_self : (c : Child A) → is_settled c ≡ true → c.is_self ≡ false
  settled_self c h = ground arith

  settled_action :
      (c : Child A)
      → is_settled c ≡ true
      → member c.action controller ≡ false
      → member c.action environment ≡ true
  settled_action c h m = ground arith

  child-Related :
      (c : Child A) (p g : Steps)
      → is_settled c ≡ true
      → Related p g
      → Related (propagate_child controller environment c p) (graph_child controller c g)
  child-Related c p g h r =
      let (b, u) = labelled c.label (settled_label c h) in
      let s = settled_self c h in
      elim (Bool-cases (member c.action controller)) [
        | inl m ↦
            rw (m, u, s)
              (record {
                same_good = ground (arith, r.same_good);
                same_bad = r.same_bad;
                same_environment = r.same_environment;
                no_non_bad = ground (arith, r.no_non_bad);
                no_non_good = r.no_non_good;
                good_bounded = ground (arith, r.good_bounded);
                bad_bounded = r.bad_bounded;
                no_environment = r.no_environment;
              })
        | inr m ↦
            rw (m, settled_action c h m, b, u, s)
              (record {
                same_good = r.same_good;
                same_bad = ground (arith, r.same_bad);
                same_environment = refl;
                no_non_bad = r.no_non_bad;
                no_non_good = ground (arith, r.no_non_good);
                good_bounded = r.good_bounded;
                bad_bounded = ground (arith, r.bad_bounded);
                no_environment = λ e. cc;
              })
      ]

  children-Related :
      (cs : List (Child A)) (p g : Steps)
      → all_of is_settled cs ≡ true
      → Related p g
      → Related (propagate_children controller environment cs p) (graph_children controller cs g)
  unfolding propagate_children graph_children
  children-Related [] p g h r = r
  children-Related (c ∷ cs) p g h r =
      children-Related cs (propagate_child controller environment c p) (graph_child controller c g)
        (ground arith) (child-Related c p g (ground arith) r)

-- A good controller action and a bad environment action come first at the same step.
abbrev pub is_tied : Steps → Bool
is_tied s =
    (s.first_good_controller_step == s.first_bad_environment_step)
    && ltb s.first_bad_environment_step max_step

decisions_agree :
    (p g : Steps)
    → Related p g
    → propagate_decision p ≡ (if is_tied g then none else some (graph_decision g))
decisions_agree p g r =
    rw (r.same_good, r.same_bad, r.same_environment, r.no_non_bad, r.no_non_good)
      (ground (arith, r.good_bounded, r.bad_bounded, r.no_environment))

-- If all children are labelled TOP or BOTTOM and differ from the node, and their actions are those
-- of the controller and the environment, `label_propagate` decides on the label and the reason that
-- `label_graph` decides on, unless the first good controller action and the first bad environment
-- action are at the same step: then it decides on none.
pub label_propagate_decision-label_graph_decision {ℓ} :
    {A : Type ℓ} ⦃o : Ord A⦄ (controller environment : List A) (children : List (Child A))
    → all_of (is_settled controller environment) children ≡ true
    → label_propagate_decision controller environment children ≡ (
        if is_tied (graph_children controller children no_steps)
        then none
        else some (label_graph_decision controller children))
unfolding label_propagate_decision label_graph_decision
label_propagate_decision-label_graph_decision controller environment children h =
    decisions_agree _ _ (
      children-Related controller environment children no_steps no_steps h (record {
        same_good = refl;
        same_bad = refl;
        same_environment = refl;
        no_non_bad = refl;
        no_non_good = refl;
        good_bounded = omega arith;
        bad_bounded = omega arith;
        no_environment = λ e. refl;
      }))
