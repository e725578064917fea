-- ===== src/Search/Labels/Strategy.antt =====
-- src/search/include/search/search.h: `label_graph` decides for TOP if the controller has a strategy.
use scico_d.Prelude.{
  ℕ, Bool, true, false, not, ◌&&◌, ◌||◌, List, [], ◌∷◌, Ord, member, ltb, ◌==◌, ◌≡◌, refl, arith,
  all_of, any_of, ap, ap₂, ◌∙◌,
}
use scico_d.Search.Labels.{
  Child, Steps, no_steps, max_step, is_top, graph_child, graph_children, graph_decision,
  label_graph_decision,
}

module _ {ℓ} {A : Type ℓ} ⦃o : Ord A⦄ (controller : List A) where
  abbrev pub is_good : Child A → Bool
  is_good c = member c.action controller && is_top c.label

  abbrev pub is_environment : Child A → Bool
  is_environment c = not (member c.action controller)

  abbrev pub is_bad : Child A → Bool
  is_bad c = is_environment c && not (is_top c.label)

  -- Either some good action of the controller comes before all bad actions of the environment, or
  -- the environment has an action and none of its actions is bad.
  unfoldable pub has_strategy : List (Child A) → Bool
  has_strategy cs =
      any_of (λ c. is_good c && all_of (λ d. not (is_bad d) || ltb c.step d.step) cs) cs
      || (any_of is_environment cs && not (any_of is_bad cs))

  good_below :
      (b : ℕ) (cs : List (Child A)) (s : Steps)
      → ltb (graph_children controller cs s).first_good_controller_step b
        ≡ (ltb s.first_good_controller_step b || any_of (λ c. is_good c && ltb c.step b) cs)
  unfolding graph_children
  good_below b [] s = ground arith
  good_below b (c ∷ cs) s = good_below b cs (graph_child controller c s) ∙ ground arith

  bad_below :
      (b : ℕ) (cs : List (Child A)) (s : Steps)
      → ltb (graph_children controller cs s).first_bad_environment_step b
        ≡ (ltb s.first_bad_environment_step b || any_of (λ c. is_bad c && ltb c.step b) cs)
  unfolding graph_children
  bad_below b [] s = ground arith
  bad_below b (c ∷ cs) s = bad_below b cs (graph_child controller c s) ∙ ground arith

  bad_above :
      (k : ℕ) (cs : List (Child A)) (s : Steps)
      → ltb k (graph_children controller cs s).first_bad_environment_step
        ≡ (ltb k s.first_bad_environment_step && all_of (λ d. not (is_bad d) || ltb k d.step) cs)
  unfolding graph_children
  bad_above k [] s = ground arith
  bad_above k (c ∷ cs) s = bad_above k cs (graph_child controller c s) ∙ ground arith

  has_environment :
      (cs : List (Child A)) (s : Steps)
      → (graph_children controller cs s).has_environment_step
        ≡ (s.has_environment_step || any_of is_environment cs)
  unfolding graph_children
  has_environment [] s = ground arith
  has_environment (c ∷ cs) s = has_environment cs (graph_child controller c s) ∙ ground arith

any_of_cong {ℓ} :
    {A : Type ℓ} (p q : A → Bool) (bound : A → Bool)
    → ((a : A) → bound a ≡ true → p a ≡ q a)
    → (xs : List A) → all_of bound xs ≡ true
    → any_of p xs ≡ any_of q xs
any_of_cong p q bound h [] k = refl
any_of_cong p q bound h (x ∷ xs) k =
    ap₂ ◌||◌ (h x (ground arith)) (any_of_cong p q bound h xs (ground arith))

is_top-graph_decision :
    (s : Steps)
    → is_top (graph_decision s).0 ≡ (
        ltb s.first_good_controller_step s.first_bad_environment_step
        || (s.has_environment_step && (s.first_bad_environment_step == max_step)))
is_top-graph_decision s = ground arith

module _ {ℓ} {A : Type ℓ} ⦃o : Ord A⦄ (controller : List A) (cs : List (Child A))
    (bounded : all_of (λ c. ltb c.step max_step) cs ≡ true) where
  max_not_below :
      ltb max_step (graph_children controller cs no_steps).first_bad_environment_step ≡ false
  max_not_below = bad_above controller max_step cs no_steps ∙ ground arith

  good_first :
      ltb
        (graph_children controller cs no_steps).first_good_controller_step
        (graph_children controller cs no_steps).first_bad_environment_step
      ≡ any_of
          (λ c.
            is_good controller c && all_of (λ d. not (is_bad controller d) || ltb c.step d.step) cs)
          cs
  good_first =
      let bad = (graph_children controller cs no_steps).first_bad_environment_step in
      good_below controller bad cs no_steps
      ∙ (ap (λ b. b || any_of (λ c. is_good controller c && ltb c.step bad) cs) max_not_below
          ∙ any_of_cong (λ c. is_good controller c && ltb c.step bad)
              (λ c.
                is_good controller c
                && all_of (λ d. not (is_bad controller d) || ltb c.step d.step) cs)
              (λ c. ltb c.step max_step)
              (λ c h.
                ap (λ b. is_good controller c && b)
                  (bad_above controller c.step cs no_steps ∙ rw h refl))
              cs bounded)

  none_bad :
      ((graph_children controller cs no_steps).first_bad_environment_step == max_step)
      ≡ not (any_of (is_bad controller) cs)
  none_bad =
      let below =
        bad_below controller max_step cs no_steps
        ∙ any_of_cong (λ c. is_bad controller c && ltb c.step max_step) (is_bad controller)
            (λ c. ltb c.step max_step) (λ c h. ground arith) cs bounded in
      ground (arith, below, max_not_below)

-- If all steps are below the largest number, `label_graph` decides for TOP exactly if some good
-- action of the controller comes before all bad actions of the environment, or the environment has
-- an action and none of its actions is bad.
pub label_graph_decision-has_strategy {ℓ} :
    {A : Type ℓ} ⦃o : Ord A⦄ (controller : List A) (children : List (Child A))
    → all_of (λ c. ltb c.step max_step) children ≡ true
    → is_top (label_graph_decision controller children).0 ≡ has_strategy controller children
unfolding label_graph_decision has_strategy
label_graph_decision-has_strategy controller children h =
    is_top-graph_decision (graph_children controller children no_steps)
    ∙ ap₂ ◌||◌ (good_first controller children h)
        (ap₂ ◌&&◌ (has_environment controller children no_steps) (none_bad controller children h))
