-- ===== src/Automata/Ata/Steps.antt =====
-- src/automata/include/automata/ata.hpp: the configurations after a symbol are exactly what a set of
-- states that satisfies the transition formulas must include.
use scico_d.Prelude.{
  Bool, true, false, ◌&&◌, ◌||◌, List, [], ◌∷◌, Option, none, some, Ord, ◌≡◌, refl, arith, ap₂, sym,
  ◌∙◌, Option-cases, inl, inr, insert, insert_all, includes, member, any_of, all_of, list_ord, All,
  All-insert, All-insert_all, IsAscending, insert_all-IsAscending, includes-insert_all,
  includes-singleton, any_of-insert, includes-nil, is_empty_list, if◌then◌else◌,
}
use scico_d.Automata.ClockConstraint.{TimeDomain}
use scico_d.Automata.AtaFormula.{state_ord, States, is_satisfied_by}
use scico_d.Automata.AtaFormula.Models.{
  covers, AreSets, get_minimal_models-AreSets, is_satisfied_by-get_minimal_models,
}
use scico_d.Automata.Ata.{
  Ata, Configurations, find_transition, expand_by_model, expand_by_models, expand_configurations,
  models_of_states, models_of, is_stuck, sink_configurations, combine_models, make_symbol_step,
}

module _ {ℓ} {L V : Type ℓ} ⦃l : Ord L⦄ ⦃v : Ord V⦄ where
  covers-expand_by_model :
      (s m : States L V) (cs res : Configurations L V)
      → IsAscending s
      → IsAscending m
      → AreSets cs
      → covers s (expand_by_model m cs res) ≡ ((includes s m && covers s cs) || covers s res)
  unfolding expand_by_model
  covers-expand_by_model s m [] res hs hm hc = ground arith
  covers-expand_by_model s m (c ∷ cs) res hs hm (hc, hcs) = ground (
    arith,
    covers-expand_by_model s m cs (insert (insert_all m c) res) hs hm hcs,
    any_of-insert (λ x. includes s x) (insert_all m c) res,
    includes-insert_all s m c hs hm hc,
  )

  covers-expand_by_models :
      (s : States L V) (ms cs res : Configurations L V)
      → IsAscending s
      → AreSets ms
      → AreSets cs
      → covers s (expand_by_models ms cs res) ≡ ((covers s ms && covers s cs) || covers s res)
  unfolding expand_by_models
  covers-expand_by_models s [] cs res hs hm hc = refl
  covers-expand_by_models s (m ∷ ms) cs res hs (hm, hms) hc = ground (
    arith,
    covers-expand_by_models s ms cs (expand_by_model m cs res) hs hms hc,
    covers-expand_by_model s m cs res hs hm hc,
  )

  expand_by_model-AreSets :
      (m : States L V) (cs res : Configurations L V)
      → AreSets cs
      → AreSets res
      → AreSets (expand_by_model m cs res)
  unfolding expand_by_model
  expand_by_model-AreSets m [] res hc hr = hr
  expand_by_model-AreSets m (c ∷ cs) res (hc, hcs) hr =
      expand_by_model-AreSets m cs (insert (insert_all m c) res) hcs
        (All-insert (λ x. IsAscending x) (insert_all m c) res (insert_all-IsAscending m c hc) hr)

  expand_by_models-AreSets :
      (ms cs res : Configurations L V)
      → AreSets cs
      → AreSets res
      → AreSets (expand_by_models ms cs res)
  unfolding expand_by_models
  expand_by_models-AreSets [] cs res hc hr = hr
  expand_by_models-AreSets (m ∷ ms) cs res hc hr =
      expand_by_models-AreSets ms cs (expand_by_model m cs res) hc
        (expand_by_model-AreSets m cs res hc hr)

  covers-expand_configurations :
      (s : States L V) (models : List (Configurations L V)) (cs : Configurations L V)
      → IsAscending s
      → All AreSets models
      → AreSets cs
      → covers s (expand_configurations models cs)
        ≡ (covers s cs && all_of (λ m. covers s m) models)
  unfolding expand_configurations
  covers-expand_configurations s [] cs hs hm hc = ground arith
  covers-expand_configurations s (m ∷ models) cs hs (hm, hms) hc = ground (
    arith,
    covers-expand_configurations s models (expand_by_models m cs []) hs hms
        (expand_by_models-AreSets m cs [] hc tt),
    covers-expand_by_models s m cs [] hs hm hc,
  )

  any_of-insert_all :
      (p : States L V → Bool) (xs res : Configurations L V)
      → any_of p (insert_all xs res) ≡ (any_of p xs || any_of p res)
  unfolding insert_all
  any_of-insert_all p [] res = refl
  any_of-insert_all p (x ∷ xs) res =
      ground (arith, any_of-insert_all p xs (insert x res), any_of-insert p x res)

  covers-combine_models :
      (s : States L V) (models : List (Configurations L V))
      → IsAscending s
      → All AreSets models
      → is_empty_list models ≡ false
      → covers s (combine_models models) ≡ all_of (λ m. covers s m) models
  covers-combine_models s [] hs hm e = cc
  covers-combine_models s (m ∷ models) hs (hm, hms) e =
      covers-expand_configurations s models (insert_all m []) hs hms
        (All-insert_all (λ x. IsAscending x) m [] hm tt)
      ∙ ground (arith, any_of-insert_all (λ x. includes s x) m [])

module _ {ℓ} {L V : Type ℓ} ⦃l : Ord L⦄ ⦃v : Ord V⦄ ⦃t : TimeDomain V⦄ where
  -- The set includes the sink state at 0, if there is one.
  abbrev pub includes_sink : Option L → States L V → Bool
  includes_sink none next = false
  includes_sink (some sink) next =
      member (record { location = sink; clock_valuation = t.origin }) next

  covers-sink_configurations :
      (sink : Option L) (next : States L V)
      → IsAscending next
      → covers next (sink_configurations sink) ≡ includes_sink sink next
  covers-sink_configurations none next h = refl
  covers-sink_configurations (some sink) next h =
      ground
        (arith, includes-singleton next (record { location = sink; clock_valuation = t.origin }) h)

  covers-if :
      (next : States L V) (b : Bool) (x y : Configurations L V) (p q : Bool)
      → covers next x ≡ p
      → (b ≡ false → covers next y ≡ q)
      → covers next (if b then x else y) ≡ (if b then p else q)
  covers-if next true x y p q h k = h
  covers-if next false x y p q h k = k refl

module _ {ℓ} {L S V : Type ℓ} ⦃l : Ord L⦄ ⦃o : Ord S⦄ ⦃v : Ord V⦄ ⦃t : TimeDomain V⦄ where
  -- The states satisfy the transition formula of every start state that has a transition.
  unfoldable pub satisfies_transitions : Ata L S → S → States L V → States L V → Bool
  unfolding find_transition is_satisfied_by
  satisfies_transitions a symbol [] next = true
  satisfies_transitions a symbol (q ∷ qs) next =
      elim (find_transition a.transitions q.location symbol) [
        | none ↦ satisfies_transitions a symbol qs next
        | some found ↦
            is_satisfied_by found.formula next q.clock_valuation
            && satisfies_transitions a symbol qs next
      ]

  models_of_states-AreSets :
      (a : Ata L S) (symbol : S) (start : States L V)
      → All AreSets (models_of_states a start symbol)
  unfolding models_of_states
  models_of_states-AreSets a symbol [] = tt
  models_of_states-AreSets a symbol (q ∷ qs) =
      elim (Option-cases (find_transition a.transitions q.location symbol)) [
        | inl e ↦ rw (e, models_of_states) (models_of_states-AreSets a symbol qs)
        | inr (found, e) ↦
            rw (e, models_of_states)
              (
                get_minimal_models-AreSets found.formula q.clock_valuation,
                models_of_states-AreSets a symbol qs,
              )
      ]

  all_covered :
      (a : Ata L S) (symbol : S) (start next : States L V)
      → IsAscending next
      → all_of (λ m. covers next m) (models_of_states a start symbol)
        ≡ satisfies_transitions a symbol start next
  unfolding models_of_states satisfies_transitions
  all_covered a symbol [] next h = refl
  all_covered a symbol (q ∷ qs) next h =
      elim (Option-cases (find_transition a.transitions q.location symbol)) [
        | inl e ↦ rw (e, models_of_states, satisfies_transitions) (all_covered a symbol qs next h)
        | inr (found, e) ↦
            rw (e, models_of_states, satisfies_transitions)
              (ap₂ ◌&&◌
                (sym (is_satisfied_by-get_minimal_models found.formula next q.clock_valuation h))
                (all_covered a symbol qs next h))
      ]

  models_of-AreSets :
      (a : Ata L S) (symbol : S) (start : States L V) → All AreSets (models_of a start symbol)
  models_of-AreSets a symbol [] = ((tt, tt), tt)
  models_of-AreSets a symbol (q ∷ qs) = models_of_states-AreSets a symbol (q ∷ qs)

  models_covered :
      (a : Ata L S) (symbol : S) (start next : States L V)
      → IsAscending next
      → all_of (λ m. covers next m) (models_of a start symbol)
        ≡ satisfies_transitions a symbol start next
  unfolding satisfies_transitions
  models_covered a symbol [] next h = ground (arith, includes-nil next)
  models_covered a symbol (q ∷ qs) next h = all_covered a symbol (q ∷ qs) next h

  -- A set of states includes a configuration after the symbol exactly if it satisfies the transition
  -- formulas of all start states that have a transition; where no start state has one, or some
  -- formula has no model, exactly if it includes the sink state at 0, if there is one.
  pub covers-make_symbol_step :
      (a : Ata L S) (symbol : S) (start next : States L V)
      → IsAscending next
      → covers next (make_symbol_step a start symbol) ≡ (
          if is_stuck (models_of a start symbol)
          then includes_sink a.sink_location next
          else satisfies_transitions a symbol start next)
  unfolding make_symbol_step
  covers-make_symbol_step a symbol start next h =
      covers-if next (is_stuck (models_of a start symbol)) (sink_configurations a.sink_location)
        (combine_models (models_of a start symbol)) (includes_sink a.sink_location next)
        (satisfies_transitions a symbol start next)
        (covers-sink_configurations a.sink_location next h)
        (λ e.
          covers-combine_models next (models_of a start symbol) h (models_of-AreSets a symbol start)
            (ground arith)
          ∙ models_covered a symbol start next h)
