-- ===== src/Translation/Automaton/Meeting.antt =====
-- src/mtl_ata_translation/include/mtl_ata_translation/translator.hpp with
-- src/automata/include/automata/ata.hpp: what the start states of a
-- symbol step demand of the next states, and whether it can be met.
use scico_d.Prelude.{
  Bool, true, false, not, ◌⊎◌, inl, inr, any_of, is_empty_list, includes_refl, Bool-cases, ◌||◌,
  ◌&&◌, List, [], ◌∷◌, Ord, list_ord, ◌≡◌, refl, sym, subst, ap, ◌∙◌, member, eqb, eqb_refl,
  IsAscending, if◌then◌else◌, all_of, All, of_member, ap₂, ok, ok-injective,
}
use scico_d.Translation.Constraints.{lies_within}
use scico_d.Mtl.Formula.{MtlFormula, ltrue, lfalse, prop, land, lor, lneg, luntil, ldual_until}
use scico_d.Mtl.Order.Laws.{formula_ord}
use scico_d.Mtl.Subformulas.{get_closure}
use scico_d.Mtl.NormalForm.Shape.{IsPositive}
use scico_d.Automata.ClockConstraint.{TimeDomain}
use scico_d.Automata.AtaFormula.{
  Formula, State, States, state_ord, is_satisfied_by, get_minimal_models,
}
use scico_d.Automata.AtaFormula.Models.{
  covers, AreSets, get_minimal_models-AreSets, is_satisfied_by-get_minimal_models,
}
use scico_d.Automata.Ata.{Ata, models_of, models_of_states, is_stuck}
use scico_d.Automata.Ata.Steps.{satisfies_transitions}
use scico_d.Translation.Init.{evaluate, is_pending}
use scico_d.Translation.Transitions.{until_transition_satisfied, dual_until_transition_satisfied}
use scico_d.Translation.Automaton.{transition_formula}
use scico_d.Translation.Automaton.Closure.{get_closure-IsPositive}
use scico_d.Translation.Automaton.Demands.{HasTransition}

module _ {P S V : Type 0} ⦃o : Ord P⦄ ⦃s : Ord S⦄ ⦃v : Ord V⦄ ⦃d : TimeDomain V⦄
    (matches : P → S → Bool) where
  abbrev pub waiting : MtlFormula P → V → State (MtlFormula P) V
  waiting u x = record { location = u; clock_valuation = x }

  -- What an until or a dual until whose clock is at `x` demands of the next states on a symbol.
  unfoldable pub demands : States (MtlFormula P) V → V → S → MtlFormula P → Bool
  demands next x symbol (luntil f g i) =
      (evaluate matches (is_pending next x false) g symbol && lies_within i x)
      || (evaluate matches (is_pending next x false) f symbol
          && member (waiting (luntil f g i) x) next)
  demands next x symbol (ldual_until f g i) =
      (evaluate matches (is_pending next x false) g symbol || not (lies_within i x))
      && (evaluate matches (is_pending next x false) f symbol
          || member (waiting (ldual_until f g i) x) next)
  demands next x symbol _ = false

  satisfied_demands :
      (next : States (MtlFormula P) V) (x : V) (symbol : S) (u : MtlFormula P)
      (phi : Formula (MtlFormula P))
      → IsPositive u
      → transition_formula matches u symbol ≡ ok phi
      → is_satisfied_by phi next x ≡ demands next x symbol u
  unfolding transition_formula demands IsPositive
  satisfied_demands next x symbol (luntil f g i) phi (hf, hg) e =
      let (psi, e', sat) = until_transition_satisfied matches symbol next x f g i hf hg in
      ap (λ y. is_satisfied_by y next x) (ok-injective (sym e ∙ e')) ∙ sat
  satisfied_demands next x symbol (ldual_until f g i) phi (hf, hg) e =
      let (psi, e', sat) = dual_until_transition_satisfied matches symbol next x f g i hf hg in
      ap (λ y. is_satisfied_by y next x) (ok-injective (sym e ∙ e')) ∙ sat
  satisfied_demands next x symbol ltrue phi h e = cc
  satisfied_demands next x symbol lfalse phi h e = cc
  satisfied_demands next x symbol (prop p) phi h e = cc
  satisfied_demands next x symbol (land fs) phi h e = cc
  satisfied_demands next x symbol (lor fs) phi h e = cc
  satisfied_demands next x symbol (lneg f) phi h e = cc

  -- The states wait for untils and dual untils of the closure.
  abbrev pub AreWaiting : MtlFormula P → States (MtlFormula P) V → Type 0
  AreWaiting formula start = All (λ q. member q.location (get_closure formula) ≡ true) start

  -- Some set of states meets the demands of the state, or none does.
  abbrev pub IsMet : S → State (MtlFormula P) V → Type 0
  IsMet symbol q =
      (m : States (MtlFormula P) V) × IsAscending m
      × (demands m q.clock_valuation symbol q.location ≡ true)

  abbrev pub IsUnmet : S → State (MtlFormula P) V → Type 0
  IsUnmet symbol q =
      (m : States (MtlFormula P) V)
      → IsAscending m
      → demands m q.clock_valuation symbol q.location ≡ false

  -- What the next states must hold is that they meet the demands of all start states, or, where
  -- those of some start state cannot be met, that the sink at 0 is among them.
  abbrev pub MeetsDemands : P → S → (start next : States (MtlFormula P) V) → Bool → Type 0
  MeetsDemands sink symbol start next held =
      (All (IsMet symbol) start
        × (held ≡ all_of (λ q. demands next q.clock_valuation symbol q.location) start))
      ⊎ ((q : State (MtlFormula P) V) × (member q start ≡ true)
          × IsUnmet symbol q
          × (held ≡ member (waiting (prop sink) d.origin) next))

  covers_none :
      (m : States (MtlFormula P) V) (models : List (States (MtlFormula P) V))
      → is_empty_list models ≡ true
      → covers m models ≡ false
  covers_none m [] n = refl
  covers_none m (x ∷ xs) n = cc

  member_later :
      (r q : State (MtlFormula P) V) (qs : States (MtlFormula P) V)
      → member r qs ≡ true
      → member r (q ∷ qs) ≡ true
  member_later r q qs m = elim (Bool-cases (eqb r q)) [ inl e ↦ rw e refl | inr e ↦ rw e m ]

  module _ (formula : MtlFormula P) (a : Ata (MtlFormula P) S) (symbol : S)
      (positive : IsPositive formula)
      (found : (u : MtlFormula P)
        → member u (get_closure formula) ≡ true
        → HasTransition a u symbol (transition_formula matches u symbol)) where
    closure_demands :
        (u : MtlFormula P) (next : States (MtlFormula P) V) (x : V)
        → (w : member u (get_closure formula) ≡ true)
        → is_satisfied_by (found u w).0.formula next x ≡ demands next x symbol u
    closure_demands u next x w =
        satisfied_demands next x symbol u (found u w).0.formula
          (of_member IsPositive u (get_closure formula) (get_closure-IsPositive formula positive) w)
          (found u w).2

    satisfied_by_all :
        (start next : States (MtlFormula P) V)
        → AreWaiting formula start
        → satisfies_transitions a symbol start next
          ≡ all_of (λ q. demands next q.clock_valuation symbol q.location) start
    unfolding satisfies_transitions
    satisfied_by_all [] next w = refl
    satisfied_by_all (q ∷ qs) next (w, ws) =
        rw ((found q.location w).1, satisfies_transitions)
          (ap₂ ◌&&◌ (closure_demands q.location next q.clock_valuation w)
            (satisfied_by_all qs next ws))

    demands_covered :
        (q : State (MtlFormula P) V) (w : member q.location (get_closure formula) ≡ true)
        (next : States (MtlFormula P) V)
        → IsAscending next
        → demands next q.clock_valuation symbol q.location
          ≡ covers next (get_minimal_models (found q.location w).0.formula q.clock_valuation)
    demands_covered q w next h =
        sym (closure_demands q.location next q.clock_valuation w)
        ∙ is_satisfied_by-get_minimal_models (found q.location w).0.formula next q.clock_valuation h

    -- The models of the transition formula of a state decide whether its demands can be met.
    met :
        (q : State (MtlFormula P) V) (w : member q.location (get_closure formula) ≡ true)
        (models : List (States (MtlFormula P) V))
        → get_minimal_models (found q.location w).0.formula q.clock_valuation ≡ models
        → is_empty_list models ≡ false
        → IsMet symbol q
    met q w [] e n = cc
    met q w (m ∷ ms) e n =
        let sets : AreSets (m ∷ ms) =
          subst (AreSets) e
            (get_minimal_models-AreSets (found q.location w).0.formula q.clock_valuation) in
        (m, sets.0, demands_covered q w m sets.0 ∙ rw (e, includes_refl m sets.0) refl)

    unmet :
        (q : State (MtlFormula P) V) (w : member q.location (get_closure formula) ≡ true)
        → is_empty_list (get_minimal_models (found q.location w).0.formula q.clock_valuation) ≡ true
        → IsUnmet symbol q
    unmet q w n m h = demands_covered q w m h ∙ covers_none m _ n

    All-IsMet :
        (start : States (MtlFormula P) V)
        → AreWaiting formula start
        → (All (IsMet symbol) start
            × (any_of is_empty_list (models_of_states a start symbol) ≡ false))
          ⊎ ((q : State (MtlFormula P) V) × (member q start ≡ true)
              × IsUnmet symbol q
              × (any_of is_empty_list (models_of_states a start symbol) ≡ true))
    unfolding models_of_states
    All-IsMet [] w = inl (tt, refl)
    All-IsMet (q ∷ qs) (w, ws) =
        let (t, e, r) = found q.location w in
        rw (e, models_of_states)
          (elim (Bool-cases (is_empty_list (get_minimal_models t.formula q.clock_valuation))) [
            | inl n ↦ inr (q, rw (eqb_refl q) refl, unmet q w n, rw n refl)
            | inr n ↦ elim (All-IsMet qs ws) [
              | inl (hs, none) ↦ inl ((met q w _ refl n, hs), rw (n, none) refl)
              | inr (r, m, h, some) ↦ inr (r, member_later r q qs m, h, rw (n, some) refl)
            ]
          ])

    some_models :
        (q : State (MtlFormula P) V) (qs : States (MtlFormula P) V)
        → member q.location (get_closure formula) ≡ true
        → is_empty_list (models_of_states a (q ∷ qs) symbol) ≡ false
    unfolding models_of_states
    some_models q qs w = rw ((found q.location w).1, models_of_states) refl

    -- By the decision of the symbol step.
    pub stuck_demands :
        (sink : P) (start next : States (MtlFormula P) V)
        → AreWaiting formula start
        → MeetsDemands sink symbol start next (
            if is_stuck (models_of a start symbol)
            then member (waiting (prop sink) d.origin) next
            else satisfies_transitions a symbol start next)
    stuck_demands sink [] next w = inl (tt, satisfied_by_all [] next tt)
    stuck_demands sink (q ∷ qs) next (w, ws) = elim (All-IsMet (q ∷ qs) (w, ws)) [
      | inl (hs, none) ↦
          inl (hs, rw (some_models q qs w, none) (satisfied_by_all (q ∷ qs) next (w, ws)))
      | inr (r, m, h, some) ↦ inr (r, m, h, rw (some_models q qs w, some) refl)
    ]
