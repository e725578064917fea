-- ===== src/Translation/Automaton/Demands.antt =====
-- src/mtl_ata_translation/include/mtl_ata_translation/translator.hpp: the automaton that
-- `translate` returns, and its steps.
use scico_d.Prelude.{
  Bool, true, List, Ord, nat_ord, list_ord, some, ◌≡◌, member, is_empty_list, if◌then◌else◌, Result,
  ok,
}
use scico_d.Mtl.Formula.{MtlFormula, prop}
use scico_d.Mtl.Order.Laws.{formula_ord}
use scico_d.Mtl.Subformulas.{get_subformulas_of_type, get_closure}
use scico_d.Automata.ClockConstraint.{nat_time}
use scico_d.Automata.AtaFormula.{Formula, state_ord}
use scico_d.Automata.Ata.{Transition, Ata, find_transition}
use scico_d.Translation.{TranslationError, init}
use scico_d.Translation.Automaton.{transition_formula}

module _ {P S : Type 0} ⦃o : Ord P⦄ ⦃s : Ord S⦄ where
  -- The transition that is found, and what its formula is.
  abbrev pub HasTransition :
      Ata (MtlFormula P) S
      → MtlFormula P
      → S
      → Result TranslationError (Formula (MtlFormula P))
      → Type 0
  HasTransition a location symbol result =
      (t : Transition (MtlFormula P) S) × (find_transition a.transitions location symbol ≡ some t)
      × (result ≡ ok t.formula)

  -- The alphabet over which `translate` builds the automaton.
  abbrev pub used_alphabet : (MtlFormula P → List S) → MtlFormula P → List S → List S
  used_alphabet default_alphabet formula alphabet =
      if is_empty_list alphabet then default_alphabet formula else alphabet

module _ {P S : Type 0} ⦃o : Ord P⦄ ⦃s : Ord S⦄ (matches : P → S → Bool) (l0 sink : P) where
  -- From `l0` the automaton has the transition formula of `init`, and from each until and dual until
  -- of the closure its own.
  abbrev pub IsTranslation : MtlFormula P → List S → Ata (MtlFormula P) S → Type 0
  IsTranslation formula alphabet a =
      (a.initial_location ≡ prop l0)
      × (a.final_locations ≡ get_subformulas_of_type 4 formula)
      × (a.sink_location ≡ some (prop sink))
      × ((symbol : S)
          → member symbol alphabet ≡ true
          → HasTransition a (prop l0) symbol (init matches formula symbol true)
            × ((u : MtlFormula P)
                → member u (get_closure formula) ≡ true
                → HasTransition a u symbol (transition_formula matches u symbol)))
