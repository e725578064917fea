-- ===== src/Translation/Automaton.antt =====
-- src/mtl_ata_translation/include/mtl_ata_translation/translator.hpp: `translate` and
-- `compute_alphabet`; src/mtl/include/mtl/MTLFormula.hpp: `get_alphabet`;
-- src/utilities/include/utilities/powerset.h.
pub mod Closure
pub mod Steps
pub mod Demands
pub mod Meeting
pub mod Unfolding
use scico_d.Prelude.{
  Bool, true, false, List, [], ◌∷◌, Ord, list_ord, lt_pair, some, insert, insert_all, member,
  is_empty_list, Result, ok, err, after, if◌then◌else◌,
}
use scico_d.Mtl.Formula.{
  MtlFormula, Formulas, ltrue, lfalse, prop, land, lor, lneg, luntil, ldual_until, nil, cons,
}
use scico_d.Mtl.Order.Laws.{formula_ord}
use scico_d.Mtl.Subformulas.{get_subformulas_of_type}
use scico_d.Mtl.NormalForm.{to_positive_normal_form}
use scico_d.Automata.AtaFormula.{Formula}
use scico_d.Automata.Ata.{Transition, Ata, AtaError, make_ata}
use scico_d.Translation.{
  TranslationError, not_in_positive_normal_form, is_proposition, contains_proposition, init,
  until_transition, dual_until_transition,
}

-- What `translate` throws.
pub data TranslateError : Type 0 where
  translation_error : TranslationError → TranslateError
  alphabet_contains_initial alphabet_contains_sink : TranslateError
  automaton_error : AtaError → TranslateError

abbrev pub rethrow {ℓ κ μ} :
    {E : Type ℓ} {F : Type κ} {A : Type μ} → (E → F) → Result E A → Result F A
rethrow f (ok a) = ok a
rethrow f (err e) = err (f e)

module _ {ℓ} {X : Type ℓ} ⦃o : Ord X⦄ where
  -- The elements of a power set, each with a symbol.
  abbrev pub insert_into_each : X → List (List X) → List (List X) → List (List X)
  insert_into_each symbol [] new_elements = new_elements
  insert_into_each symbol (partial_set ∷ sets) new_elements =
      insert_into_each symbol sets (insert (insert symbol partial_set) new_elements)

  -- The loop of `construct_powerset`; `merge` adds the elements that are not there yet.
  unfoldable pub extend_powerset : List X → List (List X) → List (List X)
  extend_powerset [] powerset = powerset
  extend_powerset (symbol ∷ symbols) powerset =
      extend_powerset symbols (insert_all (insert_into_each symbol powerset powerset) powerset)

  unfoldable pub construct_powerset : List X → List (List X)
  unfolding extend_powerset
  construct_powerset input = extend_powerset input ([] ∷ [])

module _ {ℓ} {P : Type ℓ} ⦃o : Ord P⦄ where
  -- The propositions of a list of propositional formulas.
  abbrev pub insert_propositions : List (MtlFormula P) → List P → List P
  insert_propositions [] res = res
  insert_propositions (prop p ∷ fs) res = insert_propositions fs (insert p res)
  insert_propositions (f ∷ fs) res = insert_propositions fs res

  -- LOP::AP is 5.
  unfoldable pub get_alphabet : MtlFormula P → List P
  unfolding get_subformulas_of_type
  get_alphabet formula = insert_propositions (get_subformulas_of_type 5 formula) []

module _ {ℓ} {P S : Type ℓ} ⦃o : Ord P⦄ ⦃s : Ord S⦄ where
  -- The set of transitions in its order; transitions that the order does not tell apart but for the
  -- addresses of their formulas are all kept.
  unfoldable pub insert_ordered :
      Transition (MtlFormula P) S
      → List (Transition (MtlFormula P) S)
      → List (Transition (MtlFormula P) S)
  insert_ordered x [] = x ∷ []
  insert_ordered x (y ∷ ys) =
      if lt_pair x.source x.symbol y.source y.symbol then x ∷ y ∷ ys else y ∷ insert_ordered x ys

  -- The transition formula of an until or a dual until; there is no other formula in the loops.
  unfoldable pub transition_formula :
      (P → S → Bool) → MtlFormula P → S → Result TranslationError (Formula (MtlFormula P))
  unfolding until_transition dual_until_transition
  transition_formula matches (luntil f g i) symbol = until_transition matches f g i symbol
  transition_formula matches (ldual_until f g i) symbol = dual_until_transition matches f g i symbol
  transition_formula matches f symbol = err not_in_positive_normal_form

  -- The loops over the untils and over the dual untils.
  unfoldable pub insert_formula_transitions :
      (P → S → Bool)
      → S
      → List (MtlFormula P)
      → List (Transition (MtlFormula P) S)
      → Result TranslationError (List (Transition (MtlFormula P) S))
  unfolding transition_formula insert_ordered
  insert_formula_transitions matches symbol [] transitions = ok transitions
  insert_formula_transitions matches symbol (u ∷ us) transitions =
      after (transition_formula matches u symbol) (λ phi.
        insert_formula_transitions matches symbol us
          (insert_ordered (record { source = u; symbol = symbol; formula = phi }) transitions))

  -- One round of the loop over the alphabet.
  unfoldable pub insert_symbol_transitions :
      (P → S → Bool)
      → P
      → MtlFormula P
      → List (MtlFormula P)
      → List (MtlFormula P)
      → S
      → List (Transition (MtlFormula P) S)
      → Result TranslationError (List (Transition (MtlFormula P) S))
  unfolding init insert_formula_transitions
  insert_symbol_transitions matches l0 formula untils dual_untils symbol transitions =
      after (init matches formula symbol true) (λ phi.
        after
          (insert_formula_transitions matches symbol untils (
            insert_ordered (record { source = prop l0; symbol = symbol; formula = phi })
              transitions))
          (λ more. insert_formula_transitions matches symbol dual_untils more))

  unfoldable pub insert_all_transitions :
      (P → S → Bool)
      → P
      → MtlFormula P
      → List (MtlFormula P)
      → List (MtlFormula P)
      → List S
      → List (Transition (MtlFormula P) S)
      → Result TranslationError (List (Transition (MtlFormula P) S))
  unfolding insert_symbol_transitions
  insert_all_transitions matches l0 formula untils dual_untils [] transitions = ok transitions
  insert_all_transitions matches l0 formula untils dual_untils (symbol ∷ symbols) transitions =
      after (insert_symbol_transitions matches l0 formula untils dual_untils symbol transitions)
        (λ more. insert_all_transitions matches l0 formula untils dual_untils symbols more)

  -- The automaton over an alphabet that is settled, for a formula in normal form.
  unfoldable pub translate_over :
      (P → S → Bool)
      → (l0 sink : P) → MtlFormula P
      → List S
      → Result TranslateError (Ata (MtlFormula P) S)
  unfolding insert_all_transitions get_subformulas_of_type make_ata
  translate_over matches l0 sink formula alphabet =
      let untils = get_subformulas_of_type 3 formula in
      let dual_untils = get_subformulas_of_type 4 formula in
      after
        (rethrow translation_error
          (insert_all_transitions matches l0 formula untils dual_untils alphabet []))
        (λ transitions.
          rethrow automaton_error
            (make_ata alphabet (prop l0) dual_untils transitions (some (prop sink))))

  -- `translate` with the alphabet that the formula has by default, and with the symbols that the
  -- names of the initial location and of the sink location make.
  unfoldable pub translate :
      (P → S → Bool)
      → (l0 sink : P) → (l0_symbol sink_symbol : S) → (MtlFormula P → List S)
      → MtlFormula P
      → List S
      → Result TranslateError (Ata (MtlFormula P) S)
  unfolding translate_over to_positive_normal_form
  translate matches l0 sink l0_symbol sink_symbol default_alphabet input_formula input_alphabet =
      let formula = to_positive_normal_form input_formula in
      let alphabet =
        if is_empty_list input_alphabet then default_alphabet formula else input_alphabet in
      if member l0_symbol alphabet
      then err alphabet_contains_initial
      else if member sink_symbol alphabet
      then err alphabet_contains_sink
      else translate_over matches l0 sink formula alphabet

-- `translate<..., state_based>` for false and for true.
unfoldable pub translate_events {ℓ} :
    {P : Type ℓ} ⦃o : Ord P⦄
    → (l0 sink : P) → MtlFormula P
    → List P
    → Result TranslateError (Ata (MtlFormula P) P)
unfolding translate get_alphabet
translate_events l0 sink = translate is_proposition l0 sink l0 sink get_alphabet

unfoldable pub translate_states {ℓ} :
    {P : Type ℓ} ⦃o : Ord P⦄
    → (l0 sink : P) → MtlFormula P
    → List (List P)
    → Result TranslateError (Ata (MtlFormula P) (List P))
unfolding translate get_alphabet construct_powerset
translate_states l0 sink =
    translate contains_proposition l0 sink (l0 ∷ []) (sink ∷ [])
      (λ formula. construct_powerset (get_alphabet formula))
