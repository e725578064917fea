-- ===== src/Examples/TranslatedAutomata.antt =====
-- Automata of formulas over numbers as propositions, with sets of propositions as symbols.
use scico_d.Prelude.{ℕ, ◌≡◌, refl, List, [], ◌∷◌, nat_ord, list_ord, insert, insert_all}
use scico_d.Utilities.Interval.{weak_interval}
use scico_d.Mtl.Formula.{MtlFormula, prop, lneg, luntil}
use scico_d.Mtl.Order.Laws.{formula_ord}
use scico_d.Automata.ClockConstraint.{nat_time}
use scico_d.Automata.AtaFormula.{States, state_ord}
use scico_d.Automata.Ata.{Ata}
use scico_d.Translation.{contains_proposition}
use scico_d.Translation.Automaton.{construct_powerset, get_alphabet}
use scico_d.Translation.Automaton.Meeting.{waiting}

-- 1 until, between 2 and 5 time units later, not 2. The locations are named 8 and 9.
abbrev until_formula : MtlFormula ℕ
until_formula = luntil (prop 1) (lneg (prop 2)) (weak_interval 2 5)

abbrev symbols : List (List ℕ)
symbols = (1 ∷ []) ∷ (2 ∷ []) ∷ []

abbrev default_symbols : MtlFormula ℕ → List (List ℕ)
default_symbols formula = construct_powerset (get_alphabet formula)

-- The until waits at 3, and is still there after the symbol {1}.
abbrev waiting_states : States (MtlFormula ℕ) ℕ
waiting_states = waiting contains_proposition until_formula 3 ∷ []

abbrev one_and_two : List ℕ
one_and_two = 1 ∷ 2 ∷ []

-- The power set of {1, 2}.
powerset_of_two : construct_powerset one_and_two ≡ [] ∷ (1 ∷ []) ∷ (1 ∷ 2 ∷ []) ∷ (2 ∷ []) ∷ []
unfolding construct_powerset insert insert_all
powerset_of_two = refl
