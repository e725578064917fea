-- ===== src/Translation/Automaton/Unfolding.antt =====
-- src/mtl_ata_translation/include/mtl_ata_translation/translator.hpp with
-- src/automata/include/automata/ata.hpp: the symbol steps of the automaton that `translate` returns.
use scico_d.Prelude.{list_ord}
use scico_d.Mtl.Order.Laws.{formula_ord}
use scico_d.Automata.AtaFormula.{state_ord}
use scico_d.Automata.Ata.{Ata}
