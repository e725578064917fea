-- ===== src/Lib.antt =====
-- TACoS synthesises controllers for timed automata against undesired behaviour in metric temporal
-- logic (MTL). An MTL formula is translated to an alternating timed automaton (ATA). The search
-- runs the plant, a timed automaton, and the ATA side by side: a state of the two is abstracted to a
-- canonical word, in which clock values are region indexes and the clocks are sorted by the
-- fractional parts of their values. The children of a search node are the words after a time
-- successor and a symbol step; a node whose words dominate those of an ancestor is not expanded.
--
-- What models which part (paths from the repository's root):
--   Utilities.Interval       src/utilities/include/utilities/Interval.h
--   Mtl.Formula              src/mtl/include/mtl/MTLFormula.h and .hpp: formulas, largest constant
--   Mtl.Order                MTLFormula.hpp, operator<; Interval.h, operator<
--   Mtl.Subformulas          MTLFormula.hpp, get_subformulas_of_type; translator.hpp, get_closure
--   Mtl.NormalForm           MTLFormula.hpp, to_positive_normal_form
--   Mtl.Satisfaction         MTLFormula.hpp, MTLWord::satisfies_at and satisfies
--   Automata.ClockConstraint src/automata/include/automata/automata.h
--   Automata.AtaFormula      src/automata/include/automata/ata_formula.h and .hpp
--   Automata.Ata             src/automata/include/automata/ata.h and ata.hpp
--   Automata.Ta              src/automata/include/automata/ta.h and ta.hpp; src/utilities/include/
--                            utilities/types.h: plant configurations
--   Automata.Regions         src/automata/ta_regions.cpp and include/automata/ta_regions.hpp;
--                            src/utilities/include/utilities/numbers.h
--   Translation              src/mtl_ata_translation/include/mtl_ata_translation/translator.hpp
--   Search.CanonicalWord     src/search/include/search/canonical_word.h
--   Search.Abstraction       src/search/include/search/canonical_word.h: get_canonical_word;
--                            src/search/include/search/reg_a.h
--   Search.TimeSuccessor     src/search/include/search/synchronous_product.h
--   Search.NextSuccessors    src/search/include/search/synchronous_product.h:
--                            get_next_time_successors
--   Search.Domination        src/search/include/search/operators.h: is_monotonically_dominated
--   Search.Tree.Ancestors    operators.h: dominates_ancestor, over a test of domination
--   Search.Labels            src/search/include/search/search_tree.h and search.h: the decision on
--                            the label of a node from those of its children
--   Search.Tree              src/search/include/search/search_tree.h: nodes, set_label, reset_label,
--                            label_propagate (propagate), add_child
--   Search.Tree.Graph        src/search/include/search/search.h: label_graph
--   Translation.Automaton    src/mtl_ata_translation/include/mtl_ata_translation/translator.hpp:
--                            translate; src/utilities/include/utilities/powerset.h;
--                            src/mtl/include/mtl/MTLFormula.hpp: get_alphabet
-- Functions keep the names of the source. The child modules hold the theorems. Prelude has the
-- shared helpers: Boolean tests, lists, strict orders (an `operator<`), and `std::set` as an
-- ascending list. Examples has tests on concrete inputs.
--
-- Template parameters with an `operator<` are types with an instance of `Ord`. Endpoints and
-- region indexes are `unsigned int`, natural numbers that wrap around at 2^32. Clock valuations
-- are doubles in the source: automata and the formulas of an ATA use them through the operations
-- of `TimeDomain`, and the regions through fractions, which doubles are: splitting a double into its
-- parts and halving it are exact, and the tests against rounding errors keep their tolerance. The
-- candidate of a canonical word (get_candidate) adds and divides doubles, and is not modelled.
--
-- A search node stands in a heap, a function from addresses to nodes, which the operations change
-- one after another. A set of paths of a timed automaton is ordered by the sequences of the paths
-- only, as in the source, and keeps the first of two paths with the same sequence.
--
-- Bounds and fuel: the loop over time successors has fuel. The measure of a canonical word counts
-- what its region indexes and its letters leave until all are maximal; fuel above it is enough.
-- set_label and label_propagate recurse on fuel too: each call that goes on labels a node that had
-- no label, but for a first call on a node without children, so fuel above the number of unlabelled
-- nodes, and one more for that first call, is enough. The search for a dominated ancestor visits no
-- node twice, and label_graph goes on from no node twice, so that fuel above the number of nodes is
-- enough. Theorems on regions take the constant K below 2^31, so that 2 K + 1 does not wrap around.
--
-- Not modelled: printing, reading of files and messages, the command line, graphs for Graphviz,
-- the Golog++ integration, and threads. Nor are the products of timed automata, the traversal of
-- the search graph, the expansion of nodes, heuristics and controllers, which are the clients of
-- what is modelled here.
pub mod Prelude
pub mod Search
pub mod Utilities
pub mod Mtl
pub mod Automata
pub mod Translation
mod Examples
