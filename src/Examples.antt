-- ===== src/Examples.antt =====
-- Tests on concrete inputs, a module for each part.
mod TimeSuccessors
mod Dominations
mod Intervals
mod Formulas
mod AtaFormulas
mod RegionIndexes
mod Translations
mod NodeLabels
mod GraphLabels
mod TimedAutomata
mod Atas
mod TranslatedAutomata
mod SearchTrees
mod Abstractions
