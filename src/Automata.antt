-- ===== src/Automata.antt =====
-- src/automata: clock constraints, regions, and alternating timed automata.
pub mod ClockConstraint
pub mod AtaFormula
pub mod Ata
pub mod Ta
pub mod Regions
