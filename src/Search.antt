-- ===== src/Search.antt =====
-- src/search: the search over the regionalised product of the plant and the specification.
pub mod CanonicalWord
pub mod TimeSuccessor
pub mod Domination
pub mod Labels
pub mod Tree
pub mod Abstraction
pub mod NextSuccessors
