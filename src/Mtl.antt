-- ===== src/Mtl.antt =====
-- src/mtl: metric temporal logic.
pub mod Formula
pub mod Order
pub mod Subformulas
pub mod Satisfaction
pub mod NormalForm
