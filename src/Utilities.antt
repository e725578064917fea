-- ===== src/Utilities.antt =====
-- src/utilities: data structures that the other parts share.
pub mod Interval
