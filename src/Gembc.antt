-- ===== src/Gembc.antt =====
-- The collector of collector/gembc.c: generations, and a full collection that compacts in place.
pub mod Allocate
pub mod Compact
pub mod CountUsed
pub mod Remember
pub mod Collect0
