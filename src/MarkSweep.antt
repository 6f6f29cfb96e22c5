-- ===== src/MarkSweep.antt =====
-- The collector of collector/portablems.c: a portable mark and sweep.
pub mod Mark
pub mod Sample
pub mod Roots
pub mod Sweep
pub mod FreeList
pub mod Clear
