-- ===== src/Collections.antt =====
-- The collections that are written on top of the collector (collections/list.c).
pub mod Store
pub mod Lists
pub mod Maps
