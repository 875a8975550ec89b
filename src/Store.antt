-- ===== src/Store.antt =====
-- The blob store's crate (crates/smartfs-store/src).
pub mod Queue
pub mod Scrub
