-- ===== src/Schema.antt =====
-- The types that all crates share (crates/smartfs-schema/src).
pub mod Error
pub mod Marker
