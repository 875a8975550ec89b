-- ===== src/Db.antt =====
-- The PostgreSQL layer (crates/smartfs-db/src): tables, blobs, versions, and the commit of markers.
pub mod Models
pub mod Blobs
pub mod Inodes
pub mod Versions
pub mod Replay
pub mod History
pub mod Inventory
