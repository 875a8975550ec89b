-- ===== src/Tests.antt =====
-- The theorems at concrete inputs, and runs of the definitions
-- (crates/smartfs-schema, smartfs-store, smartfs-db, smartfs-fuse and smartfs-mcp).
pub mod Markers
pub mod Commits
pub mod Replay
pub mod Handles
pub mod Pipeline
pub mod Cleaner
pub mod Tokens
pub mod Tools
pub mod Scrub
pub mod Attributes
pub mod Inodes
pub mod Files
pub mod Names
pub mod Unlinked
pub mod Syntax
