-- ===== src/Fuse/Unlinked.antt =====
-- The life of a file that is unlinked while it is open, to its last close
-- (crates/smartfs-fuse/src/fs.rs, `unlink` and `release`).
