-- ===== src/Handles/Calls.antt =====
-- The calls on `FuseStateManager` that change it, as data, and histories of them
-- (crates/smartfs-fuse/src/state.rs).
use smartfs.Base.{ℕ, Option, Bytes, List, [], ◌∷◌}
use smartfs.Db.Models.{AstNodeInsert}
use smartfs.Handles.{
  FuseStateManager, allocate_fh, set_buffer_if_absent, write_to_handle, truncate_handle,
  truncate_inode_handles, truncate_inode_handles_with_data, truncate_inode_handles_committed,
  truncate_handle_committed, store_ast_nodes, close_handle, mark_for_deletion, cache_ino_mapping,
}

pub data Call : Type 0 where
  allocates : (ino inode_id flags : ℕ) → Option Bytes → Call
  publishes : (fh : ℕ) → Bytes → Call
  writes : (fh offset : ℕ) → Bytes → Call
  truncates : (fh new_size : ℕ) → Call
  truncates_inode : (inode_id new_size : ℕ) → Call
  replaces_inode : (inode_id : ℕ) → Bytes → Call
  commits_inode : (inode_id : ℕ) → Bytes → Call
  commits : (fh : ℕ) → Bytes → Call
  stores_ast : (fh : ℕ) → List AstNodeInsert → Call
  closes : (fh : ℕ) → Call
  marks : (inode_id : ℕ) → Call
  caches : (ino id : ℕ) → Call

-- The state after a call.
unfoldable pub step : Call → FuseStateManager → FuseStateManager
step (allocates ino inode_id flags b) m = (allocate_fh ino inode_id flags b m).0
step (publishes fh b) m = (set_buffer_if_absent fh b m).0
step (writes fh offset b) m = (write_to_handle fh offset b m).0
step (truncates fh n) m = (truncate_handle fh n m).0
step (truncates_inode i n) m = truncate_inode_handles i n m
step (replaces_inode i b) m = truncate_inode_handles_with_data i b m
step (commits_inode i b) m = truncate_inode_handles_committed i b m
step (commits fh b) m = (truncate_handle_committed fh b m).0
step (stores_ast fh nodes) m = store_ast_nodes fh nodes m
step (closes fh) m = (close_handle fh m).0
step (marks i) m = (mark_for_deletion i m).0
step (caches ino id) m = cache_ino_mapping ino id m

-- The state after a history, its oldest call first.
unfoldable pub run : List Call → FuseStateManager → FuseStateManager
run [] m = m
run (c ∷ cs) m = run cs (step c m)
