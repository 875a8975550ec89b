-- ===== src/Handles/Deletion.antt =====
-- Delayed deletion: what `close_handle` answers, and that the duty to delete an inode that was
-- unlinked while it was open is handed to a close of one of its handles
-- (crates/smartfs-fuse/src/state.rs).
use smartfs.Base.{
  ℕ, ◌+◌, ◌^◌, ◌<◌, ◌≡◌, refl, Bool, true, false, ◌&&◌, ◌||◌, List, [], ◌∷◌, length, Bytes, lookup,
  nat_eq, ◌==◌, arith, Option, some, none, lookup-insert, lookup-remove, lookup-modify,
}
use smartfs.Handles.{
  OpenHandle, FuseStateManager, allocate_fh, close_handle, mark_for_deletion, close_inode,
  is_marked_for_deletion, open_fd_count, truncate_inode_handles, truncate_inode_handles_with_data,
  truncate_inode_handles_committed, store_ast_nodes, cache_ino_mapping,
}
use smartfs.Handles.Calls.{
  Call, allocates, publishes, writes, truncates, truncates_inode, replaces_inode, commits_inode,
  commits, stores_ast, closes, marks, caches, step, run,
}
use smartfs.Handles.Counts.{IsConsistent, handles_of}
use smartfs.Handles.History.{
  step-IsConsistent, run-IsConsistent, next_fh-step, publish_cases, write_cases, truncate_cases,
  commit_cases,
}

-- With the counts right, closing an open handle returns it, and asks for the deletion of its inode
-- exactly if the inode is marked and this was its last open handle.
pub close_handle_exact :
    (fh : ℕ) (h : OpenHandle) (m : FuseStateManager)
    → IsConsistent m
    → lookup fh m.handles ≡ some h
    → (close_handle fh m).1
      ≡ some (h, is_marked_for_deletion h.inode_id m && handles_of h.inode_id m == 1)
unfolding close_handle close_inode is_marked_for_deletion open_fd_count
close_handle_exact fh h m v e = grind (arith, v.counted h.inode_id, v.occupied h.inode_id, e)

-- `c` is the close of a handle of inode `i`, and it asks for the deletion of the inode.
unfoldable pub asks_deletion : ℕ → Call → FuseStateManager → Bool
asks_deletion i (closes fh) m = elim (close_handle fh m).1 [
  | none ↦ false
  | some (h, should_delete) ↦ h.inode_id == i && should_delete
]
asks_deletion i _ m = false

-- A mark survives an allocation, a close that is not the last, and another mark.
module _ (i : ℕ) (m : FuseStateManager) (marked : is_marked_for_deletion i m ≡ true) where
  allocate-marked :
      (ino j flags : ℕ) (b : Option Bytes)
      → is_marked_for_deletion i (allocate_fh ino j flags b m).0 ≡ true
  unfolding allocate_fh is_marked_for_deletion
  allocate-marked ino j flags b = grind (arith, lookup-insert, marked)

  mark-marked : (j : ℕ) → IsConsistent m → is_marked_for_deletion i (mark_for_deletion j m).0 ≡ true
  unfolding mark_for_deletion is_marked_for_deletion
  mark-marked j v = grind (arith, lookup-insert, lookup-remove, marked, v.occupied i)

  close-marked :
      (fh : ℕ)
      → (is_marked_for_deletion i (close_handle fh m).0 || asks_deletion i (closes fh) m) ≡ true
  unfolding close_handle close_inode is_marked_for_deletion asks_deletion
  close-marked fh = grind (arith, lookup-remove, lookup-modify, marked)

  -- Calls on the contents of handles do not touch the inode states.
  same-marked :
      (q : FuseStateManager) → q.inodes ≡ m.inodes → (is_marked_for_deletion i q || false) ≡ true
  unfolding is_marked_for_deletion
  same-marked q e = ground (arith, marked)

-- A call leaves a marked inode marked, or is the close that asks for its deletion.
step-marked :
    (i : ℕ) (c : Call) (m : FuseStateManager)
    → IsConsistent m
    → is_marked_for_deletion i m ≡ true
    → (is_marked_for_deletion i (step c m) || asks_deletion i c m) ≡ true
unfolding step asks_deletion
step-marked i (allocates ino j flags b) m v e = rw (allocate-marked i m e ino j flags b)
step-marked i (publishes fh b) m v e =
    same-marked i m e _ (publish_cases (λ q. q.inodes ≡ m.inodes) fh m refl b refl)
step-marked i (writes fh offset b) m v e =
    same-marked i m e _ (write_cases (λ q. q.inodes ≡ m.inodes) fh m refl offset b refl)
step-marked i (truncates fh n) m v e =
    same-marked i m e _ (truncate_cases (λ q. q.inodes ≡ m.inodes) fh m refl n refl)
step-marked i (truncates_inode j n) m v e =
    same-marked i m e _ (unfold truncate_inode_handles in refl)
step-marked i (replaces_inode j b) m v e =
    same-marked i m e _ (unfold truncate_inode_handles_with_data in refl)
step-marked i (commits_inode j b) m v e =
    same-marked i m e _ (unfold truncate_inode_handles_committed in refl)
step-marked i (commits fh b) m v e =
    same-marked i m e _ (commit_cases (λ q. q.inodes ≡ m.inodes) fh m refl b refl)
step-marked i (stores_ast fh nodes) m v e = same-marked i m e _ (unfold store_ast_nodes in refl)
step-marked i (closes fh) m v e = close-marked i m e fh
step-marked i (marks j) m v e = rw (mark-marked i m e j v)
step-marked i (caches ino id) m v e = same-marked i m e _ (unfold cache_ino_mapping in refl)

-- Some close of the history asks for the deletion of inode `i`.
unfoldable pub deletion_asked : ℕ → List Call → FuseStateManager → Bool
deletion_asked i [] m = false
deletion_asked i (c ∷ cs) m = asks_deletion i c m || deletion_asked i cs (step c m)

run-marked :
    (i : ℕ) (cs : List Call) (m : FuseStateManager)
    → m.next_fh + length cs < 2 ^ 64
    → IsConsistent m
    → is_marked_for_deletion i m ≡ true
    → (is_marked_for_deletion i (run cs m) || deletion_asked i cs m) ≡ true
unfolding run deletion_asked
run-marked i [] m big v e = rw e
run-marked i (c ∷ cs) m big v e = ground (
  arith,
  step-marked i c m v e,
  run-marked i cs (step c m) (omega (arith, next_fh-step c m))
      (step-IsConsistent c m (omega arith) v),
)

marked_open :
    (i : ℕ) (m : FuseStateManager)
    → IsConsistent m
    → handles_of i m ≡ 0
    → is_marked_for_deletion i m ≡ false
unfolding is_marked_for_deletion open_fd_count
marked_open i m v e = grind (arith, v.counted i, v.occupied i)

-- The duty to delete is not lost: if an inode is marked while the counts are right, then in every
-- history (of fewer calls than there are handle numbers left) at whose end no handle of the inode
-- is open, some close has asked for the deletion.
pub deletion_asked_of_closed :
    (i : ℕ) (cs : List Call) (m : FuseStateManager)
    → m.next_fh + length cs < 2 ^ 64
    → IsConsistent m
    → is_marked_for_deletion i m ≡ true
    → handles_of i (run cs m) ≡ 0
    → deletion_asked i cs m ≡ true
deletion_asked_of_closed i cs m big v e gone =
    ground (
      arith,
      run-marked i cs m big v e,
      marked_open i (run cs m) (run-IsConsistent cs m big v) gone,
    )
