-- ===== src/Tests/Handles.antt =====
-- Open handles at concrete inputs (crates/smartfs-fuse/src/state.rs).
use smartfs.Base.{
  ◌≡◌, refl, true, false, none, some, List, [], ◌∷◌, lookup, insert, remove, count_where, nat_eq,
  arith,
}
use smartfs.Handles.{
  OpenHandle, FuseStateManager, new, allocate_fh, close_handle, mark_for_deletion,
  is_marked_for_deletion, close_inode,
}
use smartfs.Handles.Calls.{Call, allocates, marks, closes, step, run}
use smartfs.Handles.Counts.{IsConsistent, handles_of}
use smartfs.Handles.History.{run-new-IsConsistent}
use smartfs.Handles.Deletion.{deletion_asked, deletion_asked_of_closed}

-- A file that is opened, and unlinked while it is open.
abbrev history : List Call
history = allocates 10 7 0 none ∷ marks 7 ∷ []

abbrev marked : FuseStateManager
marked = run history new

abbrev handle : OpenHandle
handle = record {
  fh = 1;
  ino = 10;
  inode_id = 7;
  flags = 0;
  buffer = none;
  modified = false;
  ast_nodes = [];
}

abbrev opening : List Call
opening = allocates 10 7 0 (some (1 ∷ 2 ∷ [])) ∷ []

abbrev opened : FuseStateManager
opened = run opening new

run-new-IsConsistent_example : IsConsistent (run history new)
run-new-IsConsistent_example = run-new-IsConsistent history (omega arith)

deletion_asked_of_closed_example : deletion_asked 7 (closes 1 ∷ []) marked ≡ true
unfolding run step allocate_fh mark_for_deletion is_marked_for_deletion close_handle close_inode
    handles_of count_where insert remove lookup
deletion_asked_of_closed_example =
    deletion_asked_of_closed 7 (closes 1 ∷ []) marked (omega arith)
      (run-new-IsConsistent history (omega arith)) refl refl
