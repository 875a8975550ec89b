-- ===== src/Handles/History.antt =====
-- The counts after every call of a history (crates/smartfs-fuse/src/state.rs).
use smartfs.Base.{
  ℕ, ◌+◌, ◌^◌, ◌≤◌, ◌<◌, refl, List, [], ◌∷◌, length, lookup, nat_eq, Bool-cases, ltb, Bytes, arith,
  Option-cases, inl, inr,
}
use smartfs.Handles.{
  FuseStateManager, new, allocate_fh, set_buffer_if_absent, write_to_handle, truncate_handle,
  truncate_inode_handles, truncate_inode_handles_with_data, truncate_inode_handles_committed,
  truncate_handle_committed, store_ast_nodes, close_handle, mark_for_deletion, cache_ino_mapping,
  publish_buffer, write_handle, resize_handle, commit_buffer, set_handle, open_fd_count,
}
use smartfs.Handles.Buffer.{max_buffer, saturating_add}
use smartfs.Handles.Calls.{
  Call, allocates, publishes, writes, truncates, truncates_inode, replaces_inode, commits_inode,
  commits, stores_ast, closes, marks, caches, step, run,
}
use smartfs.Handles.Counts.{
  IsConsistent, new-IsConsistent, allocate-IsConsistent, close-IsConsistent, mark-IsConsistent,
  Keeps, set_handle-IsConsistent, for_inode-IsConsistent, handles_of,
}

-- Each operation on one handle leaves the state as it is or changes that handle in place.
module _ {ℓ} (P : FuseStateManager → Type ℓ) (fh : ℕ) (m : FuseStateManager) (same : P m) where
  pub publish_cases :
      (b : Bytes) → P (set_handle fh (publish_buffer b) m) → P (set_buffer_if_absent fh b m).0
  unfolding set_buffer_if_absent
  publish_cases b done = elim (Option-cases (lookup fh m.handles)) [
    | inl e ↦ rw (set_buffer_if_absent, e) same
    | inr (h, e) ↦ rw (set_buffer_if_absent, e) done
  ]

  pub write_cases :
      (offset : ℕ) (b : Bytes)
      → P (set_handle fh (write_handle offset b) m)
      → P (write_to_handle fh offset b m).0
  unfolding write_to_handle
  write_cases offset b done = elim (Option-cases (lookup fh m.handles)) [
    | inl e ↦ rw (write_to_handle, e) same
    | inr (h, e) ↦ elim (Bool-cases (ltb max_buffer (saturating_add offset (length b)))) [
      | inl t ↦ rw (write_to_handle, e, t) same
      | inr t ↦ rw (write_to_handle, e, t) done
    ]
  ]

  pub truncate_cases :
      (n : ℕ) → P (set_handle fh (resize_handle n) m) → P (truncate_handle fh n m).0
  unfolding truncate_handle
  truncate_cases n done = elim (Bool-cases (ltb max_buffer n)) [
    | inl t ↦ rw (truncate_handle, t) same
    | inr t ↦ elim (Option-cases (lookup fh m.handles)) [
      | inl e ↦ rw (truncate_handle, t, e) same
      | inr (h, e) ↦ rw (truncate_handle, t, e) done
    ]
  ]

  pub commit_cases :
      (b : Bytes) → P (set_handle fh (commit_buffer b) m) → P (truncate_handle_committed fh b m).0
  unfolding truncate_handle_committed
  commit_cases b done = elim (Option-cases (lookup fh m.handles)) [
    | inl e ↦ rw (truncate_handle_committed, e) same
    | inr (h, e) ↦ rw (truncate_handle_committed, e) done
  ]

Keeps-publish : (b : Bytes) → Keeps (publish_buffer b)
Keeps-publish b h = ground arith

-- One call keeps the counts right, as long as handle numbers do not wrap.
pub step-IsConsistent :
    (c : Call) (m : FuseStateManager)
    → m.next_fh + 1 < 2 ^ 64
    → IsConsistent m
    → IsConsistent (step c m)
unfolding step handles_of
step-IsConsistent (allocates ino i flags b) m big v = allocate-IsConsistent ino i flags b m big v
step-IsConsistent (publishes fh b) m big v =
    publish_cases IsConsistent fh m v b (set_handle-IsConsistent _ (Keeps-publish b) m fh v)
step-IsConsistent (writes fh offset b) m big v =
    write_cases IsConsistent fh m v offset b (set_handle-IsConsistent _ (λ h. (refl, refl)) m fh v)
step-IsConsistent (truncates fh n) m big v =
    truncate_cases IsConsistent fh m v n (set_handle-IsConsistent _ (λ h. (refl, refl)) m fh v)
step-IsConsistent (truncates_inode i n) m big v =
    unfold truncate_inode_handles in
    for_inode-IsConsistent (resize_handle n) (λ h. (refl, refl)) m i v
step-IsConsistent (replaces_inode i b) m big v =
    unfold truncate_inode_handles_with_data in for_inode-IsConsistent _ (λ h. (refl, refl)) m i v
step-IsConsistent (commits_inode i b) m big v =
    unfold truncate_inode_handles_committed in
    for_inode-IsConsistent (commit_buffer b) (λ h. (refl, refl)) m i v
step-IsConsistent (commits fh b) m big v =
    commit_cases IsConsistent fh m v b (set_handle-IsConsistent _ (λ h. (refl, refl)) m fh v)
step-IsConsistent (stores_ast fh nodes) m big v =
    unfold store_ast_nodes in set_handle-IsConsistent _ (λ h. (refl, refl)) m fh v
step-IsConsistent (closes fh) m big v = close-IsConsistent fh m v
step-IsConsistent (marks i) m big v = mark-IsConsistent i m v
step-IsConsistent (caches ino id) m big v =
    unfold cache_ino_mapping open_fd_count in
    record {
      distinct = v.distinct;
      numbered = v.numbered;
      counted = v.counted;
      occupied = v.occupied;
      room = v.room;
      small = v.small;
    }

pub next_fh-step : (c : Call) (m : FuseStateManager) → (step c m).next_fh ≤ m.next_fh + 1
unfolding step
next_fh-step (allocates ino i flags b) m = unfold allocate_fh in omega arith
next_fh-step (publishes fh b) m =
    publish_cases (λ q. q.next_fh ≤ m.next_fh + 1) fh m (omega arith) b (omega arith)
next_fh-step (writes fh offset b) m =
    write_cases (λ q. q.next_fh ≤ m.next_fh + 1) fh m (omega arith) offset b (omega arith)
next_fh-step (truncates fh n) m =
    truncate_cases (λ q. q.next_fh ≤ m.next_fh + 1) fh m (omega arith) n (omega arith)
next_fh-step (truncates_inode i n) m = unfold truncate_inode_handles in omega arith
next_fh-step (replaces_inode i b) m = unfold truncate_inode_handles_with_data in omega arith
next_fh-step (commits_inode i b) m = unfold truncate_inode_handles_committed in omega arith
next_fh-step (commits fh b) m =
    commit_cases (λ q. q.next_fh ≤ m.next_fh + 1) fh m (omega arith) b (omega arith)
next_fh-step (stores_ast fh nodes) m = unfold store_ast_nodes in omega arith
next_fh-step (closes fh) m = unfold close_handle in ground arith
next_fh-step (marks i) m = unfold mark_for_deletion in ground arith
next_fh-step (caches ino id) m = unfold cache_ino_mapping in omega arith

pub run-IsConsistent :
    (cs : List Call) (m : FuseStateManager)
    → m.next_fh + length cs < 2 ^ 64
    → IsConsistent m
    → IsConsistent (run cs m)
unfolding run
run-IsConsistent [] m big v = v
run-IsConsistent (c ∷ cs) m big v =
    run-IsConsistent cs (step c m) (omega (arith, next_fh-step c m))
      (step-IsConsistent c m (omega arith) v)

-- After any history of fewer than 2^64 - 1 calls on a new manager, handle numbers are unique and
-- below the next one, the descriptor count of every inode is the number of its open handles, and
-- an inode has an entry only while a handle of it is open.
pub run-new-IsConsistent : (cs : List Call) → length cs + 1 < 2 ^ 64 → IsConsistent (run cs new)
run-new-IsConsistent cs big = run-IsConsistent cs new (omega arith) new-IsConsistent
