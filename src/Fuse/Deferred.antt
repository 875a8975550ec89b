-- ===== src/Fuse/Deferred.antt =====
-- The removal of a file that is open (crates/smartfs-fuse/src/fs.rs, `unlink`, `release`, `lookup`
-- and `create`).
use smartfs.Base.{
  ℕ, ◌+◌, ◌≡◌, ◌≢◌, Bool, true, false, Option, some, List, Bytes, lookup, lookup-insert_self,
  lookup-remove_self, nat_eq, arith, inl, inr, Bool-cases, Option-cases, ap, ◌∙◌,
}
use smartfs.Schema.Error.{SmartFsError, ok, err, Result-cases, db, eio, enoent, error_to_errno}
use smartfs.Db.Models.{Inode, Env, AstNodeInsert, delete_inode, select_inode}
use smartfs.Db.Inodes.{
  Drawn, delete_row, inode_delete, inode_create, inode_create_with_rdev, find_entry, admits_entry,
  inode_lookup,
}
use smartfs.Handles.{
  OpenHandle, FuseStateManager, InodeState, or_default, close_handle, close_inode,
  mark_for_deletion, is_marked_for_deletion, open_fd_count,
}
use smartfs.Fuse.{
  Mount, reply, error, answer, Codec, with_state, db_of, check_name, parent_of, attr_of,
}
use smartfs.Fuse.Writes.{WriteIds}
use smartfs.Fuse.Io.{release, commit_handle, delete_deferred}
use smartfs.Fuse.Lookups.{lookup as lookup_entry, find_child}
use smartfs.Fuse.Creates.{Caller, create, created, s_ifreg, permissions}
use smartfs.Fuse.Removes.{unlink, find_entry_of, delete_or_mark}
use smartfs.Fuse.Frame.{commit_handle-KeepsFiles, parent_of-KeepsTables}

-- The close of an inode's last descriptor forgets its mark.
close_forgets :
    (fh : ℕ) (m s : FuseStateManager) (h : OpenHandle)
    → close_handle fh m ≡ (s, some (h, true))
    → is_marked_for_deletion h.inode_id s ≡ false
unfolding close_handle close_inode is_marked_for_deletion
close_forgets fh m s h e = elim (Option-cases (lookup fh m.handles)) [
  | inl f ↦ ground (arith, e, f)
  | inr (g, f) ↦ elim (Option-cases (lookup g.inode_id m.inodes)) [
    | inl k ↦ ground (arith, e, f, k)
    | inr (x, k) ↦ ground (arith, e, f, k, lookup-remove_self g.inode_id m.inodes)
  ]
]

module _ (codec : Codec) (nodes_text : List AstNodeInsert → Bytes) (env : Env)
    (fault : Option SmartFsError) (ids : WriteIds) (fh : ℕ) (m q : Mount) (s : FuseStateManager)
    (h : OpenHandle) where
  -- The last close of a file that was unlinked deletes its row, if the database takes the deletion
  -- and the close is acknowledged.
  pub release_deletes :
      close_handle fh m.state ≡ (s, some (h, true))
      → env.sql_fails delete_inode ≡ false
      → release codec nodes_text env fault ids fh m ≡ (q, reply tt)
      → db_of q ≡ delete_row h.inode_id (db_of m)
  unfolding release delete_deferred inode_delete answer
  release_deletes closed up done =
      let k = commit_handle-KeepsFiles codec nodes_text env fault ids h (with_state s m) in
      elim (Result-cases (commit_handle codec nodes_text env fault ids h (with_state s m)).1) [
        | inl (x, e) ↦ ground (arith, closed, done, e)
        | inr (u, e) ↦ ground (arith, closed, up, done, e, k.db)
      ]

  refused_release :
      (e : ℕ)
      → close_handle fh m.state ≡ (s, some (h, true))
      → release codec nodes_text env fault ids fh m ≡ (q, error e)
      → (db_of q ≡ db_of m) × (q.state ≡ s)
  unfolding release
  refused_release x closed done =
      let k = commit_handle-KeepsFiles codec nodes_text env fault ids h (with_state s m) in
      elim (Result-cases (commit_handle codec nodes_text env fault ids h (with_state s m)).1) [
        | inl (y, e) ↦
            (ground (arith, closed, done, e, k.db), ground (arith, closed, done, e, k.state))
        | inr (u, e) ↦ ground (arith, closed, done, e)
      ]

marks_of :
    (id : ℕ) (s t : FuseStateManager)
    → s.inodes ≡ t.inodes
    → is_marked_for_deletion id s ≡ is_marked_for_deletion id t
unfolding is_marked_for_deletion
marks_of id s t e = ground (arith, e)

same_child :
    (env : Env) (parent_id : ℕ) (name : Bytes) (m q : Mount)
    → db_of q ≡ db_of m
    → find_child env parent_id name q ≡ find_child env parent_id name m
unfolding find_child
same_child env parent_id name m q e = ground (arith, e)

-- A name that is found cannot be given to a new row.
name_taken :
    (env : Env) (p : ℕ) (name : Bytes) (q : Mount) (id : ℕ) (i : Inode) (drawn : Drawn)
    (is_dir : Bool) (uid gid mode : ℕ)
    → find_child env p name q ≡ ok (id, i)
    → inode_create env drawn (some p) name is_dir uid gid mode (db_of q) ≡ err db
unfolding inode_create inode_create_with_rdev find_child inode_lookup admits_entry
name_taken env p name q id i drawn is_dir uid gid mode found =
    elim (Bool-cases (env.sql_fails select_inode)) [
      | inl e ↦ ground (arith, e, found)
      | inr e ↦ elim (Option-cases (find_entry (some p) name (db_of q))) [
        | inl f ↦ ground (arith, e, f, found)
        | inr (row, f) ↦ ground (arith, e, f)
      ]
    ]

module _ (later : Env) (parent p : ℕ) (name : Bytes) (q r : Mount) (id : ℕ) (i : Inode)
    (looked : parent_of later parent q ≡ (r, ok p)) (short : check_name (some name) ≡ reply name)
    (found : find_child later p name q ≡ ok (id, i)) where
  at_parent :
      (db_of r ≡ db_of q) × (is_marked_for_deletion id r.state ≡ is_marked_for_deletion id q.state)
  at_parent =
      let k = parent_of-KeepsTables later parent q in
      (
        ground (arith, looked, k.pipe),
        marks_of id r.state q.state (ground (arith, looked, k.inodes)),
      )

  lookup_unmarked :
      is_marked_for_deletion id q.state ≡ false
      → (lookup_entry later parent (some name) q).1 ≡ reply (attr_of r (id, i))
  unfolding lookup_entry
  lookup_unmarked e =
      ground (arith, looked, short, found, same_child later p name q r at_parent.0, at_parent.1, e)

  lookup_marked :
      is_marked_for_deletion id q.state ≡ true
      → (lookup_entry later parent (some name) q).1 ≡ error enoent
  unfolding lookup_entry answer error_to_errno
  lookup_marked e =
      ground (arith, looked, short, found, same_child later p name q r at_parent.0, at_parent.1, e)

  create_taken :
      (drawn : Drawn) (who : Caller) (mode flags : ℕ)
      → (create later drawn who parent (some name) mode flags q).1 ≡ error eio
  unfolding create answer error_to_errno created
  create_taken drawn who mode flags =
      let a = at_parent.0 in
      ground (
        arith,
        looked,
        short,
        a,
        name_taken later p name q id i drawn false who.uid who.gid (s_ifreg + permissions mode)
            found,
      )

module _ (codec : Codec) (nodes_text : List AstNodeInsert → Bytes) (env later : Env)
    (fault : Option SmartFsError) (ids : WriteIds) (fh : ℕ) (m q r : Mount) (s : FuseStateManager)
    (h : OpenHandle) (e parent p : ℕ) (name : Bytes) (i : Inode) where
  -- A file that was unlinked while it was open comes back if its last close is refused: the close
  -- forgets that the file was to be deleted and deletes nothing, so that a later lookup that finds
  -- the parent and the row answers with the file again.
  pub refused_release_resurrects :
      close_handle fh m.state ≡ (s, some (h, true))
      → release codec nodes_text env fault ids fh m ≡ (q, error e)
      → parent_of later parent q ≡ (r, ok p)
      → check_name (some name) ≡ reply name
      → find_child later p name m ≡ ok (h.inode_id, i)
      → (lookup_entry later parent (some name) q).1 ≡ reply (attr_of r (h.inode_id, i))
  refused_release_resurrects closed done looked short found =
      let x = refused_release codec nodes_text env fault ids fh m q s h e closed done in
      lookup_unmarked later parent p name q r h.inode_id i looked short
        (same_child later p name m q x.0 ∙ found)
        (ap (is_marked_for_deletion h.inode_id) x.1 ∙ close_forgets fh m.state s h closed)

module _ (env later : Env) (parent p id : ℕ) (name : Bytes) (i : Inode) (m q r : Mount) where
  -- The entry of an open file stays in the table once it is unlinked, and is marked.
  pub unlink_open :
      find_entry_of env parent name m ≡ ok (id, i)
      → open_fd_count id m.state ≢ 0
      → check_name (some name) ≡ reply name
      → unlink env parent (some name) m ≡ (q, reply tt)
      → (db_of q ≡ db_of m) × (is_marked_for_deletion id q.state ≡ true)
  unfolding unlink delete_or_mark mark_for_deletion open_fd_count is_marked_for_deletion
  unlink_open found busy short done =
      let s : InodeState = or_default (lookup id m.state.inodes) in
      (
        ground (arith, found, busy, short, done),
        ground (
          arith,
          found,
          busy,
          short,
          done,
          lookup-insert_self id (record s { marked_for_deletion = true }) m.state.inodes,
        ),
      )

  -- An open file that is unlinked is gone for a lookup, and yet its name cannot be used again while
  -- its row is there: a lookup that finds the parent answers ENOENT, and a creation under the same
  -- name is refused with EIO.
  pub unlinked_name_is_blocked :
      find_entry_of env parent name m ≡ ok (id, i)
      → open_fd_count id m.state ≢ 0
      → check_name (some name) ≡ reply name
      → unlink env parent (some name) m ≡ (q, reply tt)
      → parent_of later parent q ≡ (r, ok p)
      → find_child later p name m ≡ ok (id, i)
      → ((lookup_entry later parent (some name) q).1 ≡ error enoent)
        × ((drawn : Drawn) (who : Caller) (mode flags : ℕ)
            → (create later drawn who parent (some name) mode flags q).1 ≡ error eio)
  unlinked_name_is_blocked found busy short done looked below =
      let x = unlink_open found busy short done in
      let there = same_child later p name m q x.0 ∙ below in
      (
        lookup_marked later parent p name q r id i looked short there x.1,
        create_taken later parent p name q r id i looked short there,
      )
