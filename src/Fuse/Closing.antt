-- ===== src/Fuse/Closing.antt =====
-- That what was written before a close is what is read after it (crates/smartfs-fuse/src/fs.rs,
-- `release`, then `read` through another handle).
use smartfs.Base.{
  ℕ, ◌≡◌, refl, Bool, true, false, Option, none, some, List, Bytes, lookup-modify, nat_eq, bytes_eq,
  arith, inl, inr, sym, ◌∙◌, subst,
}
use smartfs.Schema.Error.{SmartFsError, ok, err, Result-cases}
use smartfs.Db.Models.{Db, Inode, Env, AstNodeInsert, get}
use smartfs.Db.Inodes.{inode_delete}
use smartfs.Handles.{
  OpenHandle, FuseStateManager, close_handle, get_handle, needs_buffer, set_buffer_if_absent,
  publish_buffer,
}
use smartfs.Pipeline.{view_of}
use smartfs.Attributes.{Signed}
use smartfs.Fuse.{
  Mount, reply, answer, Codec, with_state, with_db, db_of, find_by_ino, blob_bytes,
  load_current_bytes, current_blob,
}
use smartfs.Fuse.Writes.{WriteIds}
use smartfs.Fuse.Io.{
  release, commit_bytes, commit_handle, delete_deferred, read, slice, bytes_to_read, fill_buffer,
}
use smartfs.Fuse.Elsewhere.{Elsewhere, IsShown, Elsewhere-IsShown}
use smartfs.Fuse.Releasing.{IsDurable, commit_bytes-IsDurable}

same_blobs :
    (codec : Codec) (n q : Mount) (later : Env) (blob : Option ℕ)
    → n.pipe.world.blobs ≡ q.pipe.world.blobs
    → blob_bytes codec later blob n ≡ blob_bytes codec later blob q
unfolding blob_bytes
same_blobs codec n q later none e = refl
same_blobs codec n q later (some k) e = rw e refl

-- What is durable does not depend on the database.
with_db-IsDurable :
    (codec : Codec) (id : ℕ) (bytes : Bytes) (d : Db) (q : Mount)
    → IsDurable codec id bytes q
    → IsDurable codec id bytes (with_db d q)
unfolding view_of
with_db-IsDurable codec id bytes d q x = record {
  marker = x.marker;
  queued = x.queued;
  visible = x.visible;
  inode = x.inode;
  hash = x.hash;
  size = x.size;
  content =
      λ later g. same_blobs codec (with_db d q) q later x.marker.blob_id refl ∙ x.content later g;
}

delete_deferred-IsDurable :
    (codec : Codec) (id inode_id : ℕ) (bytes : Bytes) (env : Env) (now : Bool) (q : Mount)
    → IsDurable codec id bytes q
    → IsDurable codec id bytes (delete_deferred env now inode_id q)
unfolding delete_deferred inode_delete
delete_deferred-IsDurable codec id inode_id bytes env false q x = x
delete_deferred-IsDurable codec id inode_id bytes env true q x =
    elim (Result-cases (inode_delete env inode_id (db_of q))) [
      | inl (y, e) ↦ rw (delete_deferred, e) x
      | inr (d, e) ↦ rw (delete_deferred, e) (with_db-IsDurable codec id bytes d q x)
    ]

module _ (codec : Codec) (nodes_text : List AstNodeInsert → Bytes) (env : Env)
    (fault : Option SmartFsError) (ids : WriteIds) (fh : ℕ) (m q : Mount) (s : FuseStateManager)
    (h : OpenHandle) (last : Bool) (bytes : Bytes)
    (closed : close_handle fh m.state ≡ (s, some (h, last))) (dirty : h.modified ≡ true)
    (held : h.buffer ≡ some bytes) (alive : m.pipe.alive ≡ true)
    (done : release codec nodes_text env fault ids fh m ≡ (q, reply tt)) where
  no_failure :
      (x : SmartFsError)
      → (commit_bytes codec nodes_text env fault ids h bytes (with_state s m)).1 ≡ err x
      → ⊥
  unfolding release commit_handle answer
  no_failure x e = ground (arith, closed, dirty, held, done, e)

  reached :
      (u : Unit {0})
      → (commit_bytes codec nodes_text env fault ids h bytes (with_state s m)).1 ≡ ok u
      → q
        ≡ delete_deferred env last h.inode_id
            (commit_bytes codec nodes_text env fault ids h bytes (with_state s m)).0
  unfolding release commit_handle
  reached u e = ground (arith, closed, dirty, held, done, e)

  pub release-IsDurable : IsDurable codec h.inode_id bytes q
  release-IsDurable =
      elim (Result-cases (commit_bytes codec nodes_text env fault ids h bytes (with_state s m)).1) [
        | inl (x, e) ↦ elim (no_failure x e) [ ]
        | inr (u, e) ↦ subst (IsDurable codec h.inode_id bytes) (sym (reached u e)) (
            delete_deferred-IsDurable codec h.inode_id h.inode_id bytes env last _ (
              commit_bytes-IsDurable codec nodes_text env fault ids h bytes (with_state s m) e
                alive))
      ]

durable-IsShown :
    (codec : Codec) (id : ℕ) (bytes : Bytes) (q : Mount)
    → IsDurable codec id bytes q
    → IsShown codec id bytes q.pipe
durable-IsShown codec id bytes q x = record {
  view = _;
  visible = x.visible;
  content = λ n later e up. same_blobs codec n q later x.marker.blob_id e ∙ x.content later up;
}

-- A reader that has no buffer yet.
module _ (codec : Codec) (bytes : Bytes) (n : Mount) (later : Env) (ino : ℕ) (row : ℕ × Inode)
    (shown : IsShown codec row.0 bytes n.pipe) (up : later.store_fails get ≡ false) where
  shown_load : find_by_ino later ino n ≡ ok row → load_current_bytes codec later ino n ≡ ok bytes
  unfolding load_current_bytes current_blob
  shown_load found =
      rw (load_current_bytes, found, current_blob, shown.visible) (shown.content n later refl up)

  shown_read :
      (fh : ℕ) (g : OpenHandle) (offset : Signed) (size : ℕ)
      → find_by_ino later ino n ≡ ok row
      → get_handle fh n.state ≡ some g
      → g.buffer ≡ none
      → (read codec later ino fh offset size n).1 ≡ reply (slice offset size bytes)
  unfolding get_handle read bytes_to_read fill_buffer needs_buffer set_buffer_if_absent
  shown_read fh g offset size found e f = ground (
    arith,
    e,
    f,
    shown_load found,
    lookup-modify (publish_buffer bytes) fh fh n.state.handles,
    nat_eq.beq_iff fh fh,
  )

module _ (codec : Codec) (nodes_text : List AstNodeInsert → Bytes) (env : Env)
    (fault : Option SmartFsError) (ids : WriteIds) (fh : ℕ) (m q : Mount) (s : FuseStateManager)
    (h : OpenHandle) (last : Bool) (bytes : Bytes) where
  -- A close of a modified handle that is acknowledged, while the drain runs, is read back: at every
  -- later mount, whatever its handles, as long as the drain commits nothing and nothing is submitted
  -- for the same inode, a handle of the file that has no buffer reads the closed handle's bytes, if the
  -- store answers. In between other inodes' submissions go through their parts in any order and with
  -- any outcome, scans requeue any names, blobs are put under ids that have none, tables change in any
  -- way, and the drain may stop.
  pub close_then_read :
      close_handle fh m.state ≡ (s, some (h, last))
      → h.modified ≡ true
      → h.buffer ≡ some bytes
      → m.pipe.alive ≡ true
      → release codec nodes_text env fault ids fh m ≡ (q, reply tt)
      → (n : Mount) → Elsewhere h.inode_id q.pipe n.pipe
      → (later : Env) (ino : ℕ) (row : ℕ × Inode) (k : ℕ) (g : OpenHandle) (offset : Signed)
        (size : ℕ)
      → later.store_fails get ≡ false
      → find_by_ino later ino n ≡ ok row
      → row.0 ≡ h.inode_id
      → get_handle k n.state ≡ some g
      → g.buffer ≡ none
      → (read codec later ino k offset size n).1 ≡ reply (slice offset size bytes)
  close_then_read closed dirty held alive done n between later ino row k g offset size up found same
        e f =
      shown_read codec bytes n later ino row
        (subst (λ id. IsShown codec id bytes n.pipe) (sym same)
          (Elsewhere-IsShown codec h.inode_id bytes between (
            durable-IsShown codec h.inode_id bytes q (
              release-IsDurable codec nodes_text env fault ids fh m q s h last bytes closed dirty
                held alive done))))
        up k g offset size found e f
