-- ===== src/Fuse/Setattr.antt =====
-- The callback that changes attributes, truncation included: `setattr`
-- (crates/smartfs-fuse/src/fs.rs).
use smartfs.Base.{
  ℕ, ◌+◌, ◌*◌, ◌/◌, ◌%◌, Bool, true, false, not, ◌||◌, Option, none, some, [], Bytes, length, ltb,
  nat_eq, ◌==◌, if◌then◌else◌, is_some,
}
use smartfs.Schema.Error.{SmartFsError, Result, ok, err, efbig, ◌>>=◌}
use smartfs.Db.Models.{Db, Inode, Env}
use smartfs.Db.Versions.{or_else}
use smartfs.Db.Inodes.{inode_update_attrs, inode_set_times}
use smartfs.Handles.{
  FuseStateManager, open_fd_count, truncate_handle, truncate_inode_handles,
  truncate_inode_handles_with_data, truncate_handle_committed, truncate_inode_handles_committed,
}
use smartfs.Handles.Buffer.{max_buffer, resize}
use smartfs.Pipeline.{view_of}
use smartfs.Attributes.{FileAttr, inode_to_file_attr}
use smartfs.Fuse.{
  Mount, Reply, reply, error, answer, Codec, db_of, with_db, with_state, find_by_ino, record_of,
  current_blob, blob_bytes,
}
use smartfs.Fuse.Writes.{
  WriteIds, marker_of, submit_marker, draw_seq, store_shared, generic_type, no_nodes,
}
use smartfs.Fuse.Lookups.{some_size}

pub data TimeOrNow : Type 0 where
  now : TimeOrNow
  specific_time : ℕ → TimeOrNow

-- What is asked for; `none` leaves an attribute as it is.
pub record Changes : Type 0 where
  pub mode : Option ℕ
  pub uid : Option ℕ
  pub gid : Option ℕ
  pub size : Option ℕ
  pub atime : Option TimeOrNow
  pub mtime : Option TimeOrNow

abbrev pub to_utc : Env → Option TimeOrNow → Option ℕ
to_utc env none = none
to_utc env (some now) = some env.now
to_utc env (some (specific_time t)) = some t

-- The bits `S_IFMT` of the old mode stay.
abbrev pub new_mode : ℕ → Option ℕ → Option ℕ
new_mode old none = none
new_mode old (some m) = some (old / 4096 % 16 * 4096 + m % 4096)

-- The mode that a marker carries.
abbrev pub marker_mode : ℕ → Option ℕ → ℕ
marker_mode old none = old
marker_mode old (some m) = m % 4096

-- The size that the file has, with an acknowledged write counted.
unfoldable pub current_size : Mount → ℕ × Inode → ℕ
current_size m (id, i) = elim (view_of id m.pipe) [ none ↦ i.size | some v ↦ v.size ]

abbrev is_absent : Option ℕ → Bool
is_absent none = true
is_absent (some b) = false

module _ (codec : Codec) where
  -- The file's bytes, cut or padded with zeros.
  unfoldable pub resized : Env → ℕ → ℕ × Inode → Mount → Result Bytes
  resized env n row m =
      if n == 0
      then ok []
      else do bytes ← blob_bytes codec env (current_blob m row) m; ok (resize n bytes)

  abbrev replaced : ℕ → Mount → Result Bytes → Mount × Result (Option Bytes)
  replaced id m (err e) = (m, err e)
  replaced id m (ok bytes) =
      (with_state (truncate_inode_handles_with_data id bytes m.state) m, ok none)

  -- The file is open: its buffers change, and nothing is committed.
  unfoldable pub truncate_open :
      Env → ℕ → Option ℕ → ℕ × Inode → Mount → Mount × Result (Option Bytes)
  truncate_open env n fh row m =
      if n == 0
      then elim fh [
        | some h ↦ (with_state (truncate_handle h 0 m.state).0 m, ok none)
        | none ↦ (with_state (truncate_inode_handles row.0 0 m.state) m, ok none)
      ]
      else replaced row.0 m (resized env n row m)

  abbrev truncation_queued : Bytes → Mount × Result (Unit {0}) → Mount × Result (Option Bytes)
  truncation_queued bytes (m, err e) = (m, err e)
  truncation_queued bytes (m, ok _) = (m, ok (some bytes))

  abbrev truncation_stored :
      Option SmartFsError
      → WriteIds
      → Changes
      → ℕ × Inode
      → Bytes
      → Mount × Result (ℕ × Option ℕ)
      → Mount × Result (Option Bytes)
  truncation_stored fault ids c row bytes (m, err e) = (m, err e)
  truncation_stored fault ids c row bytes (m, ok blob) =
      let (n, seq) = draw_seq m in
      truncation_queued bytes (
        submit_marker fault
          (marker_of seq row ids (record {
            content_hash = codec.hash_bytes bytes;
            blob_id = blob.0;
            size = length bytes;
            compressed_size = blob.1;
            shared = true;
            mode = marker_mode row.1.mode c.mode;
            uid = or_else c.uid row.1.uid;
            gid = or_else c.gid row.1.gid;
            special_type = generic_type;
            ast_nodes = no_nodes;
          }))
          n)

  abbrev truncation_of :
      Env
      → Option SmartFsError
      → WriteIds
      → Changes
      → ℕ × Inode
      → Mount
      → Result Bytes
      → Mount × Result (Option Bytes)
  truncation_of env fault ids c row m (err e) = (m, err e)
  truncation_of env fault ids c row m (ok bytes) =
      truncation_stored fault ids c row bytes
        (store_shared codec env row.1.compression_level row.1.backend_id bytes ids.blob_id m)

  -- The file is not open: a truncation is a write of its own, and gives its bytes.
  unfoldable pub truncate_closed :
      Env
      → Option SmartFsError
      → WriteIds
      → Changes
      → ℕ
      → ℕ × Inode
      → Mount
      → Mount × Result (Option Bytes)
  truncate_closed env fault ids c n row m =
      if not (n == current_size m row) || is_absent row.1.current_blob_id
      then truncation_of env fault ids c row m (resized env n row m)
      else (m, ok none)

  unfoldable pub truncate :
      Env
      → Option SmartFsError
      → WriteIds
      → Changes
      → Option ℕ
      → ℕ × Inode
      → Mount
      → Mount × Result (Option Bytes)
  truncate env fault ids c fh row m = elim c.size [
    | none ↦ (m, ok none)
    | some n ↦
        if is_some fh || ltb 0 (open_fd_count row.0 m.state)
        then truncate_open env n fh row m
        else truncate_closed env fault ids c n row m
  ]

  -- The times, if any is given.
  unfoldable pub change_times : Env → Changes → ℕ → Db → Result Db
  change_times env c id d = if not (is_some c.atime || is_some c.mtime) then ok d else do
    changed ← inode_set_times env id (to_utc env c.atime) (to_utc env c.mtime) d
    ok changed.1

  unfoldable pub change_attrs : Env → Changes → ℕ × Inode → Db → Result ((ℕ × Inode) × Db)
  change_attrs env c (id, i) d =
      inode_update_attrs env id c.uid c.gid (new_mode i.mode c.mode) none d

  abbrev attrs_changed :
      Option Bytes → Mount → Result ((ℕ × Inode) × Db) → Mount × Result ((ℕ × Inode) × Option Bytes)
  attrs_changed bytes m (err e) = (m, err e)
  attrs_changed bytes m (ok (row, d)) = (with_db d m, ok (row, bytes))

  abbrev times_changed :
      Env
      → Changes
      → ℕ × Inode
      → Option Bytes
      → Mount
      → Result Db
      → Mount × Result ((ℕ × Inode) × Option Bytes)
  times_changed env c row bytes m (err e) = (m, err e)
  times_changed env c row bytes m (ok d) =
      attrs_changed bytes (with_db d m) (change_attrs env c row d)

  abbrev truncated :
      Env
      → Changes
      → ℕ × Inode
      → Mount × Result (Option Bytes)
      → Mount × Result ((ℕ × Inode) × Option Bytes)
  truncated env c row (m, err e) = (m, err e)
  truncated env c row (m, ok bytes) =
      times_changed env c row bytes m (change_times env c row.0 (db_of m))

  abbrev commit_handle_bytes : Option ℕ → Bytes → FuseStateManager → FuseStateManager
  commit_handle_bytes none bytes s = s
  commit_handle_bytes (some fh) bytes s = (truncate_handle_committed fh bytes s).0

  abbrev commit_bytes : Option ℕ → ℕ → Option Bytes → FuseStateManager → FuseStateManager
  commit_bytes fh id none s = s
  commit_bytes fh id (some bytes) s =
      truncate_inode_handles_committed id bytes (commit_handle_bytes fh bytes s)

  abbrev setattr_reply :
      Changes → Option ℕ → Mount × Result ((ℕ × Inode) × Option Bytes) → Mount × Reply FileAttr
  setattr_reply c fh (m, err e) = (m, answer (err e))
  setattr_reply c fh (m, ok (row, bytes)) = (
    with_state (commit_bytes fh row.0 bytes m.state) m,
    reply (some_size c.size (inode_to_file_attr (record_of row.1))),
  )

  abbrev setattr_row :
      Env
      → Option SmartFsError
      → WriteIds
      → Changes
      → Option ℕ
      → Mount
      → Result (ℕ × Inode)
      → Mount × Reply FileAttr
  setattr_row env fault ids c fh m (err e) = (m, answer (err e))
  setattr_row env fault ids c fh m (ok row) =
      setattr_reply c fh (truncated env c row (truncate env fault ids c fh row m))

  abbrev pub too_big : Option ℕ → Bool
  too_big none = false
  too_big (some n) = ltb max_buffer n

  unfoldable pub setattr :
      Env → Option SmartFsError → WriteIds → ℕ → Changes → Option ℕ → Mount → Mount × Reply FileAttr
  setattr env fault ids ino c fh m =
      if too_big c.size
      then (m, error efbig)
      else setattr_row env fault ids c fh m (find_by_ino env ino m)
