-- ===== src/Fuse/Io.antt =====
-- The callbacks on open files: `open`, `read`, `write`, `flush` and `release`
-- (crates/smartfs-fuse/src/fs.rs).
use smartfs.Base.{
  ℕ, ◌+◌, ◌-◌, ◌%◌, ◌^◌, Bool, true, false, Option, none, some, List, [], Bytes, length, take, drop,
  min, leb, nat_eq, if◌then◌else◌,
}
use smartfs.Schema.Error.{SmartFsError, syntax_error, not_found, Result, ok, err, eacces, ◌>>=◌}
use smartfs.Schema.Marker.{PendingMarker}
use smartfs.Db.Models.{Db, Inode, Env, AstNodeInsert}
use smartfs.Db.Inodes.{inode_lookup_by_ino, inode_get, inode_delete, inode_touch_atime_relatime}
use smartfs.Handles.{
  FuseStateManager, OpenHandle, allocate_fh, get_handle, needs_buffer, set_buffer_if_absent,
  write_to_handle, store_ast_nodes, close_handle, is_marked_for_deletion,
}
use smartfs.Attributes.{Signed, pos, negsuc}
use smartfs.Fuse.{
  Mount, Reply, reply, error, answer, Codec, Checker, db_of, with_db, with_state, or_not_found,
  find_by_ino, remember, load_current_bytes,
}
use smartfs.Fuse.Writes.{WriteIds, marker_of, submit_marker, draw_seq, store_put, generic_type}

-- The inode to open: one that is marked is gone.
unfoldable pub find_open : Env → ℕ → Mount → Result (ℕ × Inode)
find_open env ino m = do
  row ← find_by_ino env ino m
  if is_marked_for_deletion row.0 m.state then err not_found else ok row

abbrev opened : ℕ → ℕ → Mount → Result (ℕ × Inode) → Mount × Reply ℕ
opened ino flags m (err e) = (m, answer (err e))
opened ino flags m (ok (id, i)) =
    let (s, fh) = allocate_fh ino id flags none (remember ino id m).state in
    (with_state s m, reply fh)

unfoldable pub open_file : Env → ℕ → ℕ → Mount → Mount × Reply ℕ
open_file env ino flags m = opened ino flags m (find_open env ino m)

abbrev noted : Mount → Result (Bool × Db) → Mount
noted m (err e) = m
noted m (ok (updated, d)) = with_db d m

-- `relatime`, of which a failure is logged. It is spawned, and is run here at its earliest.
unfoldable pub note_access : Env → ℕ → Mount → Mount
note_access env id m = noted m (inode_touch_atime_relatime env id (db_of m))

abbrev pub published : Mount → FuseStateManager × Result (Unit {0}) → Mount × Result (Unit {0})
published m (s, r) = (with_state s m, r)

-- The part of the bytes that a read asks for.
unfoldable pub slice : Signed → ℕ → Bytes → Bytes
slice (negsuc k) size bytes = []
slice (pos offset) size bytes =
    if leb (length bytes) offset
    then []
    else take (min (offset + size) (length bytes) - offset) (drop offset bytes)

module _ (codec : Codec) where
  abbrev publish_loaded : ℕ → Mount → Result Bytes → Mount × Result (Unit {0})
  publish_loaded fh m (err e) = (m, err e)
  publish_loaded fh m (ok bytes) = published m (set_buffer_if_absent fh bytes m.state)

  abbrev load_needed : Env → ℕ → ℕ → Mount → Result Bool → Mount × Result (Unit {0})
  load_needed env ino fh m (err e) = (m, err e)
  load_needed env ino fh m (ok false) = (m, ok tt)
  load_needed env ino fh m (ok true) = publish_loaded fh m (load_current_bytes codec env ino m)

  -- The buffer of a handle is filled with the file's current bytes, if it has none.
  unfoldable pub fill_buffer : Env → ℕ → ℕ → Mount → Mount × Result (Unit {0})
  fill_buffer env ino fh m = load_needed env ino fh m (needs_buffer fh m.state)

  abbrev accessed_by : Env → Option OpenHandle → Mount → Mount
  accessed_by env none m = m
  accessed_by env (some h) m = note_access env h.inode_id m

  abbrev pub buffer_of : Option OpenHandle → Option Bytes
  buffer_of none = none
  buffer_of (some h) = h.buffer

  abbrev read_filled : Env → ℕ → ℕ → Mount × Result (Unit {0}) → Mount × Result Bytes
  read_filled env ino fh (m, err e) = (m, err e)
  read_filled env ino fh (m, ok _) =
      let n = accessed_by env (get_handle fh m.state) m in
      elim (buffer_of (get_handle fh m.state)) [
        | some b ↦ (n, ok b)
        | none ↦ (n, load_current_bytes codec env ino n)
      ]

  -- The bytes that a read takes its part of.
  unfoldable pub bytes_to_read : Env → ℕ → ℕ → Mount → Mount × Result Bytes
  bytes_to_read env ino fh m = elim (buffer_of (get_handle fh m.state)) [
    | some b ↦ (m, ok b)
    | none ↦ read_filled env ino fh (fill_buffer env ino fh m)
  ]

  abbrev read_slice : Signed → ℕ → Mount × Result Bytes → Mount × Reply Bytes
  read_slice offset size (m, err e) = (m, answer (err e))
  read_slice offset size (m, ok bytes) = (m, reply (slice offset size bytes))

  unfoldable pub read : Env → ℕ → ℕ → Signed → ℕ → Mount → Mount × Reply Bytes
  read env ino fh offset size m = read_slice offset size (bytes_to_read env ino fh m)

  abbrev pub clamp : Signed → ℕ
  clamp (pos n) = n
  clamp (negsuc n) = 0

  abbrev wrote : Mount → FuseStateManager × Result ℕ → Mount × Reply ℕ
  wrote m (s, err e) = (with_state s m, answer (err e))
  wrote m (s, ok n) = (with_state s m, reply (n % 2 ^ 32))

  abbrev write_filled : ℕ → ℕ → Bytes → Mount × Result (Unit {0}) → Mount × Reply ℕ
  write_filled fh offset bytes (m, err e) = (m, answer (err e))
  write_filled fh offset bytes (m, ok _) = wrote m (write_to_handle fh offset bytes m.state)

  unfoldable pub write : Env → ℕ → ℕ → Signed → Bytes → Mount → Mount × Reply ℕ
  write env ino fh offset bytes m = write_filled fh (clamp offset) bytes (fill_buffer env ino fh m)

-- The name that a file is checked under; a file that cannot be found has the empty one.
abbrev pub name_or_empty : Result (Option (ℕ × Inode)) → Bytes
name_or_empty (err e) = []
name_or_empty (ok none) = []
name_or_empty (ok (some (id, i))) = i.name

module _ (checker : Checker) where
  abbrev checked : ℕ → Mount → Result (List AstNodeInsert) → Mount × Reply (Unit {0})
  checked fh m (ok nodes) = (with_state (store_ast_nodes fh nodes m.state) m, reply tt)
  checked fh m (err syntax_error) = (m, if m.force then reply tt else error eacces)
  checked fh m (err _) = (m, reply tt)

  abbrev flush_buffer : Env → ℕ → ℕ → Mount → Option Bytes → Mount × Reply (Unit {0})
  flush_buffer env ino fh m none = (m, reply tt)
  flush_buffer env ino fh m (some bytes) =
      checked fh m (checker.extract bytes (name_or_empty (inode_lookup_by_ino env ino (db_of m))))

  -- The content is checked, and nothing is stored.
  unfoldable pub flush : Env → ℕ → ℕ → Mount → Mount × Reply (Unit {0})
  flush env ino fh m = elim (get_handle fh m.state) [
    | none ↦ (m, reply tt)
    | some h ↦ if h.modified then flush_buffer env ino fh m h.buffer else (m, reply tt)
  ]

-- The inode of the handle, which may be gone.
unfoldable pub inode_of_handle : Env → OpenHandle → Mount → Result (ℕ × Inode)
inode_of_handle env h m = do found ← inode_get env h.inode_id (db_of m); or_not_found found

abbrev delete_quietly : Mount → Result Db → Mount
delete_quietly m (err e) = m
delete_quietly m (ok d) = with_db d m

-- A deletion that was put off is made now; its failure is ignored.
unfoldable pub delete_deferred : Env → Bool → ℕ → Mount → Mount
delete_deferred env should_delete id m =
    if should_delete then delete_quietly m (inode_delete env id (db_of m)) else m

module _ (codec : Codec) (nodes_text : List AstNodeInsert → Bytes) where
  -- The marker of a closed handle's bytes, which are in the store under a provisional id.
  unfoldable pub release_marker :
      ℕ → ℕ × Inode → WriteIds → OpenHandle → Bytes → Bytes → PendingMarker
  release_marker seq row ids h bytes compressed = marker_of seq row ids (record {
    content_hash = codec.hash_bytes bytes;
    blob_id = ids.blob_id;
    size = length bytes;
    compressed_size = some (length compressed);
    shared = row.1.dedup_enabled;
    mode = row.1.mode;
    uid = row.1.uid;
    gid = row.1.gid;
    special_type = generic_type;
    ast_nodes = nodes_text h.ast_nodes;
  })

  abbrev stored :
      Option SmartFsError → PendingMarker → Mount × Result (Unit {0}) → Mount × Result (Unit {0})
  stored fault marker (m, err e) = (m, err e)
  stored fault marker (m, ok _) = submit_marker fault marker m

  abbrev release_compressed :
      Env
      → Option SmartFsError
      → ℕ
      → ℕ × Inode
      → WriteIds
      → OpenHandle
      → Bytes
      → Mount
      → Result Bytes
      → Mount × Result (Unit {0})
  release_compressed env fault seq row ids h bytes m (err e) = (m, err e)
  release_compressed env fault seq row ids h bytes m (ok compressed) =
      stored fault (release_marker seq row ids h bytes compressed)
        (store_put env ids.blob_id compressed m)

  abbrev release_row :
      Env
      → Option SmartFsError
      → ℕ
      → WriteIds
      → OpenHandle
      → Bytes
      → Mount
      → Result (ℕ × Inode)
      → Mount × Result (Unit {0})
  release_row env fault seq ids h bytes m (err e) = (m, err e)
  release_row env fault seq ids h bytes m (ok row) =
      release_compressed env fault seq row ids h bytes m
        (codec.compress row.1.compression_level bytes)

  -- The bytes of a modified handle: stored, and a marker queued.
  unfoldable pub commit_bytes :
      Env → Option SmartFsError → WriteIds → OpenHandle → Bytes → Mount → Mount × Result (Unit {0})
  commit_bytes env fault ids h bytes m =
      let (n, seq) = draw_seq m in release_row env fault seq ids h bytes n (inode_of_handle env h n)

  unfoldable pub commit_handle :
      Env → Option SmartFsError → WriteIds → OpenHandle → Mount → Mount × Result (Unit {0})
  commit_handle env fault ids h m =
      if h.modified
      then elim h.buffer [ none ↦ (m, ok tt) | some bytes ↦ commit_bytes env fault ids h bytes m ]
      else (m, ok tt)

  abbrev released : Env → Bool → ℕ → Mount × Result (Unit {0}) → Mount × Reply (Unit {0})
  released env should_delete id (m, err e) = (m, answer (err e))
  released env should_delete id (m, ok _) = (delete_deferred env should_delete id m, reply tt)

  abbrev release_closed :
      Env
      → Option SmartFsError
      → WriteIds
      → Mount
      → FuseStateManager × Option (OpenHandle × Bool)
      → Mount × Reply (Unit {0})
  release_closed env fault ids m (s, none) = (with_state s m, reply tt)
  release_closed env fault ids m (s, some (h, should_delete)) =
      released env should_delete h.inode_id (commit_handle env fault ids h (with_state s m))

  unfoldable pub release :
      Env → Option SmartFsError → WriteIds → ℕ → Mount → Mount × Reply (Unit {0})
  release env fault ids fh m = release_closed env fault ids m (close_handle fh m.state)
