-- ===== src/Fuse/Writes.antt =====
-- What the callbacks that write content share: the marker of a write, and the storing of bytes under
-- the deduplicated blob of their hash (crates/smartfs-fuse/src/fs.rs, `setattr`, `symlink` and
-- `release`).
use smartfs.Base.{
  ℕ, Bool, Option, none, some, [], ◌∷◌, Bytes, length, nat_eq, if◌then◌else◌, lookup, insert,
}
use smartfs.Schema.Error.{SmartFsError, io, Result, ok, err}
use smartfs.Schema.Marker.{PendingMarker}
use smartfs.Db.Models.{
  Db, Inode, Env, BlobInsertResult, exists, put, delete_blob_rows, update_blob_rows,
}
use smartfs.Db.Inventory.{insert_blob, compensate_blob_delete, update_blob_compressed_size}
use smartfs.Pipeline.{Pipeline, submit, next_seq}
use smartfs.Fuse.{Mount, Codec, db_of, with_db, with_blobs, with_pipe}

-- What a write draws: two `Uuid::new_v4()` and the time as text.
pub record WriteIds : Type 0 where
  pub blob_id : ℕ
  pub version_id : ℕ
  pub created_at : Bytes

-- "generic"
abbrev pub generic_type : Bytes
generic_type = b'g' ∷ b'e' ∷ b'n' ∷ b'e' ∷ b'r' ∷ b'i' ∷ b'c' ∷ []

-- The text of an empty JSON array.
abbrev pub no_nodes : Bytes
no_nodes = b'[' ∷ b']' ∷ []

-- The fields of a marker that the callers give each their way.
pub record Write : Type 0 where
  pub content_hash : Bytes
  pub blob_id : ℕ
  pub size : ℕ
  pub compressed_size : Option ℕ
  pub shared : Bool
  pub mode : ℕ
  pub uid : ℕ
  pub gid : ℕ
  pub special_type : Bytes
  pub ast_nodes : Bytes

unfoldable pub marker_of : ℕ → ℕ × Inode → WriteIds → Write → PendingMarker
marker_of seq (id, i) ids w = record {
  seq = seq;
  inode_id = id;
  parent_inode = i.parent_id;
  name = i.name;
  version_id = ids.version_id;
  content_hash = w.content_hash;
  blob_id = some w.blob_id;
  size = w.size;
  compressed_size = w.compressed_size;
  shared = w.shared;
  external_path = none;
  mode = w.mode;
  uid = w.uid;
  gid = w.gid;
  special_type = some w.special_type;
  special_data = none;
  ast_nodes = w.ast_nodes;
  created_at = ids.created_at;
}

abbrev submitted : Mount → Pipeline × Result (Unit {0}) → Mount × Result (Unit {0})
submitted m (p, r) = (with_pipe p m, r)

-- `pending.submit(&marker)`; the fault is that of the queue's directory.
unfoldable pub submit_marker :
    Option SmartFsError → PendingMarker → Mount → Mount × Result (Unit {0})
submit_marker fault marker m = submitted m (submit fault marker m.pipe)

-- `pending.next_seq()`
unfoldable pub draw_seq : Mount → Mount × ℕ
draw_seq m = let (p, seq) = next_seq m.pipe in (with_pipe p m, seq)

-- `store.put`
unfoldable pub store_put : Env → ℕ → Bytes → Mount → Mount × Result (Unit {0})
store_put env blob_id bytes m =
    if env.store_fails put
    then (m, err (io none))
    else (with_blobs (insert blob_id bytes m.pipe.world.blobs) m, ok tt)

module _ (codec : Codec) where
  -- `compensate_blob_delete`, whose failure is ignored.
  unfoldable pub compensate : Env → Bytes → Mount → Mount
  compensate env hash m =
      with_db (compensate_blob_delete (env.sql_fails delete_blob_rows) hash (db_of m)).0 m

  abbrev pub note_compressed : Env → Bytes → Bytes → ℕ → Mount → Mount × Result (ℕ × Option ℕ)
  note_compressed env hash compressed blob_id m = (
    with_db
        (update_blob_compressed_size (env.sql_fails update_blob_rows) hash (length compressed)
          (db_of m)).0
        m,
    ok (blob_id, some (length compressed)),
  )

  abbrev pub put_compressed : Env → Bytes → ℕ → Mount → Result Bytes → Mount × Result (ℕ × Option ℕ)
  put_compressed env hash blob_id m (err e) = (compensate env hash m, err e)
  put_compressed env hash blob_id m (ok compressed) = elim (store_put env blob_id compressed m).1 [
    | err e ↦ (compensate env hash m, err e)
    | ok _ ↦ note_compressed env hash compressed blob_id (store_put env blob_id compressed m).0
  ]

  abbrev pub put_quietly : Env → ℕ → Mount → Result Bytes → Mount
  put_quietly env blob_id m (err e) = m
  put_quietly env blob_id m (ok compressed) = (store_put env blob_id compressed m).0

  -- The content is there already: its bytes are written again if they are missing.
  unfoldable pub restore_bytes : Env → ℕ → Bytes → ℕ → Mount → Mount
  restore_bytes env level bytes blob_id m =
      if env.store_fails exists then m else elim (lookup blob_id m.pipe.world.blobs) [
        | some _ ↦ m
        | none ↦ put_quietly env blob_id m (codec.compress level bytes)
      ]

  abbrev pub store_row :
      Env → ℕ → Bytes → Mount → Db × Result BlobInsertResult → Mount × Result (ℕ × Option ℕ)
  store_row env level bytes m (d, err e) = (with_db d m, err e)
  store_row env level bytes m (d, ok r) =
      if r.inserted
      then put_compressed env (codec.hash_bytes bytes) r.blob_id (with_db d m)
          (codec.compress level bytes)
      else (restore_bytes env level bytes r.blob_id (with_db d m), ok (r.blob_id, none))

  -- The row of the hash first, then the bytes: the blob's id and, if it is new, its compressed size.
  unfoldable pub store_shared :
      Env → ℕ → Option ℕ → Bytes → ℕ → Mount → Mount × Result (ℕ × Option ℕ)
  store_shared env level backend bytes blob_id m =
      store_row env level bytes m
        (insert_blob env (codec.hash_bytes bytes) blob_id backend (length bytes) (db_of m))
