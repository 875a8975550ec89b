-- ===== src/Fuse/Creates.antt =====
-- The callbacks that make entries: `create`, `mkdir`, `mknod` and `symlink`
-- (crates/smartfs-fuse/src/fs.rs).
use smartfs.Base.{
  ℕ, ◌+◌, ◌*◌, ◌%◌, Bool, true, false, ◌||◌, Option, none, some, [], ◌∷◌, Bytes, length, ltb,
  nat_eq, ◌==◌, if◌then◌else◌,
}
use smartfs.Schema.Error.{SmartFsError, Result, ok, err, einval, enoent, enametoolong, ◌>>=◌}
use smartfs.Db.Models.{Db, Inode, Env}
use smartfs.Db.Inodes.{Drawn, inode_create, inode_create_with_rdev}
use smartfs.Handles.{allocate_fh}
use smartfs.Attributes.{FileAttr, symlink, type_bits}
use smartfs.Fuse.{
  Mount, Reply, reply, error, answer, Codec, db_of, with_db, with_state, check_name, find_by_ino,
  remember, parent_of, record_of, set_size,
}
use smartfs.Attributes.{inode_to_file_attr}
use smartfs.Fuse.Writes.{WriteIds, marker_of, submit_marker, draw_seq, store_shared, no_nodes}

-- Who asks (`req.uid()`, `req.gid()`).
pub record Caller : Type 0 where
  pub uid : ℕ
  pub gid : ℕ

-- The permission bits, `mode & 0o7777`.
abbrev pub permissions : ℕ → ℕ
permissions mode = mode % 4096

-- `S_IFREG`, `S_IFDIR` and `S_IFLNK`
abbrev pub s_ifreg : ℕ
s_ifreg = 8 * 4096

abbrev pub s_ifdir : ℕ
s_ifdir = 4 * 4096

abbrev pub s_iflnk : ℕ
s_iflnk = 10 * 4096

-- The row of an insertion that succeeds, remembered by its number.
unfoldable pub created : Mount → Result ((ℕ × Inode) × Db) → Mount × Result (ℕ × Inode)
created m (err e) = (m, err e)
created m (ok ((id, i), d)) = (remember i.ino id (with_db d m), ok (id, i))

abbrev create_below :
    Env → Drawn → Caller → Bytes → ℕ → Mount × Result ℕ → Mount × Result (ℕ × Inode)
create_below env drawn who name mode (m, err e) = (m, err e)
create_below env drawn who name mode (m, ok parent_id) = created m (
    inode_create env drawn (some parent_id) name false who.uid who.gid (s_ifreg + permissions mode)
      (db_of m))

-- A new file is open, with an empty buffer that counts as modified.
abbrev open_created : ℕ → Mount × Result (ℕ × Inode) → Mount × Reply (FileAttr × ℕ)
open_created flags (m, err e) = (m, answer (err e))
open_created flags (m, ok (id, i)) =
    let (s, fh) = allocate_fh i.ino id flags (some []) m.state in
    (with_state s m, reply (inode_to_file_attr (record_of i), fh))

abbrev create_name :
    Env → Drawn → Caller → ℕ → ℕ → ℕ → Mount → Reply Bytes → Mount × Reply (FileAttr × ℕ)
create_name env drawn who parent mode flags m (error e) = (m, error e)
create_name env drawn who parent mode flags m (reply name) =
    open_created flags (create_below env drawn who name mode (parent_of env parent m))

unfoldable pub create :
    Env
    → Drawn
    → Caller
    → ℕ
    → Option Bytes
    → (mode flags : ℕ) → Mount
    → Mount × Reply (FileAttr × ℕ)
create env drawn who parent name mode flags m =
    create_name env drawn who parent mode flags m (check_name name)

abbrev pub entry_of : Mount × Result (ℕ × Inode) → Mount × Reply FileAttr
entry_of (m, err e) = (m, answer (err e))
entry_of (m, ok (id, i)) = (m, reply (inode_to_file_attr (record_of i)))

-- A row below a parent that is found in the table.
unfoldable pub insert_below :
    Env → Drawn → Caller → ℕ → Bytes → Bool → (mode rdev : ℕ) → Mount → Result ((ℕ × Inode) × Db)
insert_below env drawn who parent name is_dir mode rdev m = do
  row ← find_by_ino env parent m
  inode_create_with_rdev env drawn (some row.0) name is_dir who.uid who.gid mode rdev (db_of m)

abbrev mkdir_name : Env → Drawn → Caller → ℕ → ℕ → Mount → Reply Bytes → Mount × Reply FileAttr
mkdir_name env drawn who parent mode m (error e) = (m, error e)
mkdir_name env drawn who parent mode m (reply name) =
    entry_of
      (created m (insert_below env drawn who parent name true (s_ifdir + permissions mode) 0 m))

unfoldable pub mkdir : Env → Drawn → Caller → ℕ → Option Bytes → ℕ → Mount → Mount × Reply FileAttr
mkdir env drawn who parent name mode m = mkdir_name env drawn who parent mode m (check_name name)

-- The type bits that `mknod` makes, over 0o10000: none given is a regular file.
unfoldable pub node_type : ℕ → Option ℕ
node_type bits =
    if bits == 0
    then some 8
    else if bits == 8 || bits == 1 || bits == 12 || bits == 2 || bits == 6
    then some bits
    else none

-- `rdev` counts for devices alone.
abbrev pub node_rdev : ℕ → ℕ → ℕ
node_rdev bits rdev = if bits == 2 || bits == 6 then rdev else 0

abbrev mknod_typed :
    Env → Drawn → Caller → ℕ → Bytes → (mode rdev : ℕ) → Mount → Option ℕ → Mount × Reply FileAttr
mknod_typed env drawn who parent name mode rdev m none = (m, error einval)
mknod_typed env drawn who parent name mode rdev m (some bits) = entry_of (
    created m (
      insert_below env drawn who parent name false (bits * 4096 + permissions mode)
        (node_rdev bits rdev) m))

abbrev mknod_name :
    Env → Drawn → Caller → ℕ → (mode rdev : ℕ) → Mount → Reply Bytes → Mount × Reply FileAttr
mknod_name env drawn who parent mode rdev m (error e) = (m, error e)
mknod_name env drawn who parent mode rdev m (reply name) =
    mknod_typed env drawn who parent name mode rdev m (node_type (type_bits mode))

unfoldable pub mknod :
    Env → Drawn → Caller → ℕ → Option Bytes → (mode rdev : ℕ) → Mount → Mount × Reply FileAttr
mknod env drawn who parent name mode rdev m =
    mknod_name env drawn who parent mode rdev m (check_name name)

-- "symlink"
abbrev symlink_type : Bytes
symlink_type = b's' ∷ b'y' ∷ b'm' ∷ b'l' ∷ b'i' ∷ b'n' ∷ b'k' ∷ []

module _ (codec : Codec) where
  abbrev link_submitted : ℕ × Inode → Mount × Result (Unit {0}) → Mount × Result (ℕ × Inode)
  link_submitted row (m, err e) = (m, err e)
  link_submitted row (m, ok _) = (remember row.1.ino row.0 m, ok row)

  -- The marker of a new link, whose row is in the table.
  unfoldable pub queue_link :
      Option SmartFsError
      → WriteIds
      → Bytes
      → ℕ × Option ℕ
      → Mount
      → Result ((ℕ × Inode) × Db)
      → Mount × Result (ℕ × Inode)
  queue_link fault ids target blob m (err e) = (m, err e)
  queue_link fault ids target blob m (ok (row, d)) =
      let (m', seq) = draw_seq (with_db d m) in
      link_submitted row (
        submit_marker fault
          (marker_of seq row ids (record {
            content_hash = codec.hash_bytes target;
            blob_id = blob.0;
            size = length target;
            compressed_size = blob.1;
            shared = true;
            mode = row.1.mode;
            uid = row.1.uid;
            gid = row.1.gid;
            special_type = symlink_type;
            ast_nodes = no_nodes;
          }))
          m')

  abbrev link_stored :
      Env
      → Option SmartFsError
      → Drawn
      → WriteIds
      → Caller
      → ℕ
      → Bytes
      → Bytes
      → Mount × Result (ℕ × Option ℕ)
      → Mount × Result (ℕ × Inode)
  link_stored env fault drawn ids who parent_id name target (m, err e) = (m, err e)
  link_stored env fault drawn ids who parent_id name target (m, ok blob) =
      queue_link fault ids target blob m (
        inode_create env drawn (some parent_id) name false who.uid who.gid (s_iflnk + 511)
          (db_of m))

  abbrev link_below :
      Env
      → Option SmartFsError
      → Drawn
      → WriteIds
      → Caller
      → Bytes
      → Bytes
      → Mount
      → Result (ℕ × Inode)
      → Mount × Result (ℕ × Inode)
  link_below env fault drawn ids who name target m (err e) = (m, err e)
  link_below env fault drawn ids who name target m (ok parent) =
      link_stored env fault drawn ids who parent.0 name target
        (store_shared codec env 1 none target ids.blob_id m)

  abbrev link_entry : ℕ → Mount × Result (ℕ × Inode) → Mount × Reply FileAttr
  link_entry size (m, err e) = (m, answer (err e))
  link_entry size (m, ok (id, i)) =
      (m, reply (set_size size (record (inode_to_file_attr (record_of i)) { kind = symlink })))

  abbrev symlink_name :
      Env
      → Option SmartFsError
      → Drawn
      → WriteIds
      → Caller
      → ℕ
      → Bytes
      → Mount
      → Reply Bytes
      → Mount × Reply FileAttr
  symlink_name env fault drawn ids who parent target m (error e) = (m, error e)
  symlink_name env fault drawn ids who parent target m (reply name) =
      if length target == 0
      then (m, error enoent)
      else if ltb 4096 (length target)
      then (m, error enametoolong)
      else link_entry (length target)
          (link_below env fault drawn ids who name target m (find_by_ino env parent m))

  unfoldable pub make_symlink :
      Env
      → Option SmartFsError
      → Drawn
      → WriteIds
      → Caller
      → ℕ
      → Option Bytes
      → Bytes
      → Mount
      → Mount × Reply FileAttr
  make_symlink env fault drawn ids who parent name target m =
      symlink_name env fault drawn ids who parent target m (check_name name)
