-- ===== src/Fuse/Lookups.antt =====
-- The callbacks that find and describe files: `lookup`, `getattr`, `readdir`, `readlink`, `statfs`
-- (crates/smartfs-fuse/src/fs.rs).
use smartfs.Base.{
  ℕ, ◌+◌, ◌%◌, ◌^◌, not, Option, none, some, List, [], ◌∷◌, Bytes, length, take, drop, nat_eq, ◌==◌,
  if◌then◌else◌,
}
use smartfs.Schema.Error.{io, other, not_found, Result, ok, err, einval, ◌>>=◌}
use smartfs.Db.Models.{Inode, Env}
use smartfs.Db.Inodes.{inode_lookup, inode_get, inode_list_children}
use smartfs.Handles.{is_marked_for_deletion, get_handle, get_inode_buffer_len}
use smartfs.Attributes.{FileAttr, FileType, directory, file_type_of, type_bits}
use smartfs.Fuse.{
  Mount, Reply, reply, error, answer, Codec, db_of, check_name, or_not_found, find_by_ino, remember,
  parent_of, record_of, set_size, attr_of, current_blob, blob_bytes,
}

abbrev found_child : Mount → Result (ℕ × Inode) → Mount × Reply FileAttr
found_child m (err e) = (m, answer (err e))
found_child m (ok (id, i)) =
    if is_marked_for_deletion id m.state
    then (m, answer (err not_found))
    else (remember i.ino id m, reply (attr_of m (id, i)))

-- The entry of a directory, from the directory's id.
unfoldable pub find_child : Env → ℕ → Bytes → Mount → Result (ℕ × Inode)
find_child env parent_id name m = do
  found ← inode_lookup env (some parent_id) name (db_of m)
  or_not_found found

abbrev lookup_below : Env → Bytes → Mount × Result ℕ → Mount × Reply FileAttr
lookup_below env name (m, err e) = (m, answer (err e))
lookup_below env name (m, ok parent_id) = found_child m (find_child env parent_id name m)

abbrev lookup_name : Env → ℕ → Mount → Reply Bytes → Mount × Reply FileAttr
lookup_name env parent m (error e) = (m, error e)
lookup_name env parent m (reply name) = lookup_below env name (parent_of env parent m)

unfoldable pub lookup : Env → ℕ → Option Bytes → Mount → Mount × Reply FileAttr
lookup env parent name m = lookup_name env parent m (check_name name)

abbrev pub buffer_size : Option Bytes → FileAttr → FileAttr
buffer_size none a = a
buffer_size (some b) a = set_size (length b) a

abbrev pub some_size : Option ℕ → FileAttr → FileAttr
some_size none a = a
some_size (some n) a = set_size n a

-- The size of the buffer: of the handle that is given, or of any handle of the inode that has one.
unfoldable pub buffered_attr : Option ℕ → ℕ × Inode → Mount → FileAttr
buffered_attr none row m = some_size (get_inode_buffer_len row.0 m.state) (attr_of m row)
buffered_attr (some fh) row m = elim (get_handle fh m.state) [
  | none ↦ attr_of m row
  | some h ↦ buffer_size h.buffer (attr_of m row)
]

abbrev getattr_row : ℕ → Option ℕ → Mount → Result (ℕ × Inode) → Mount × Reply FileAttr
getattr_row ino fh m (err e) = (m, answer (err e))
getattr_row ino fh m (ok row) = (remember ino row.0 m, reply (buffered_attr fh row m))

unfoldable pub getattr : Env → ℕ → Option ℕ → Mount → Mount × Reply FileAttr
getattr env ino fh m = getattr_row ino fh m (find_by_ino env ino m)

-- An entry of a listing: the offset to go on from, the inode's number, its type and its name.
pub record DirEntry : Type 0 where
  pub offset : ℕ
  pub ino : ℕ
  pub kind : FileType
  pub name : Bytes

unfoldable pub listed_children : ℕ → List (ℕ × Inode) → List DirEntry
listed_children offset [] = []
listed_children offset ((id, i) ∷ rest) =
    record { offset = offset; ino = i.ino; kind = file_type_of (record_of i); name = i.name }
    ∷ listed_children (offset + 1) rest

unfoldable pub not_marked : Mount → List (ℕ × Inode) → List (ℕ × Inode)
not_marked m [] = []
not_marked m ((id, i) ∷ rest) =
    let more = not_marked m rest in
    if is_marked_for_deletion id m.state then more else (id, i) ∷ more

unfoldable pub parent_ino : Env → Inode → Mount → Result ℕ
parent_ino env i m = elim i.parent_id [
  | none ↦ ok 1
  | some p ↦
      if i.ino == 1
      then ok 1
      else do found ← inode_get env p (db_of m); parent ← or_not_found found; ok parent.1.ino
]

-- The whole listing, with `.` and `..` in front.
unfoldable pub all_entries : Env → ℕ → Mount → Result (List DirEntry)
all_entries env ino m = do
  row ← find_by_ino env ino m
  if not row.1.is_dir then err other else do
    up ← parent_ino env row.1 m
    children ← inode_list_children env (some row.0) (db_of m)
    ok (
        record { offset = 1; ino = ino; kind = directory; name = b'.' ∷ [] }
        ∷ record { offset = 2; ino = up; kind = directory; name = b'.' ∷ b'.' ∷ [] }
        ∷ listed_children 3 (not_marked m children))

-- The reply has room for a number of entries; `offset` is the value as a `usize`.
unfoldable pub readdir : Env → ℕ → (offset room : ℕ) → Mount → Reply (List DirEntry)
readdir env ino offset room m =
    answer do entries ← all_entries env ino m; ok (take room (drop offset entries))

module _ (codec : Codec) where
  -- `S_IFLNK` over 0o10000 is 10.
  unfoldable pub readlink : Env → ℕ → Mount → Reply Bytes
  readlink env ino m = answer do
    row ← find_by_ino env ino m
    if not (type_bits row.1.mode == 10)
        then err (io (some einval))
        else blob_bytes codec env (current_blob m row) m

-- What `statvfs` says of the blobs' directory, or the values if it fails.
pub record Statfs : Type 0 where
  pub blocks : ℕ
  pub bfree : ℕ
  pub bavail : ℕ
  pub files : ℕ
  pub ffree : ℕ
  pub bsize : ℕ
  pub namelen : ℕ
  pub frsize : ℕ

abbrev pub as_u32 : Statfs → Statfs
as_u32 s = record s {
  bsize = s.bsize % 2 ^ 32;
  namelen = s.namelen % 2 ^ 32;
  frsize = s.frsize % 2 ^ 32;
}

unfoldable pub statfs : Option Statfs → Reply Statfs
statfs (some s) = reply (as_u32 s)
statfs none = reply (record {
  blocks = 1000000;
  bfree = 500000;
  bavail = 500000;
  files = 100000;
  ffree = 50000;
  bsize = 4096;
  namelen = 255;
  frsize = 4096;
})
