-- ===== src/Fuse.antt =====
-- The FUSE callbacks (crates/smartfs-fuse/src/fs.rs): the state of the mount, and what the callbacks
-- share. `fuser` is not modelled: a callback is a function from its arguments and the mount to the
-- mount and the reply. Futures run to their end inside a callback (`block_on`).
pub mod Lookups
pub mod Writes
pub mod Creates
pub mod Removes
pub mod Io
pub mod Setattr
pub mod Frame
pub mod Reading
pub mod Releasing
pub mod Elsewhere
pub mod Closing
pub mod Deferred
pub mod Unlinked
pub mod Listing
pub mod Naming
pub mod Checked
use smartfs.Base.{
  ℕ, ◌+◌, ◌-◌, ◌/◌, ◌^◌, Bool, true, false, Option, none, some, List, [], ◌∷◌, Bytes, length, ltb,
  nat_eq, ◌==◌, if◌then◌else◌, Map, lookup, insert, is_some, ◌≡◌,
}
use smartfs.Schema.Error.{
  SmartFsError, io, not_found, Result, ok, err, error_to_errno, einval, enametoolong, ◌>>=◌, ◌>>◌,
}
use smartfs.Db.Models.{Db, Inode, Env, AstNodeInsert, get}
use smartfs.Db.Inodes.{inode_lookup_by_ino}
use smartfs.Handles.{FuseStateManager, cache_ino_mapping, get_cached_id}
use smartfs.Pipeline.{Pipeline, view_of}
use smartfs.Attributes.{Signed, pos, negsuc, InodeRecord, FileAttr, inode_to_file_attr}

-- `SmartFsFuse`: the pool and the store are in the pipeline's world.
pub record Mount : Type 0 where
  pub pipe : Pipeline
  pub state : FuseStateManager
  pub force : Bool

-- What a callback answers: data, or an errno.
pub data Reply {ℓ} (A : Type ℓ) : Type ℓ where
  reply : A → Reply A
  error : ℕ → Reply A

unfoldable pub answer {ℓ} : {A : Type ℓ} → Result A → Reply A
unfolding error_to_errno
answer (ok a) = reply a
answer (err e) = error (error_to_errno e)

-- SHA-256 and zstd. Decompression undoes compression at any level.
pub record Codec : Type 0 where
  pub hash_bytes : Bytes → Bytes
  pub compress : ℕ → Bytes → Result Bytes
  pub decompress : Bytes → Result Bytes
  pub decompress-compress :
      (level : ℕ) (x y : Bytes) → compress level x ≡ ok y → decompress y ≡ ok x

-- The checks of a file's syntax by its name: whether there is one, and the nodes that it extracts.
pub record Checker : Type 0 where
  pub detects : Bytes → Bool
  pub extract : Bytes → Bytes → Result (List AstNodeInsert)

abbrev pub db_of : Mount → Db
db_of m = m.pipe.world.db

abbrev pub with_db : Db → Mount → Mount
with_db d m = record m { pipe = record m.pipe { world = record m.pipe.world { db = d } } }

abbrev pub with_blobs : Map ℕ Bytes → Mount → Mount
with_blobs b m = record m { pipe = record m.pipe { world = record m.pipe.world { blobs = b } } }

abbrev pub with_pipe : Pipeline → Mount → Mount
with_pipe p m = record m { pipe = p }

abbrev pub with_state : FuseStateManager → Mount → Mount
with_state s m = record m { state = s }

abbrev pub fuse_root_id : ℕ
fuse_root_id = 1

-- A name as `OsStr::to_str` gives it, `none` for bytes that are no UTF-8.
unfoldable pub check_name : Option Bytes → Reply Bytes
check_name none = error einval
check_name (some name) = if ltb 255 (length name) then error enametoolong else reply name

-- `.ok_or_else(|| NotFound)`
abbrev pub or_not_found {ℓ} : {A : Type ℓ} → Option A → Result A
or_not_found none = err not_found
or_not_found (some a) = ok a

unfoldable pub find_by_ino : Env → ℕ → Mount → Result (ℕ × Inode)
find_by_ino env ino m = do found ← inode_lookup_by_ino env ino (db_of m); or_not_found found

-- The number of an inode and its id are remembered.
unfoldable pub remember : ℕ → ℕ → Mount → Mount
remember ino id m = with_state (cache_ino_mapping ino id m.state) m

abbrev pub remembered : ℕ → Mount → Result (ℕ × Inode) → Mount × Result ℕ
remembered ino m (err e) = (m, err e)
remembered ino m (ok (id, i)) = (remember ino id m, ok id)

-- The parent of `lookup` and `create`: the root from the table, another from the cache if it is there.
unfoldable pub parent_of : Env → ℕ → Mount → Mount × Result ℕ
parent_of env parent m =
    if parent == fuse_root_id
    then remembered 1 m (find_by_ino env 1 m)
    else elim (get_cached_id parent m.state) [
      | some id ↦ (m, ok id)
      | none ↦ remembered parent m (find_by_ino env parent m)
    ]

-- The value of an `INT` column with these bits.
unfoldable pub signed_of : ℕ → Signed
signed_of n = if ltb n (2 ^ 31) then pos n else negsuc (2 ^ 32 - 1 - n)

unfoldable pub record_of : Inode → InodeRecord
record_of i = record {
  ino = pos i.ino;
  size = pos i.size;
  mode = signed_of i.mode;
  nlink = pos 1;
  uid = signed_of i.uid;
  gid = signed_of i.gid;
  rdev = pos i.rdev;
  is_dir = i.is_dir;
}

abbrev pub set_size : ℕ → FileAttr → FileAttr
set_size n a = record a { size = n; blocks = (n + 511) / 512 }

-- The attributes of a row, with the size of a write that is acknowledged and not yet committed.
unfoldable pub attr_of : Mount → ℕ × Inode → FileAttr
attr_of m (id, i) = elim (view_of id m.pipe) [
  | none ↦ inode_to_file_attr (record_of i)
  | some v ↦ set_size v.size (inode_to_file_attr (record_of i))
]

-- The blob that holds the current bytes: the newest acknowledged write's, or the committed one's.
unfoldable pub current_blob : Mount → ℕ × Inode → Option ℕ
current_blob m (id, i) = elim (view_of id m.pipe) [ none ↦ i.current_blob_id | some v ↦ v.blob_id ]

-- `LocalDiskStore::get`
unfoldable pub store_get : Env → ℕ → Map ℕ Bytes → Result Bytes
store_get env blob_id blobs =
    if env.store_fails get then err (io none) else or_not_found (lookup blob_id blobs)

abbrev pub unwrap_or {ℓ} : {A : Type ℓ} → Result A → A → A
unwrap_or (ok a) b = a
unwrap_or (err e) b = b

module _ (codec : Codec) where
  unfoldable pub blob_bytes : Env → Option ℕ → Mount → Result Bytes
  blob_bytes env none m = ok []
  blob_bytes env (some blob_id) m = do
    compressed ← store_get env blob_id m.pipe.world.blobs
    ok (unwrap_or (codec.decompress compressed) compressed)

  unfoldable pub load_current_bytes : Env → ℕ → Mount → Result Bytes
  load_current_bytes env ino m = do
    row ← find_by_ino env ino m
    blob_bytes env (current_blob m row) m
