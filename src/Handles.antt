-- ===== src/Handles.antt =====
-- The runtime state of the FUSE daemon: open handles with their buffers, the open descriptors of
-- each inode, and the cache of inode numbers (crates/smartfs-fuse/src/state.rs). Each method takes
-- its locks to the end, so a call is one step of the state; `HashMap` is a `Map`, a `Uuid` a number.
pub mod Buffer
pub mod Calls
pub mod Counts
pub mod History
pub mod Deletion
pub mod Contents
use smartfs.Base.{
  is_some, ℕ, ◌+◌, ◌-◌, ◌%◌, ◌^◌, ◌≡◌, Bool, true, false, Option, none, some, List, [], ◌∷◌, Bytes,
  length, ltb, nat_eq, ◌==◌, if◌then◌else◌, Map, lookup, insert, remove, modify, map_values, not,
  ◌&&◌,
}
use smartfs.Db.Models.{AstNodeInsert}
use smartfs.Schema.Error.{SmartFsError, io, not_found, Result, ok, err, efbig}
use Buffer.{max_buffer, saturating_add, resize, written}

-- `flags` are the bits of an `i32`.
pub record OpenHandle : Type 0 where
  pub fh : ℕ
  pub ino : ℕ
  pub inode_id : ℕ
  pub flags : ℕ
  pub buffer : Option Bytes
  pub modified : Bool
  pub ast_nodes : List AstNodeInsert

pub record InodeState : Type 0 where
  pub open_fd_count : ℕ
  pub marked_for_deletion : Bool

pub record FuseStateManager : Type 0 where
  pub next_fh : ℕ
  pub handles : Map ℕ OpenHandle
  pub inodes : Map ℕ InodeState
  pub ino_to_id : Map ℕ ℕ

abbrev pub new : FuseStateManager
new = record { next_fh = 1; handles = []; inodes = []; ino_to_id = [] }

abbrev pub or_default : Option InodeState → InodeState
or_default none = record { open_fd_count = 0; marked_for_deletion = false }
or_default (some s) = s

-- The counters are `u64` and `usize` and wrap.
unfoldable pub allocate_fh : ℕ → ℕ → ℕ → Option Bytes → FuseStateManager → FuseStateManager × ℕ
allocate_fh ino inode_id flags initial_buffer m =
    let fh = m.next_fh in
    let state = or_default (lookup inode_id m.inodes) in
    (
      record {
        next_fh = (m.next_fh + 1) % 2 ^ 64;
        handles =
            insert fh
              (record {
                fh = fh;
                ino = ino;
                inode_id = inode_id;
                flags = flags;
                buffer = initial_buffer;
                modified = is_some initial_buffer;
                ast_nodes = [];
              })
              m.handles;
        inodes =
            insert inode_id (record state { open_fd_count = (state.open_fd_count + 1) % 2 ^ 64 })
              m.inodes;
        ino_to_id = insert ino inode_id m.ino_to_id;
      },
      fh,
    )

unfoldable pub get_handle : ℕ → FuseStateManager → Option OpenHandle
get_handle fh m = lookup fh m.handles

abbrev pub get_or_empty : Option Bytes → Bytes
get_or_empty none = []
get_or_empty (some b) = b

-- `get_mut(&fh)`: the handle that is found is changed in place.
abbrev pub set_handle : ℕ → (OpenHandle → OpenHandle) → FuseStateManager → FuseStateManager
set_handle fh f m = record m { handles = modify fh f m.handles }

unfoldable pub needs_buffer : ℕ → FuseStateManager → Result Bool
needs_buffer fh m = elim (lookup fh m.handles) [
  | none ↦ err not_found
  | some h ↦ ok (not (is_some h.buffer))
]

abbrev pub publish_buffer : Bytes → OpenHandle → OpenHandle
publish_buffer bytes h = if is_some h.buffer then h else record h { buffer = some bytes }

unfoldable pub set_buffer_if_absent :
    ℕ → Bytes → FuseStateManager → FuseStateManager × Result (Unit {0})
set_buffer_if_absent fh bytes m = elim (lookup fh m.handles) [
  | none ↦ (m, err not_found)
  | some h ↦ (set_handle fh (publish_buffer bytes) m, ok tt)
]

-- The end of the write is computed with saturation, and checked before the buffer is touched.
abbrev pub write_handle : ℕ → Bytes → OpenHandle → OpenHandle
write_handle offset bytes h = record h {
  buffer = some (written offset bytes (get_or_empty h.buffer));
  modified = true;
}

unfoldable pub write_to_handle : ℕ → ℕ → Bytes → FuseStateManager → FuseStateManager × Result ℕ
write_to_handle fh offset bytes m = elim (lookup fh m.handles) [
  | none ↦ (m, err not_found)
  | some h ↦
      if ltb max_buffer (saturating_add offset (length bytes))
      then (m, err (io (some efbig)))
      else (set_handle fh (write_handle offset bytes) m, ok (length bytes))
]

abbrev pub resize_handle : ℕ → OpenHandle → OpenHandle
resize_handle new_size h = record h {
  buffer = some (resize new_size (get_or_empty h.buffer));
  modified = true;
}

unfoldable pub truncate_handle : ℕ → ℕ → FuseStateManager → FuseStateManager × Result (Unit {0})
truncate_handle fh new_size m =
    if ltb max_buffer new_size then (m, err (io (some efbig))) else elim (lookup fh m.handles) [
      | none ↦ (m, err not_found)
      | some h ↦ (set_handle fh (resize_handle new_size) m, ok tt)
    ]

-- The loops over `values_mut()` that change the handles of one inode.
abbrev pub for_inode : ℕ → (OpenHandle → OpenHandle) → FuseStateManager → FuseStateManager
for_inode inode_id f m = record m {
  handles = map_values (λ h. if h.inode_id == inode_id then f h else h) m.handles;
}

unfoldable pub truncate_inode_handles : ℕ → ℕ → FuseStateManager → FuseStateManager
truncate_inode_handles inode_id new_size = for_inode inode_id (resize_handle new_size)

unfoldable pub truncate_inode_handles_with_data : ℕ → Bytes → FuseStateManager → FuseStateManager
truncate_inode_handles_with_data inode_id bytes =
    for_inode inode_id λ h. record h { buffer = some bytes; modified = true }

-- The first handle of the inode that has a buffer, in the map's order.
unfoldable pub first_buffer_len : ℕ → Map ℕ OpenHandle → Option ℕ
first_buffer_len inode_id [] = none
first_buffer_len inode_id ((fh, h) ∷ rest) =
    if h.inode_id == inode_id && is_some h.buffer
    then some (length (get_or_empty h.buffer))
    else first_buffer_len inode_id rest

unfoldable pub get_inode_buffer_len : ℕ → FuseStateManager → Option ℕ
get_inode_buffer_len inode_id m = first_buffer_len inode_id m.handles

abbrev pub commit_buffer : Bytes → OpenHandle → OpenHandle
commit_buffer bytes h = record h { buffer = some bytes; modified = false }

unfoldable pub truncate_inode_handles_committed : ℕ → Bytes → FuseStateManager → FuseStateManager
truncate_inode_handles_committed inode_id bytes = for_inode inode_id (commit_buffer bytes)

unfoldable pub truncate_handle_committed :
    ℕ → Bytes → FuseStateManager → FuseStateManager × Result (Unit {0})
truncate_handle_committed fh bytes m = elim (lookup fh m.handles) [
  | none ↦ (m, err not_found)
  | some h ↦ (set_handle fh (commit_buffer bytes) m, ok tt)
]

unfoldable pub store_ast_nodes : ℕ → List AstNodeInsert → FuseStateManager → FuseStateManager
store_ast_nodes fh nodes m = set_handle fh (λ h. record h { ast_nodes = nodes }) m

-- The second half of `close_handle`, on the descriptor counts: whether the inode is to be deleted.
unfoldable pub close_inode : ℕ → Map ℕ InodeState → Map ℕ InodeState × Bool
close_inode inode_id inodes = elim (lookup inode_id inodes) [
  | none ↦ (inodes, false)
  | some s ↦
      if s.open_fd_count - 1 == 0
      then (remove inode_id inodes, s.marked_for_deletion)
      else (modify inode_id (λ t. record t { open_fd_count = t.open_fd_count - 1 }) inodes, false)
]

unfoldable pub close_handle : ℕ → FuseStateManager → FuseStateManager × Option (OpenHandle × Bool)
close_handle fh m = elim (lookup fh m.handles) [
  | none ↦ (m, none)
  | some h ↦
      let (inodes, should_delete) = close_inode h.inode_id m.inodes in
      (record m { handles = remove fh m.handles; inodes = inodes }, some (h, should_delete))
]

-- True if the inode may be deleted at once.
unfoldable pub mark_for_deletion : ℕ → FuseStateManager → FuseStateManager × Bool
mark_for_deletion inode_id m =
    let s = or_default (lookup inode_id m.inodes) in
    if s.open_fd_count == 0 then (record m { inodes = remove inode_id m.inodes }, true) else (
      record m { inodes = insert inode_id (record s { marked_for_deletion = true }) m.inodes },
      false,
    )

unfoldable pub is_marked_for_deletion : ℕ → FuseStateManager → Bool
is_marked_for_deletion inode_id m = (or_default (lookup inode_id m.inodes)).marked_for_deletion

unfoldable pub open_fd_count : ℕ → FuseStateManager → ℕ
open_fd_count inode_id m = (or_default (lookup inode_id m.inodes)).open_fd_count

unfoldable pub cache_ino_mapping : ℕ → ℕ → FuseStateManager → FuseStateManager
cache_ino_mapping ino id m = record m { ino_to_id = insert ino id m.ino_to_id }

unfoldable pub get_cached_id : ℕ → FuseStateManager → Option ℕ
get_cached_id ino m = lookup ino m.ino_to_id
