-- ===== src/Tests/Files.antt =====
-- The FUSE callbacks at concrete inputs (crates/smartfs-fuse/src/fs.rs).
use smartfs.Base.{
  ℕ, ◌≡◌, ◌≤◌, ◌%◌, ◌^◌, refl, true, false, none, some, [], ◌∷◌, lookup, insert, remove, modify,
  nat_eq, bytes_eq, sym, arith, bytes_beq,
}
use smartfs.Schema.Error.{ok}
use smartfs.Db.Models.{Inode}
use smartfs.Schema.Marker.{PendingMarker, file_name, file_name_for, zero_padded}
use smartfs.Handles.{
  OpenHandle, FuseStateManager, close_handle, close_inode, needs_buffer, write_to_handle,
  get_handle,
}
use smartfs.Handles.Buffer.{saturating_add}
use smartfs.Pipeline.{
  Pipeline, submit, admit, try_admit, make_durable, enqueue, show, publish, hand_over,
  mark_inflight, send, next_seq,
}
use smartfs.Attributes.{pos, FileAttr}
use smartfs.Db.Inodes.{inode_lookup_by_ino, find_ino, inode_get}
use smartfs.Db.Inodes.Rows.{find_row}
use smartfs.Fuse.{Mount, Codec, reply, find_by_ino}
use smartfs.Fuse.Writes.{marker_of, WriteIds, submit_marker, draw_seq, store_put}
use smartfs.Fuse.Io.{
  read, write, fill_buffer, slice, release, commit_handle, commit_bytes, inode_of_handle,
  release_marker, delete_deferred,
}
use smartfs.Fuse.Lookups.{getattr}
use smartfs.Fuse.Reading.{write_then_read}
use smartfs.Fuse.Elsewhere.{Elsewhere, nothing, admits, makes_durable, shows, hands_over, stores}
use smartfs.Fuse.Closing.{close_then_read}
use smartfs.Tests.Commits.{up}
use smartfs.Tests.Inodes.{rows, tables, entry, name_f}

abbrev pub codec : Codec
codec = record {
  hash_bytes = λ b. b;
  compress = λ level x. ok x;
  decompress = λ x. ok x;
  decompress-compress = λ level x y e. sym e;
}

-- `/d/f` is open twice: once with two bytes that were written, once without a buffer.
abbrev pub dirty : OpenHandle
dirty = record {
  fh = 1;
  ino = 3;
  inode_id = 11;
  flags = 0;
  buffer = some (1 ∷ 2 ∷ []);
  modified = true;
  ast_nodes = [];
}

abbrev pub clean : OpenHandle
clean = record dirty { fh = 2; buffer = none; modified = false }

abbrev pub state : FuseStateManager
state = record {
  next_fh = 3;
  handles = (1, dirty) ∷ (2, clean) ∷ [];
  inodes = (11, record { open_fd_count = 2; marked_for_deletion = false }) ∷ [];
  ino_to_id = [];
}

abbrev pub pipe : Pipeline
pipe = record {
  world = record { db = tables rows; queue = []; blobs = [] };
  seq = 1;
  gate = record { outstanding = 0; max = 5 };
  overlay = [];
  inflight = [];
  channel = [];
  alive = true;
  settling = none;
}

abbrev pub mount : Mount
mount = record { pipe = pipe; state = state; force = false }

-- One byte is written behind the first.
abbrev after_write : Mount
after_write = (write codec up 3 1 (pos 1) (9 ∷ []) mount).0

write_done : write codec up 3 1 (pos 1) (9 ∷ []) mount ≡ (after_write, reply 1)
unfolding write fill_buffer needs_buffer write_to_handle saturating_add lookup
write_done = refl

write_then_read_example :
    (◌≡◌ {A = ℕ} 1 (1 % 2 ^ 32))
    × (read codec up 3 1 (pos 1) 1 after_write ≡ (after_write, reply (9 ∷ [])))
    × ((row : ℕ × Inode)
        → find_by_ino up 3 after_write ≡ ok row
        → (a : FileAttr) × ((getattr up 3 (some 1) after_write).1 ≡ reply a) × (2 ≤ a.size))
write_then_read_example = write_then_read codec up 3 1 1 (9 ∷ []) mount after_write 1 write_done up

abbrev pub ids : WriteIds
ids = record { blob_id = 90; version_id = 91; created_at = [] }

-- The first handle is closed.
abbrev after_close : Mount
after_close = (release codec (λ nodes. []) up none ids 1 mount).0

abbrev one_left : FuseStateManager
one_left = (close_handle 1 state).0

close_done : release codec (λ nodes. []) up none ids 1 mount ≡ (after_close, reply tt)
unfolding release close_handle close_inode commit_handle commit_bytes inode_of_handle inode_get
    draw_seq next_seq store_put release_marker submit_marker submit admit try_admit make_durable
    enqueue show publish hand_over mark_inflight send delete_deferred lookup insert remove modify
close_done = refl

-- Then the mount's other file is written: its blob is put, and its submission is admitted, made durable,
-- shown and handed over.
abbrev elsewhere : PendingMarker
elsewhere =
    release_marker codec (λ nodes. []) 7 (12, entry 12 4 (some 10) name_f false)
      (record ids { blob_id = 95 }) (record dirty { inode_id = 12 }) (5 ∷ []) (5 ∷ [])

abbrev with_blob : Pipeline
with_blob = record after_close.pipe {
  world = record after_close.pipe.world { blobs = insert 95 (5 ∷ []) after_close.pipe.world.blobs };
}

abbrev by_then : Mount
by_then = record after_close {
  pipe =
      (hand_over (file_name elsewhere)
        (show elsewhere (make_durable none elsewhere (admit with_blob).0).0)).0;
}

between : Elsewhere 11 after_close.pipe by_then.pipe
unfolding release close_handle close_inode commit_handle commit_bytes inode_of_handle inode_get
    draw_seq next_seq store_put release_marker submit_marker submit admit try_admit make_durable
    enqueue show publish hand_over mark_inflight send delete_deferred lookup insert remove modify
    marker_of
between = hands_over (file_name elsewhere) (
    shows elsewhere (λ e. omega (arith, e))
      (makes_durable none elsewhere (admits (stores 95 (5 ∷ []) refl nothing))))

close_then_read_example : (read codec up 3 2 (pos 0) 8 by_then).1 ≡ reply (1 ∷ 2 ∷ [])
unfolding slice release close_handle close_inode commit_handle commit_bytes inode_of_handle
    inode_get draw_seq next_seq store_put release_marker submit_marker submit admit try_admit
    make_durable enqueue show publish hand_over mark_inflight send delete_deferred lookup insert
    remove modify find_by_ino inode_lookup_by_ino find_ino find_row get_handle file_name bytes_beq
    file_name_for zero_padded marker_of
close_then_read_example =
    close_then_read codec (λ nodes. []) up none ids 1 mount after_close one_left dirty false
      (1 ∷ 2 ∷ []) refl refl refl refl close_done by_then between up 3
      (11, entry 11 3 (some 10) name_f false) 2 clean (pos 0) 8 refl refl refl refl refl
