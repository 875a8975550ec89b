-- ===== src/Tests/Names.antt =====
-- The FUSE callbacks on names, and on files that are unlinked while they are open, at concrete inputs
-- (crates/smartfs-fuse/src/fs.rs).
use smartfs.Base.{
  ℕ, ◌+◌, ◌*◌, ◌≡◌, ◌≢◌, ◌%◌, ◌↔◌, ◌⊎◌, refl, true, false, none, some, List, [], ◌∷◌, Bytes, lookup,
  insert, remove, modify, nat_eq, bytes_eq, bytes_beq, arith, drop,
}
use smartfs.Schema.Error.{ok, error_to_errno, enoent, eio}
use smartfs.Db.Models.{AstNodeInsert, Inode}
use smartfs.Handles.{
  FuseStateManager, close_handle, close_inode, open_fd_count, mark_for_deletion,
  is_marked_for_deletion, get_cached_id,
}
use smartfs.Pipeline.{submit, admit, try_admit, next_seq}
use smartfs.Attributes.{
  FileAttr, named_pipe, directory, regular_file, type_bits, inode_to_file_attr, file_type_of, cast,
  named_type, signed_max,
}
use smartfs.Attributes.Modes.{mode_bits}
use smartfs.Db.Inodes.{
  Drawn, inode_lookup_by_ino, find_ino, inode_get, inode_lookup, find_entry, is_entry,
  inode_create_with_rdev, admits_entry, admits_key, inode_list_children, children_of, insert_by_ino,
}
use smartfs.Db.Inodes.Rows.{find_row}
use smartfs.Db.Inodes.Tree.{IsTree}
use smartfs.Db.Inodes.Names.{names_of, bind}
use smartfs.Fuse.{
  Mount, Checker, Reply, reply, error, find_by_ino, db_of, answer, check_name, parent_of, attr_of,
  record_of, signed_of,
}
use smartfs.Fuse.Writes.{submit_marker, draw_seq, store_put}
use smartfs.Fuse.Io.{release, commit_handle, commit_bytes, inode_of_handle, release_marker}
use smartfs.Fuse.Lookups.{
  lookup as lookup_entry, find_child, DirEntry, all_entries, not_marked, listed_children,
  parent_ino,
}
use smartfs.Fuse.Creates.{Caller, create, mknod, node_type, insert_below, created}
use smartfs.Fuse.Removes.{rename, unlink, find_entry_of, delete_or_mark}
use smartfs.Fuse.Listing.{lists, listing_agrees_with_lookup, IsLooked}
use smartfs.Fuse.Naming.{mknod_binds, rename_all_or_nothing, Renamed}
use smartfs.Fuse.Deferred.{refused_release_resurrects, unlinked_name_is_blocked}
use smartfs.Tests.Commits.{up}
use smartfs.Tests.Inodes.{rows, rows-IsTree, tables, entry, name_d, name_e, name_f}
use smartfs.Tests.Files.{codec, dirty, state, pipe, mount, ids}

abbrev checker : Checker
checker = record { detects = λ name. false; extract = λ code name. ok [] }

-- `/e` is renamed to `/x`.
abbrev name_x : Bytes
name_x = b'x' ∷ []

abbrev after_rename : Mount × Reply (Unit {0})
after_rename = rename codec checker up 1 (some name_e) 1 (some name_x) mount

abbrev root : Inode
root = entry 1 1 none [] true

root_found : find_by_ino up 1 mount ≡ ok (1, root)
unfolding find_by_ino inode_lookup_by_ino find_ino find_row
root_found = refl

name_x_free : names_of (tables rows) 1 name_x ≡ none
unfolding names_of find_entry find_row is_entry bytes_beq
name_x_free = refl

rename_all_or_nothing_example :
    Renamed codec checker up 1 1 1 1 root root name_e name_x mount after_rename.0 root_found
      root_found
    ⊎ ((k : ℕ) × (after_rename.1 ≡ error k) × (db_of after_rename.0 ≡ db_of mount))
rename_all_or_nothing_example =
    rename_all_or_nothing codec checker up 1 1 1 1 root root name_e name_x mount after_rename.0
      root_found root_found rows-IsTree (λ k h. ground (arith, h, name_x_free))
      (λ h. ground (arith, h)) after_rename.1 refl

-- A pipe is made in `/e`.
abbrev drawn : Drawn
drawn = record { id = 13; ino = 5 }

abbrev who : Caller
who = record { uid = 7; gid = 8 }

abbrev fifo_mode : ℕ
fifo_mode = 1 * 4096 + 420

abbrev with_fifo : Mount × Reply FileAttr
with_fifo = mknod up drawn who 4 (some name_x) fifo_mode 0 mount

abbrev fifo_attr : FileAttr
fifo_attr = record {
  ino = 5;
  size = 0;
  blocks = 0;
  kind = named_pipe;
  perm = 420;
  nlink = 1;
  uid = 7;
  gid = 8;
  rdev = 0;
  blksize = 4096;
}

mknod_done : mknod up drawn who 4 (some name_x) fifo_mode 0 mount ≡ (with_fifo.0, reply fifo_attr)
unfolding mknod check_name node_type type_bits insert_below find_by_ino inode_lookup_by_ino find_ino
    find_row inode_create_with_rdev admits_entry admits_key find_entry is_entry bytes_beq lookup
    created inode_to_file_attr record_of signed_of file_type_of cast named_type signed_max
mknod_done = refl

mknod_binds_example :
    (fifo_attr.kind ≡ named_pipe)
    × (fifo_attr.perm ≡ fifo_mode % 4096)
    × (names_of (db_of mount) 12 name_x ≡ none)
    × (names_of (db_of with_fifo.0) ≡ bind 12 name_x (some 13) (names_of (db_of mount)))
    × IsTree (db_of with_fifo.0).inodes
unfolding find_by_ino inode_lookup_by_ino find_ino find_row node_type type_bits mode_bits
mknod_binds_example =
    mknod_binds up drawn who 4 12 (entry 12 4 (some 1) name_e true) name_x fifo_mode 0 mount
      with_fifo.0 fifo_attr named_pipe refl refl mknod_done rows-IsTree

-- The listing of `/d`.
abbrev d_entries : List DirEntry
d_entries =
    record { offset = 1; ino = 2; kind = directory; name = b'.' ∷ [] }
    ∷ record { offset = 2; ino = 1; kind = directory; name = b'.' ∷ b'.' ∷ [] }
    ∷ record { offset = 3; ino = 3; kind = regular_file; name = name_f }
    ∷ []

d_found : find_by_ino up 2 mount ≡ ok (10, entry 10 2 (some 1) name_d true)
unfolding find_by_ino inode_lookup_by_ino find_ino find_row
d_found = refl

d_listed : all_entries up 2 mount ≡ ok d_entries
unfolding all_entries parent_ino inode_get inode_list_children children_of insert_by_ino not_marked
    listed_children is_marked_for_deletion lookup find_by_ino inode_lookup_by_ino find_ino find_row
    file_type_of record_of signed_of cast named_type type_bits
d_listed = refl

listing_agrees_with_lookup_example :
    (lists name_f 3 (drop 2 d_entries) ≡ true)
    ↔ IsLooked up 2 10 (entry 10 2 (some 1) name_d true) mount d_entries d_found d_listed name_f 3
listing_agrees_with_lookup_example =
    listing_agrees_with_lookup up 2 10 (entry 10 2 (some 1) name_d true) mount d_entries d_found
      d_listed rows-IsTree name_f 3

-- `/d/f` is open once and marked.
abbrev marked_state : FuseStateManager
marked_state = record {
  next_fh = 3;
  handles = (1, dirty) ∷ [];
  inodes = (11, record { open_fd_count = 1; marked_for_deletion = true }) ∷ [];
  ino_to_id = (2, 10) ∷ [];
}

abbrev marked : Mount
marked = record mount { state = marked_state }

abbrev nodes_text : List AstNodeInsert → Bytes
nodes_text nodes = []

abbrev closed_state : FuseStateManager
closed_state = (close_handle 1 marked_state).0

close_marked : close_handle 1 marked_state ≡ (closed_state, some (dirty, true))
unfolding close_handle close_inode lookup
close_marked = refl

-- The queue is full when it is closed.
abbrev full : Mount
full = record marked { pipe = record pipe { gate = record { outstanding = 5; max = 5 } } }

abbrev refused : Mount × Reply (Unit {0})
refused = release codec nodes_text up none ids 1 full

refused_done : release codec nodes_text up none ids 1 full ≡ (refused.0, error 11)
unfolding release close_handle close_inode commit_handle commit_bytes inode_of_handle inode_get
    draw_seq next_seq store_put release_marker submit_marker submit admit try_admit lookup insert
    remove modify answer error_to_errno
refused_done = refl

d_cached : parent_of up 2 refused.0 ≡ (refused.0, ok 10)
unfolding parent_of get_cached_id release close_handle close_inode commit_handle commit_bytes
    inode_of_handle inode_get draw_seq next_seq store_put release_marker submit_marker submit admit
    try_admit lookup insert remove modify
d_cached = refl

short_f : check_name (some name_f) ≡ reply name_f
unfolding check_name
short_f = refl

f_found : find_child up 10 name_f full ≡ ok (11, entry 11 3 (some 10) name_f false)
unfolding find_child inode_lookup find_entry find_row is_entry bytes_beq
f_found = refl

refused_release_resurrects_example :
    (lookup_entry up 2 (some name_f) refused.0).1
    ≡ reply (attr_of refused.0 (11, entry 11 3 (some 10) name_f false))
refused_release_resurrects_example =
    refused_release_resurrects codec nodes_text up up none ids 1 full refused.0 refused.0
      closed_state dirty 11 2 10 name_f (entry 11 3 (some 10) name_f false) close_marked
      refused_done d_cached short_f f_found

-- `/d/f` is unlinked while it is open.
abbrev cached : Mount
cached = record mount { state = record state { ino_to_id = (2, 10) ∷ [] } }

abbrev unlinked : Mount × Reply (Unit {0})
unlinked = unlink up 2 (some name_f) cached

f_entry : find_entry_of up 2 name_f cached ≡ ok (11, entry 11 3 (some 10) name_f false)
unfolding find_entry_of find_by_ino inode_lookup_by_ino find_ino find_row find_child inode_lookup
    find_entry is_entry bytes_beq
f_entry = refl

f_busy : open_fd_count 11 cached.state ≢ 0
unfolding open_fd_count lookup
f_busy h = ground (arith, h)

unlink_done : unlink up 2 (some name_f) cached ≡ (unlinked.0, reply tt)
unfolding unlink check_name find_entry_of find_by_ino inode_lookup_by_ino find_ino find_row
    find_child inode_lookup find_entry is_entry bytes_beq delete_or_mark mark_for_deletion lookup
unlink_done = refl

d_cached_later : parent_of up 2 unlinked.0 ≡ (unlinked.0, ok 10)
unfolding parent_of get_cached_id unlink check_name find_entry_of find_by_ino inode_lookup_by_ino
    find_ino find_row find_child inode_lookup find_entry is_entry bytes_beq delete_or_mark
    mark_for_deletion lookup
d_cached_later = refl

f_child : find_child up 10 name_f cached ≡ ok (11, entry 11 3 (some 10) name_f false)
unfolding find_child inode_lookup find_entry find_row is_entry bytes_beq
f_child = refl

unlinked_name_is_blocked_example :
    ((lookup_entry up 2 (some name_f) unlinked.0).1 ≡ error enoent)
    × ((d : Drawn) (w : Caller) (mode flags : ℕ)
        → (create up d w 2 (some name_f) mode flags unlinked.0).1 ≡ error eio)
unlinked_name_is_blocked_example =
    unlinked_name_is_blocked up up 2 10 11 name_f (entry 11 3 (some 10) name_f false) cached
      unlinked.0 unlinked.0 f_entry f_busy short_f unlink_done d_cached_later f_child
