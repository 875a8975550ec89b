-- ===== src/Tests/Attributes.antt =====
-- Attributes of inodes at concrete inputs (crates/smartfs-fuse/src/state.rs).
use smartfs.Base.{◌+◌, ◌*◌, ◌≡◌, refl, false}
use smartfs.Attributes.{
  pos, negsuc, InodeRecord, named_pipe, inode_to_file_attr, file_type_of, named_type, type_bits,
  cast, signed_max,
}

-- A named pipe with mode 0o644, and a size of -1.
abbrev pipe : InodeRecord
pipe = record {
  ino = pos 12;
  size = negsuc 0;
  mode = pos (1 * 4096 + 420);
  nlink = pos 0;
  uid = pos 1000;
  gid = pos 1000;
  rdev = pos 0;
  is_dir = false;
}

pipe_attr :
    let a = inode_to_file_attr pipe in
    (a.kind ≡ named_pipe) × (a.perm ≡ 420) × (a.size ≡ 0) × (a.nlink ≡ 1)
unfolding inode_to_file_attr file_type_of named_type type_bits cast signed_max
pipe_attr = (refl, refl, refl, refl)
