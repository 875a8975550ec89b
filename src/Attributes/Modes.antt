-- ===== src/Attributes/Modes.antt =====
-- What the attributes of an inode say of its mode and size (crates/smartfs-fuse/src/state.rs).
use smartfs.Base.{ℕ, ◌+◌, ◌*◌, ◌%◌, ◌≤◌, ◌<◌, ◌≡◌, refl, nat_eq, some, arith}
use smartfs.Attributes.{
  pos, FileType, directory, regular_file, symlink, named_pipe, socket, char_device, block_device,
  InodeRecord, cast, type_bits, named_type, file_type_of, signed_max, inode_to_file_attr,
}

-- `S_IFMT` of a file type, over 0o10000.
unfoldable pub mode_bits : FileType → ℕ
mode_bits directory = 4
mode_bits regular_file = 8
mode_bits symlink = 10
mode_bits named_pipe = 1
mode_bits socket = 12
mode_bits char_device = 2
mode_bits block_device = 6

mode_bits-lt : (t : FileType) → mode_bits t < 16
unfolding mode_bits
mode_bits-lt t = ground arith

named_type-mode_bits : (t : FileType) → named_type (mode_bits t) ≡ some t
unfolding named_type mode_bits
named_type-mode_bits t = ground arith

split_mode :
    (bits perm : ℕ)
    → bits < 16
    → perm < 4096
    → (type_bits (cast 32 (pos (bits * 4096 + perm))) ≡ bits)
      × (cast 16 (pos (bits * 4096 + perm)) % 4096 ≡ perm)
unfolding type_bits cast
split_mode bits perm b p = (omega arith, omega arith)

-- A mode that is made of a file type and permission bits gives back both, whatever `is_dir` says.
pub inode_to_file_attr-mode_bits :
    (t : FileType) (perm : ℕ) (r : InodeRecord)
    → perm < 4096
    → r.mode ≡ pos (mode_bits t * 4096 + perm)
    → ((inode_to_file_attr r).kind ≡ t) × ((inode_to_file_attr r).perm ≡ perm)
unfolding inode_to_file_attr file_type_of
inode_to_file_attr-mode_bits t perm r small mode =
    let (kind, rest) = split_mode (mode_bits t) perm (mode_bits-lt t) small in
    (rw (file_type_of, mode, kind, named_type-mode_bits t) refl, rw (mode, rest) refl)

-- The attributes are sane for every row, negative columns included: the blocks of 512 bytes cover
-- the size and none of them is idle, there is at least one link, and the permissions have 12 bits.
pub inode_to_file_attr_bounds :
    (r : InodeRecord)
    → let a = inode_to_file_attr r in
      (a.size ≤ a.blocks * 512) × (a.blocks * 512 < a.size + 512) × (1 ≤ a.nlink) × (a.perm < 4096)
unfolding inode_to_file_attr signed_max
inode_to_file_attr_bounds r = (ground arith, ground arith, ground arith, ground arith)
