-- ===== src/Attributes.antt =====
-- The attributes of an inode (crates/smartfs-fuse/src/state.rs, `inode_to_file_attr` and
-- `file_type_of`). The columns are signed; a number below zero is `negsuc`. The times are passed on.
pub mod Modes
use smartfs.Base.{
  ℕ, zero, suc, ◌+◌, ◌-◌, ◌*◌, ◌/◌, ◌%◌, ◌^◌, ◌≡◌, Bool, true, false, Option, none, some, List, [],
  ◌∷◌, max, ltb, ◌==◌, nat_eq, if◌then◌else◌,
}

-- A signed column: `pos n` is n, and `negsuc n` is -1 - n.
pub data Signed : Type 0 where
  pos negsuc : ℕ → Signed

pub data FileType : Type 0 where
  directory regular_file symlink named_pipe socket char_device block_device : FileType

-- The columns of `inode_registry` that the attributes are made of.
pub record InodeRecord : Type 0 where
  pub ino : Signed
  pub size : Signed
  pub mode : Signed
  pub nlink : Signed
  pub uid : Signed
  pub gid : Signed
  pub rdev : Signed
  pub is_dir : Bool

pub record FileAttr : Type 0 where
  pub ino : ℕ
  pub size : ℕ
  pub blocks : ℕ
  pub kind : FileType
  pub perm : ℕ
  pub nlink : ℕ
  pub uid : ℕ
  pub gid : ℕ
  pub rdev : ℕ
  pub blksize : ℕ

-- `as`, to an unsigned integer of `w` bits: the value modulo 2 ^ w.
unfoldable pub cast : ℕ → Signed → ℕ
cast w (pos n) = n % 2 ^ w
cast w (negsuc n) = 2 ^ w - 1 - n % 2 ^ w

-- `mode & S_IFMT`, whose mask is 0o170000, over 0o10000.
unfoldable pub type_bits : ℕ → ℕ
type_bits mode = mode / 4096 % 16

-- The values of `S_IFMT` that are named, over 0o10000.
unfoldable pub named_type : ℕ → Option FileType
named_type bits =
    if bits == 4
    then some directory
    else if bits == 8
    then some regular_file
    else if bits == 10
    then some symlink
    else if bits == 1
    then some named_pipe
    else if bits == 12
    then some socket
    else if bits == 2
    then some char_device
    else if bits == 6
    then some block_device
    else none

unfoldable pub file_type_of : InodeRecord → FileType
file_type_of r = elim (named_type (type_bits (cast 32 r.mode))) [
  | some t ↦ t
  | none ↦ if r.is_dir then directory else regular_file
]

-- `.max(least)` on a signed number, for a `least` that is not below zero.
unfoldable pub signed_max : ℕ → Signed → ℕ
signed_max least (pos n) = max n least
signed_max least (negsuc n) = least

unfoldable pub inode_to_file_attr : InodeRecord → FileAttr
inode_to_file_attr r =
    let size = signed_max 0 r.size in
    record {
      ino = cast 64 r.ino;
      size = size;
      blocks = (size + 511) / 512;
      kind = file_type_of r;
      perm = cast 16 r.mode % 4096;
      nlink = if r.is_dir then 2 else signed_max 1 r.nlink;
      uid = cast 32 r.uid;
      gid = cast 32 r.gid;
      rdev = cast 32 r.rdev;
      blksize = 4096;
    }
