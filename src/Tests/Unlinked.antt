-- ===== src/Tests/Unlinked.antt =====
-- A file that is unlinked while it is open, at concrete inputs (crates/smartfs-fuse/src/fs.rs).
use smartfs.Base.{false, none, some, [], ◌∷◌, List, Bytes, nat_eq, bytes_eq}
use smartfs.Db.Models.{AstNodeInsert}
use smartfs.Handles.{FuseStateManager, close_handle, open_fd_count}
use smartfs.Fuse.{Mount, Reply}
use smartfs.Fuse.Io.{release}
use smartfs.Fuse.Removes.{unlink}
use smartfs.Tests.Commits.{up}
use smartfs.Tests.Inodes.{name_f}
use smartfs.Tests.Files.{codec, dirty, mount, ids}

-- `/d/f` is open once.
abbrev open_once : Mount
open_once = record mount {
  state = record {
    next_fh = 3;
    handles = (1, dirty) ∷ [];
    inodes = (11, record { open_fd_count = 1; marked_for_deletion = false }) ∷ [];
    ino_to_id = (2, 10) ∷ [];
  };
}

abbrev no_text : List AstNodeInsert → Bytes
no_text nodes = []

abbrev unlinked : Mount × Reply (Unit {0})
unlinked = unlink up 2 (some name_f) open_once

abbrev closed : FuseStateManager
closed = (close_handle 1 unlinked.0.state).0

abbrev closed_after : Mount × Reply (Unit {0})
closed_after = release codec no_text up none ids 1 unlinked.0
