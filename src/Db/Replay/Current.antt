-- ===== src/Db/Replay/Current.antt =====
-- Which write an inode shows: the one whose marker was committed last
-- (crates/smartfs-db/src/replay.rs and versions.rs).
use smartfs.Base.{
  ℕ, ◌<◌, ◌≡◌, ◌≢◌, refl, false, Option, some, List, Bytes, nat_eq, lookup, lookup-insert_self,
  true, lookup-insert_ne, arith, ◌∙◌, sym,
}
use smartfs.Schema.Marker.{PendingMarker}
use smartfs.Db.Models.{Inode, FileVersion, AstNodeInsert, Env}
use smartfs.Db.Versions.{pointed}
use smartfs.Db.Versions.Numbers.{version_number-le-max_version}
use smartfs.Db.Replay.{World, commit_pending_marker}
use smartfs.Db.Replay.Progress.{
  IsUp, IsReady, inserts, commit, due, commit_pending_marker_ready, landed_version,
}

-- The inode shows the write of the marker: it points to the blob of the marker's version, has the
-- marker's size, and no other version of the inode has a number as high.
pub record IsCurrent (m : PendingMarker) (w : World) : Type 0 where
  pub version : FileVersion
  pub found : lookup m.version_id w.db.versions ≡ some version
  pub inode : Inode
  pub present : lookup m.inode_id w.db.inodes ≡ some inode
  pub points : inode.current_blob_id ≡ version.blob_id
  pub size : inode.size ≡ m.size
  pub highest :
      (id : ℕ) (v : FileVersion)
      → id ≢ m.version_id
      → lookup id w.db.versions ≡ some v
      → v.inode_id ≡ m.inode_id
      → v.version_number < version.version_number

-- Whatever the sequence numbers say, the write that is committed last is what the inode shows:
-- after the commit of a marker that can be committed, with a database that answers, the inode
-- shows its write, even if a later write was committed before.
pub last_commit-IsCurrent :
    (ast_of : Bytes → Option (List AstNodeInsert)) (env : Env) (name : Bytes) (m : PendingMarker)
    (w : World)
    → IsUp env
    → IsReady ast_of name m w
    → env.read_fails ≡ false
    → env.remove_fails ≡ false
    → IsCurrent m (commit_pending_marker ast_of env true name w).0
last_commit-IsCurrent ast_of env name m w up ready reads removes =
    let i = inserts ast_of env name m w up ready in
    rw (commit_pending_marker_ready ast_of env name m w up ready reads) (
      simp removes (record {
        version = _;
        found = landed_version ast_of env name m w up ready;
        inode =
            pointed env (commit ast_of env name m w up ready)
              (due ast_of env name m w up ready).inode;
        present = lookup-insert_self m.inode_id _ i.after.inodes;
        points = refl;
        size = refl;
        highest = λ id v ne f own. omega (
          arith,
          version_number-le-max_version m.inode_id i.after.versions id v
              (sym (lookup-insert_ne m.version_id id _ i.after.versions ne) ∙ f) own,
        );
      }))
