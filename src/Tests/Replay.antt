-- ===== src/Tests/Replay.antt =====
-- The replay of pending markers at concrete inputs (crates/smartfs-db/src/replay.rs).
use smartfs.Base.{
  ℕ, ◌≡◌, refl, Bool, true, false, none, some, Option, List, [], ◌∷◌, lookup, insert, remove,
  nat_eq, bytes_eq, bytes_beq, arith, Bytes, Map,
}
use smartfs.Schema.Error.{ok}
use smartfs.Schema.Marker.{PendingMarker}
use smartfs.Db.Models.{AstNodeInsert, BlobInsertResult, Env}
use smartfs.Db.Blobs.{insert_blob_tx}
use smartfs.Db.Versions.{
  max_version, cow_commit_tx, latest_version, version_numbered, write_version, update_pointer,
  blob_or_empty_or_virtual, insert_nodes,
}
use smartfs.Db.Versions.Numbers.{IsPresent}
use smartfs.Db.Replay.{
  World, reconcile_provisional_blob, commit_pending_marker, replay_pending_queue,
  commit_read_marker, commit_marker, commit_at,
}
use smartfs.Db.Replay.Reconcile.{IsReconciled, reconcile_provisional_blob-IsReconciled}
use smartfs.Db.Replay.Safety.{IsSafe, commit_pending_marker-IsSafe}
use smartfs.Db.Replay.Progress.{IsUp, IsReady, IsCommitted, commit_pending_marker_progress}
use smartfs.Db.Replay.Pass.{IsKept, replay_pending_queue-IsKept}
use smartfs.Db.Replay.Stranded.{IsErr, crash_strands_private_marker}
use smartfs.Tests.Commits.{up, inode}

-- Blob 50 is a duplicate of blob 40, whose bytes are missing.
abbrev duplicate : BlobInsertResult
duplicate = record { blob_id = 40; inserted = false }

abbrev stored : Map ℕ Bytes
stored = (50, 1 ∷ 2 ∷ []) ∷ []

reconcile_provisional_blob-IsReconciled_example :
    IsReconciled 50 40 stored (reconcile_provisional_blob up 50 40 duplicate stored)
reconcile_provisional_blob-IsReconciled_example =
    reconcile_provisional_blob-IsReconciled up 50 40 duplicate stored

-- The decoder of AST nodes, for a marker that has none.
abbrev pub no_nodes : Bytes → Option (List AstNodeInsert)
no_nodes text = some []

-- A write to file 7, and to a private one.
abbrev pub marker : Bool → PendingMarker
marker shared = record {
  seq = 1;
  inode_id = 7;
  parent_inode = none;
  name = b'f' ∷ [];
  version_id = 20;
  content_hash = b'h' ∷ [];
  blob_id = some 50;
  size = 2;
  compressed_size = none;
  shared = shared;
  external_path = none;
  mode = 420;
  uid = 0;
  gid = 0;
  special_type = none;
  special_data = none;
  ast_nodes = [];
  created_at = [];
}

abbrev pub name : Bytes
name = b'm' ∷ []

abbrev pub world : Bool → World
world shared = record {
  db = record { inodes = (7, inode) ∷ []; versions = []; blobs = []; ast_nodes = [] };
  queue = (name, some (marker shared)) ∷ [];
  blobs = stored;
}

pub up-IsUp : IsUp up
up-IsUp = record { sql = λ s. refl; commit = refl }

-- The unlink of the marker fails: the process stops in between, or the disk refuses.
abbrev stopped : Env
stopped = record up { remove_fails = true }

stopped-IsUp : IsUp stopped
stopped-IsUp = record { sql = λ s. refl; commit = refl }

pub ready : (shared : Bool) → IsReady no_nodes name (marker shared) (world shared)
unfolding lookup max_version bytes_beq
ready shared = record {
  queued = refl;
  provisional = 50;
  has_blob = refl;
  free = refl;
  nodes = [];
  decoded = refl;
  inode = inode;
  present = refl;
  fresh = refl;
  fits = omega arith;
}

commit_pending_marker-IsSafe_example :
    IsSafe name
      (marker true)
      (world true)
      (commit_pending_marker no_nodes up true name (world true)).0
unfolding lookup bytes_beq
commit_pending_marker-IsSafe_example =
    commit_pending_marker-IsSafe no_nodes up true name (marker true) (world true) refl

commit_pending_marker_progress_example :
    let q = commit_pending_marker no_nodes up true name (world true) in
    (q.1 ≡ ok (some true)) × (lookup name q.0.queue ≡ none) × IsCommitted (marker true) q.0
unfolding lookup ready
commit_pending_marker_progress_example =
    commit_pending_marker_progress no_nodes up name (marker true) (world true) up-IsUp (ready true)
      refl refl (λ call. refl) (1 ∷ 2 ∷ []) refl

-- What a stop between COMMIT and unlink leaves, for a private marker.
abbrev after_stop : World
after_stop = (commit_pending_marker no_nodes stopped true name (world false)).0

still_queued : lookup name after_stop.queue ≡ some (some (marker false))
unfolding commit_pending_marker commit_read_marker commit_marker commit_at insert_blob_tx
    cow_commit_tx max_version latest_version version_numbered write_version update_pointer
    blob_or_empty_or_virtual insert_nodes reconcile_provisional_blob lookup insert remove bytes_beq
still_queued = refl

crash_strands_private_marker_example :
    IsPresent 20 after_stop.db
    × (lookup name after_stop.queue ≡ some (some (marker false)))
    × ((commit_pending_marker no_nodes up false name after_stop).0 ≡ after_stop)
    × IsErr (commit_pending_marker no_nodes up false name after_stop).1
crash_strands_private_marker_example =
    crash_strands_private_marker no_nodes stopped name (marker false) (world false) stopped-IsUp
      (ready false) refl refl refl after_stop up false still_queued refl

-- A pass in which the only marker meets a stop.
replay_pending_queue-IsKept_example :
    IsKept name
      (marker true)
      (replay_pending_queue no_nodes (λ k. stopped) false true (world true)).0
unfolding lookup bytes_beq
replay_pending_queue-IsKept_example =
    replay_pending_queue-IsKept no_nodes (λ k. stopped) false true (world true) name (marker true)
      refl
