-- ===== src/Db/Replay/Progress.antt =====
-- A marker that can be committed is committed, when nothing fails
-- (crates/smartfs-db/src/replay.rs and versions.rs).
use smartfs.Base.{
  ℕ, ◌+◌, ◌<◌, ◌≡◌, refl, ◌∙◌, ap, Bool, true, false, Bool-cases, Option, none, some, Option-cases,
  ◌⊎◌, inl, inr, Bytes, nat_eq, bytes_eq, lookup, insert, lookup-insert_self, lookup-remove_self,
  arith, List,
}
use smartfs.Schema.Error.{ok}
use smartfs.Schema.Marker.{PendingMarker}
use smartfs.Db.Models.{
  Db, Inode, Blob, FileVersion, AstNodeInsert, BlobInsertResult, begin, Statement, StoreCall,
  committed, Env,
}
use smartfs.Db.Blobs.{insert_blob_tx, shared_blob}
use smartfs.Db.Versions.{
  Commit, CowCommitOutcome, cow_commit_tx, write_version, update_pointer, blob_or_empty_or_virtual,
  max_version, max_i32, new_version, latest_version, insert_nodes, pointed,
}
use smartfs.Db.Replay.Reconcile.{canonical_readable}
use smartfs.Db.Replay.{
  World, reconcile_provisional_blob, commit_of, commit_at, commit_marker, checkpoint,
  commit_read_marker, commit_pending_marker,
}

-- The database answers every statement, and the COMMIT too.
pub record IsUp (env : Env) : Type 0 where
  pub sql : (s : Statement) → env.sql_fails s ≡ false
  pub commit : env.commit_result ≡ committed

-- A commit can be carried out: its inode is there, its version is not, its number fits, and it has
-- a blob.
pub record IsDue (c : Commit) (d : Db) : Type 0 where
  pub inode : Inode
  pub present : lookup c.inode_id d.inodes ≡ some inode
  pub fresh : lookup c.version_id d.versions ≡ none
  pub fits : max_version c.inode_id d.versions < max_i32
  pub blob : ℕ
  pub has_blob : c.blob_id ≡ some blob

module _ (env : Env) (c : Commit) (d : Db) (up : IsUp env) (due : IsDue c d) where
  abbrev pub number : ℕ
  number = max_version c.inode_id d.versions + 1

  abbrev pub result : CowCommitOutcome × Db
  result = (
    record { version_id = c.version_id; version_number = number; inserted = true },
    record d {
      inodes = insert c.inode_id (pointed env c due.inode) d.inodes;
      versions =
          insert c.version_id (new_version c number (latest_version c.inode_id d.versions))
            d.versions;
      ast_nodes = insert_nodes c.version_id c.ast_nodes d.ast_nodes;
    },
  )

  write_version_due :
      write_version env c due.inode number (latest_version c.inode_id d.versions) d ≡ ok result
  unfolding write_version update_pointer blob_or_empty_or_virtual
  write_version_due = ground (
    arith,
    due.fresh,
    due.has_blob,
    up.sql Statement.insert_version,
    up.sql Statement.insert_ast_node,
    up.sql Statement.update_inode,
  )

  cow_commit_tx_due : cow_commit_tx env c d ≡ ok result
  unfolding cow_commit_tx
  cow_commit_tx_due = ground (
    arith,
    write_version_due,
    due.present,
    due.fits,
    up.sql Statement.lock_inode,
    up.sql Statement.next_version,
    up.sql Statement.prev_version,
  )

-- What the insertion of a marker's blob gives: the canonical blob, over a database that is the same
-- but for its blobs.
pub record Inserts (env : Env) (m : PendingMarker) (provisional : ℕ) (d : Db) : Type 0 where
  pub dedup : BlobInsertResult
  pub after : Db
  pub done :
      insert_blob_tx env m.content_hash provisional none m.size m.compressed_size m.shared d
      ≡ ok (dedup, after)
  pub own : dedup.inserted ≡ true → dedup.blob_id ≡ provisional
  pub versions : after.versions ≡ d.versions
  pub inodes : after.inodes ≡ d.inodes

-- The row of a marker's blob.
abbrev row_of : Env → PendingMarker → Blob
row_of env m = record {
  content_hash = m.content_hash;
  backend_id = none;
  size = m.size;
  compressed_size = m.compressed_size;
  shared = m.shared;
  created_at = env.now;
}

module _ (env : Env) (m : PendingMarker) (provisional : ℕ) (d : Db) (up : IsUp env) where
  insert_new :
      (shared_blob m.content_hash d.blobs ≡ none) ⊎ (m.shared ≡ false)
      → lookup provisional d.blobs ≡ none
      → Inserts env m provisional d
  insert_new new free = record {
    dedup = record { blob_id = provisional; inserted = true };
    after = record d { blobs = insert provisional (row_of env m) d.blobs };
    done = unfold insert_blob_tx in ground (arith, free, new, up.sql Statement.insert_blob);
    own = λ _. refl;
    versions = refl;
    inodes = refl;
  }

  insert_hit :
      (id : ℕ)
      → shared_blob m.content_hash d.blobs ≡ some id
      → m.shared ≡ true
      → Inserts env m provisional d
  insert_hit id hit shared = record {
    dedup = record { blob_id = id; inserted = false };
    after = d;
    done = unfold insert_blob_tx in ground (arith, hit, shared, up.sql Statement.insert_blob);
    own = λ e. cc;
    versions = refl;
    inodes = refl;
  }

  pub insert_blob_tx_up : lookup provisional d.blobs ≡ none → Inserts env m provisional d
  insert_blob_tx_up free = elim (Option-cases (shared_blob m.content_hash d.blobs)) [
    | inl e ↦ insert_new (inl e) free
    | inr (id, e) ↦ elim (Bool-cases m.shared) [
      | inl t ↦ insert_hit id e t
      | inr t ↦ insert_new (inr t) free
    ]
  ]

-- A queued marker that can be committed: its blob is new to the table of blobs, its inode is there
-- and its version is not.
pub record IsReady (ast_of : Bytes → Option (List AstNodeInsert)) (name : Bytes) (m : PendingMarker)
    (w : World) : Type 0 where
  pub queued : lookup name w.queue ≡ some (some m)
  pub provisional : ℕ
  pub has_blob : m.blob_id ≡ some provisional
  pub free : lookup provisional w.db.blobs ≡ none
  pub nodes : List AstNodeInsert
  pub decoded : ast_of m.ast_nodes ≡ some nodes
  pub inode : Inode
  pub present : lookup m.inode_id w.db.inodes ≡ some inode
  pub fresh : lookup m.version_id w.db.versions ≡ none
  pub fits : max_version m.inode_id w.db.versions < max_i32

-- The version of the marker is in the database, points to a blob whose bytes can be read, and
-- carries the content hash and the size of the marker.
pub record IsCommitted (m : PendingMarker) (w : World) : Type 0 where
  pub version : FileVersion
  pub found : lookup m.version_id w.db.versions ≡ some version
  pub inode_id : version.inode_id ≡ m.inode_id
  pub content_hash : version.content_hash ≡ m.content_hash
  pub size : version.size ≡ m.size
  pub canonical : ℕ
  pub points : version.blob_id ≡ some canonical
  pub bytes : Bytes
  pub readable : lookup canonical w.blobs ≡ some bytes

-- A marker that can be read is committed as what it says.
pub commit_pending_marker_reads :
    (ast_of : Bytes → Option (List AstNodeInsert)) (env : Env) (with_store : Bool) (name : Bytes)
    (m : PendingMarker) (w : World)
    → env.read_fails ≡ false
    → lookup name w.queue ≡ some (some m)
    → commit_pending_marker ast_of env with_store name w
      ≡ commit_read_marker ast_of env with_store name m w
unfolding commit_pending_marker
commit_pending_marker_reads ast_of env with_store name m w reads queued =
    simp (commit_pending_marker, reads, queued)

module _ (ast_of : Bytes → Option (List AstNodeInsert)) (env : Env) (name : Bytes)
    (m : PendingMarker) (w : World) (up : IsUp env) (ready : IsReady ast_of name m w) where
  abbrev pub inserts : Inserts env m ready.provisional w.db
  inserts = insert_blob_tx_up env m ready.provisional w.db up ready.free

  abbrev pub commit : Commit
  commit = commit_of m (some inserts.dedup.blob_id) ready.nodes

  pub due : IsDue commit inserts.after
  due = record {
    inode = ready.inode;
    present = rw inserts.inodes ready.present;
    fresh = rw inserts.versions ready.fresh;
    fits = rw inserts.versions ready.fits;
    blob = inserts.dedup.blob_id;
    has_blob = refl;
  }

  abbrev pub landed : World
  landed = record w {
    db = (result env commit inserts.after up due).1;
    blobs =
        reconcile_provisional_blob env ready.provisional inserts.dedup.blob_id inserts.dedup
          w.blobs;
  }

  commit_at_ready :
      commit_at env true m ready.nodes w (some ready.provisional)
      ≡ (landed, ok (result env commit inserts.after up due).0)
  unfolding commit_at
  commit_at_ready =
      simp
        (up.sql begin, inserts.done, cow_commit_tx_due env commit inserts.after up due, up.commit)

  pub commit_marker_ready :
      commit_marker env true m ready.nodes w
      ≡ (landed, ok (result env commit inserts.after up due).0)
  unfolding commit_marker
  commit_marker_ready = ap (commit_at env true m ready.nodes w) ready.has_blob ∙ commit_at_ready

  commit_read_marker_ready :
      commit_read_marker ast_of env true name m w
      ≡ checkpoint env name (commit_marker env true m ready.nodes w)
  unfolding commit_read_marker
  commit_read_marker_ready = rw (commit_read_marker, ready.decoded)

  -- The call comes to the checkpoint.
  pub commit_pending_marker_ready :
      env.read_fails ≡ false
      → commit_pending_marker ast_of env true name w
        ≡ checkpoint env name (landed, ok (result env commit inserts.after up due).0)
  commit_pending_marker_ready reads =
      commit_pending_marker_reads ast_of env true name m w reads ready.queued
      ∙ commit_read_marker_ready
      ∙ ap (checkpoint env name) commit_marker_ready

  pub landed_version :
      lookup m.version_id landed.db.versions
      ≡ some (
          new_version commit
            (number env commit inserts.after up due)
            (latest_version m.inode_id inserts.after.versions))
  landed_version = lookup-insert_self m.version_id _ inserts.after.versions

  -- A queued marker that can be committed is, if the database answers, no call of the store fails, the
  -- provisional blob has bytes and the marker's file can be read and unlinked: the call says that it
  -- inserted a version, the marker leaves the queue, and the version is in the database, for the
  -- marker's inode, with its hash and its size and with a blob that can be read.
  pub commit_pending_marker_progress :
      env.read_fails ≡ false
      → env.remove_fails ≡ false
      → ((call : StoreCall) → env.store_fails call ≡ false)
      → (b : Bytes) → lookup ready.provisional w.blobs ≡ some b
      → let q = commit_pending_marker ast_of env true name w in
        (q.1 ≡ ok (some true)) × (lookup name q.0.queue ≡ none) × IsCommitted m q.0
  commit_pending_marker_progress reads removes stores b stored =
      let (bytes, readable) =
        canonical_readable env ready.provisional inserts.dedup.blob_id inserts.dedup w.blobs b
          stores inserts.own stored in
      rw (commit_pending_marker_ready reads) (
        simp removes (
          refl,
          lookup-remove_self name w.queue,
          record {
            version = _;
            found = landed_version;
            inode_id = refl;
            content_hash = refl;
            size = refl;
            canonical = inserts.dedup.blob_id;
            points = refl;
            bytes = bytes;
            readable = readable;
          },
        ))
