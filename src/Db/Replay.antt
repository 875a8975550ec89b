-- ===== src/Db/Replay.antt =====
-- Committing pending markers (crates/smartfs-db/src/replay.rs), over the database, the queue directory
-- and the blob store. A queue entry is the marker that its body decodes to, or `none` for a body
-- that is no JSON of a marker. `ast_of` is the decoding of a marker's AST nodes by serde_json.
pub mod Reconcile
pub mod Safety
pub mod Progress
pub mod Stranded
pub mod Current
pub mod Pass
use smartfs.Base.{
  ℕ, zero, suc, ◌+◌, Bool, true, false, ◌||◌, Option, none, some, List, [], ◌∷◌, Bytes, nat_eq,
  bytes_eq, ◌==◌, if◌then◌else◌, length, Map, lookup, insert, remove,
}
use smartfs.Schema.Error.{SmartFsError, io, store, db, Result, ok, err}
use smartfs.Schema.Marker.{PendingMarker}
use smartfs.Store.Queue.{list}
use smartfs.Db.Models.{
  Db, AstNodeInsert, BlobInsertResult, Statement, begin, StoreCall, exists, get, put, delete, Env,
}
use smartfs.Db.Blobs.{insert_blob_tx}
use smartfs.Db.Versions.{Commit, CowCommitOutcome, cow_commit_tx, cow_commit_with_id, finish}

pub record World : Type 0 where
  pub db : Db
  pub queue : Map Bytes (Option PendingMarker)
  pub blobs : Map ℕ Bytes

pub record ReplayReport : Type 0 where
  pub found : ℕ
  pub committed : ℕ
  pub already_committed : ℕ
  pub failed : ℕ

-- `delete(provisional)`: a failure is logged.
abbrev pub delete_blob : Env → ℕ → Map ℕ Bytes → Map ℕ Bytes
delete_blob env id blobs = if env.store_fails delete then blobs else remove id blobs

-- The canonical bytes are missing: they are copied from the provisional blob.
unfoldable pub heal : Env → ℕ → ℕ → Map ℕ Bytes → Map ℕ Bytes
heal env provisional canonical blobs = elim (lookup provisional blobs) [
  | none ↦ blobs
  | some bytes ↦
      if env.store_fails get || env.store_fails put
      then blobs
      else delete_blob env provisional (insert canonical bytes blobs)
]

unfoldable pub reconcile_provisional_blob :
    Env → ℕ → ℕ → BlobInsertResult → Map ℕ Bytes → Map ℕ Bytes
reconcile_provisional_blob env provisional canonical dedup blobs =
    if dedup.inserted || provisional == canonical
    then blobs
    else if env.store_fails exists
    then blobs
    else elim (lookup canonical blobs) [
      | some _ ↦ delete_blob env provisional blobs
      | none ↦ heal env provisional canonical blobs
    ]

abbrev pub commit_of : PendingMarker → Option ℕ → List AstNodeInsert → Commit
commit_of m blob_id nodes = record {
  version_id = m.version_id;
  inode_id = m.inode_id;
  blob_id = blob_id;
  content_hash = m.content_hash;
  size = m.size;
  compressed_size = m.compressed_size;
  external_path = m.external_path;
  special_type = m.special_type;
  special_data = m.special_data;
  ast_nodes = nodes;
}

-- The blobs after a commit that answered: the provisional one is reconciled, if there is a store.
abbrev pub reconciled :
    Env
    → Bool
    → ℕ
    → BlobInsertResult
    → World
    → Db × Result CowCommitOutcome
    → World × Result CowCommitOutcome
reconciled env with_store provisional dedup w (d, err e) = (record w { db = d }, err e)
reconciled env with_store provisional dedup w (d, ok outcome) = (
  record w {
    db = d;
    blobs =
        if with_store
        then reconcile_provisional_blob env provisional dedup.blob_id dedup w.blobs
        else w.blobs;
  },
  ok outcome,
)

-- The commit of a marker with a blob: the dedup and the version in one transaction.
abbrev pub commit_blob :
    Env
    → Bool
    → PendingMarker
    → ℕ
    → List AstNodeInsert
    → World
    → Result (BlobInsertResult × Db)
    → World × Result CowCommitOutcome
commit_blob env with_store m provisional nodes w (err e) = (w, err e)
commit_blob env with_store m provisional nodes w (ok (dedup, d)) =
    reconciled env with_store provisional dedup w
      (finish env w.db (cow_commit_tx env (commit_of m (some dedup.blob_id) nodes) d))

-- The commit of a marker, by the blob that it names; a version at an external path has none.
unfoldable pub commit_at :
    Env
    → Bool
    → PendingMarker
    → List AstNodeInsert
    → World
    → Option ℕ
    → World × Result CowCommitOutcome
commit_at env with_store m nodes w none =
    let (d, r) = cow_commit_with_id env (commit_of m none nodes) w.db in (record w { db = d }, r)
commit_at env with_store m nodes w (some provisional) =
    if env.sql_fails begin
    then (w, err db)
    else commit_blob env with_store m provisional nodes w
        (insert_blob_tx env m.content_hash provisional none m.size m.compressed_size m.shared w.db)

unfoldable pub commit_marker :
    Env → Bool → PendingMarker → List AstNodeInsert → World → World × Result CowCommitOutcome
commit_marker env with_store m nodes w = commit_at env with_store m nodes w m.blob_id

-- The checkpoint: the marker is unlinked once the commit has answered.
abbrev pub checkpoint : Env → Bytes → World × Result CowCommitOutcome → World × Result (Option Bool)
checkpoint env file_name (w, err e) = (w, err e)
checkpoint env file_name (w, ok outcome) =
    if env.remove_fails
    then (w, err (io none))
    else (record w { queue = remove file_name w.queue }, ok (some outcome.inserted))

module _ (ast_of : Bytes → Option (List AstNodeInsert)) where
  unfoldable pub commit_read_marker :
      Env → Bool → Bytes → PendingMarker → World → World × Result (Option Bool)
  commit_read_marker env with_store file_name m w = elim (ast_of m.ast_nodes) [
    | none ↦ (w, err store)
    | some nodes ↦ checkpoint env file_name (commit_marker env with_store m nodes w)
  ]

  unfoldable pub commit_pending_marker : Env → Bool → Bytes → World → World × Result (Option Bool)
  commit_pending_marker env with_store file_name w =
      if env.read_fails then (w, err (io none)) else elim (lookup file_name w.queue) [
        | none ↦ (w, ok none)
        | some none ↦ (w, err store)
        | some (some m) ↦ commit_read_marker env with_store file_name m w
      ]

  abbrev pub tally : Result (Option Bool) → ReplayReport → ReplayReport
  tally (ok none) r = r
  tally (ok (some true)) r = record r { committed = r.committed + 1 }
  tally (ok (some false)) r = record r { already_committed = r.already_committed + 1 }
  tally (err e) r = record r { failed = r.failed + 1 }

  -- The pass over the names listed at its start; each marker meets an environment of its own.
  unfoldable pub replay_names :
      (ℕ → Env) → Bool → List Bytes → World → ReplayReport → World × ReplayReport
  replay_names envs with_store [] w r = (w, r)
  replay_names envs with_store (name ∷ names) w r =
      let (w', outcome) = commit_pending_marker (envs (length names)) with_store name w in
      replay_names envs with_store names w' (tally outcome r)

  -- `list_fails` is a failure to read the directory.
  unfoldable pub replay_pending_queue :
      (ℕ → Env) → Bool → Bool → World → World × Result ReplayReport
  replay_pending_queue envs list_fails with_store w =
      if list_fails
      then (w, err (io none))
      else let names = list w.queue in
        let (w', r) =
          replay_names envs with_store names w
            (record { found = length names; committed = 0; already_committed = 0; failed = 0 }) in
        (w', ok r)
