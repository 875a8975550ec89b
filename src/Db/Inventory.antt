-- ===== src/Db/Inventory.antt =====
-- The other statements on the `blobs` table (crates/smartfs-db/src/blobs.rs), each in a transaction
-- of its own. `sql_fails` says whether the query fails.
pub mod Sharing
use smartfs.Base.{
  ℕ, ◌+◌, Bool, true, false, not, ◌&&◌, Option, none, some, List, [], ◌∷◌, Bytes, nat_eq, bytes_eq,
  ◌==◌, if◌then◌else◌, Map, lookup, retain, map, map_values,
}
use smartfs.Schema.Error.{Result, ok, err, db}
use smartfs.Db.Models.{Db, Blob, FileVersion, Inode, BlobInsertResult, CommitResult, Env}
use smartfs.Db.Blobs.{insert_blob_tx, shared_blob}
use smartfs.Db.Versions.{commit_tx}

-- The autocommit of an insertion.
abbrev pub autocommit : Env → Db → Result (BlobInsertResult × Db) → Db × Result BlobInsertResult
autocommit env d (err e) = (d, err e)
autocommit env d (ok (r, d')) = commit_tx env.commit_result d d' r

unfoldable pub insert_blob_with_sharing :
    Env → Bytes → ℕ → Option ℕ → ℕ → Bool → Db → Db × Result BlobInsertResult
insert_blob_with_sharing env content_hash blob_id backend_id size shared d =
    autocommit env d (insert_blob_tx env content_hash blob_id backend_id size none shared d)

abbrev pub insert_blob : Env → Bytes → ℕ → Option ℕ → ℕ → Db → Db × Result BlobInsertResult
insert_blob env content_hash blob_id backend_id size =
    insert_blob_with_sharing env content_hash blob_id backend_id size true

unfoldable pub update_blob_compressed_size : Bool → Bytes → ℕ → Db → Db × Result (Unit {0})
update_blob_compressed_size sql_fails content_hash compressed_size d =
    if sql_fails then (d, err db) else (
      record d {
        blobs =
            map_values
              (λ b.
                if b.content_hash == content_hash
                then record b { compressed_size = some compressed_size }
                else b)
              d.blobs;
      },
      ok tt,
    )

unfoldable pub compensate_blob_delete : Bool → Bytes → Db → Db × Result (Unit {0})
compensate_blob_delete sql_fails content_hash d =
    if sql_fails
    then (d, err db)
    else (record d { blobs = retain (λ b. not (b.content_hash == content_hash)) d.blobs }, ok tt)

unfoldable pub dedup_check : Bool → Bytes → Db → Result (Option ℕ)
dedup_check sql_fails content_hash d =
    if sql_fails then err db else ok (shared_blob content_hash d.blobs)

-- `SELECT … FROM inode_registry i JOIN blobs b ON b.blob_id = i.current_blob_id`
abbrev pub private_row : Option ℕ → Map ℕ Blob → Option ℕ
private_row none blobs = none
private_row (some id) blobs = elim (lookup id blobs) [
  | none ↦ none
  | some b ↦ if b.shared then none else some id
]

unfoldable pub private_blob_of_inode : Bool → ℕ → Db → Result (Option ℕ)
private_blob_of_inode sql_fails inode_id d =
    if sql_fails then err db else elim (lookup inode_id d.inodes) [
      | none ↦ ok none
      | some i ↦ ok (private_row i.current_blob_id d.blobs)
    ]

-- Whether a version's blob has a row, and how it is shared.
abbrev pub sharing_of : FileVersion → Map ℕ Blob → Option Bool
sharing_of v blobs = elim v.blob_id [
  | none ↦ none
  | some id ↦ elim (lookup id blobs) [ none ↦ none | some b ↦ some b.shared ]
]

unfoldable pub count_sharing : ℕ → Bool → Map ℕ FileVersion → Map ℕ Blob → ℕ
count_sharing inode_id shared [] blobs = 0
count_sharing inode_id shared ((id, v) ∷ rest) blobs =
    let more = count_sharing inode_id shared rest blobs in
    if v.inode_id == inode_id
    then elim (sharing_of v blobs) [
      | none ↦ more
      | some b ↦ if (if b then shared else not shared) then more + 1 else more
    ]
    else more

-- The private and the shared versions of an inode.
unfoldable pub inode_blob_sharing : Bool → ℕ → Db → Result (ℕ × ℕ)
inode_blob_sharing sql_fails inode_id d =
    if sql_fails
    then err db
    else ok (
      count_sharing inode_id false d.versions d.blobs,
      count_sharing inode_id true d.versions d.blobs,
    )
