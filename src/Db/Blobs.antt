-- ===== src/Db/Blobs.antt =====
-- The `blobs` table (crates/smartfs-db/src/blobs.rs): the insertion that deduplicates shared content,
-- and the scan and the deletion of blobs that no version references. `blob_id` is the primary key,
-- and `content_hash` is unique among shared rows (migrations/009_per_inode_dedup.sql).
use smartfs.Base.{
  ℕ, ◌+◌, Bool, true, false, not, ◌&&◌, Option, none, some, List, [], ◌∷◌, Bytes, nat_eq, bytes_eq,
  ltb, ◌==◌, if◌then◌else◌, Map, lookup, insert, remove, map, take,
}
use smartfs.Schema.Error.{Result, ok, err, db}
use smartfs.Db.Models.{Db, Blob, FileVersion, BlobInsertResult, insert_blob, Env}

-- The shared row of a content hash.
unfoldable pub shared_blob : Bytes → Map ℕ Blob → Option ℕ
shared_blob hash [] = none
shared_blob hash ((id, b) ∷ rest) =
    if b.shared && b.content_hash == hash then some id else shared_blob hash rest

-- INSERT without a conflict clause: a taken primary key is an error.
abbrev pub insert_row : ℕ → Blob → Db → Result (BlobInsertResult × Db)
insert_row blob_id row d = elim (lookup blob_id d.blobs) [
  | some _ ↦ err db
  | none ↦ ok (
    record { blob_id = blob_id; inserted = true },
    record d { blobs = insert blob_id row d.blobs },
  )
]

-- ON CONFLICT (content_hash) WHERE shared: the row that is there is returned.
unfoldable pub insert_blob_tx :
    Env → Bytes → ℕ → Option ℕ → ℕ → Option ℕ → Bool → Db → Result (BlobInsertResult × Db)
insert_blob_tx env content_hash blob_id backend_id size compressed_size shared d =
    let row : Blob = record {
      content_hash = content_hash;
      backend_id = backend_id;
      size = size;
      compressed_size = compressed_size;
      shared = shared;
      created_at = env.now;
    } in
    if env.sql_fails insert_blob
    then err db
    else if shared
    then elim (shared_blob content_hash d.blobs) [
      | some id ↦ ok (record { blob_id = id; inserted = false }, d)
      | none ↦ insert_row blob_id row d
    ]
    else insert_row blob_id row d

-- `EXISTS (SELECT 1 FROM file_versions fv WHERE fv.content_hash = …)`
unfoldable pub hash_referenced : Bytes → Map ℕ FileVersion → Bool
hash_referenced hash [] = false
hash_referenced hash ((id, v) ∷ rest) =
    if v.content_hash == hash then true else hash_referenced hash rest

-- The WHERE clause of the scan, over the table.
unfoldable pub unreferenced : ℕ → ℕ → Map ℕ FileVersion → Map ℕ Blob → List (ℕ × Blob)
unreferenced now older_than_secs versions [] = []
unreferenced now older_than_secs versions ((id, b) ∷ rest) =
    let more = unreferenced now older_than_secs versions rest in
    if ltb (b.created_at + older_than_secs) now && not (hash_referenced b.content_hash versions)
    then (id, b) ∷ more
    else more

-- ORDER BY created_at
unfoldable pub insert_by_age : ℕ × Blob → List (ℕ × Blob) → List (ℕ × Blob)
insert_by_age x [] = x ∷ []
insert_by_age x (y ∷ l) =
    let rest = insert_by_age x l in
    if ltb y.1.created_at x.1.created_at then y ∷ rest else x ∷ y ∷ l

unfoldable pub sort_by_age : List (ℕ × Blob) → List (ℕ × Blob)
sort_by_age [] = []
sort_by_age (x ∷ l) = insert_by_age x (sort_by_age l)

unfoldable pub list_unreferenced_blobs : ℕ → ℕ → ℕ → Db → List (ℕ × Bytes)
list_unreferenced_blobs now older_than_secs limit d =
    map (λ x. (x.0, x.1.content_hash))
      (take limit (sort_by_age (unreferenced now older_than_secs d.versions d.blobs)))

-- Whether the row was there and no version referenced its content.
unfoldable pub delete_blob_if_unreferenced : ℕ → Db → Db × Bool
delete_blob_if_unreferenced blob_id d = elim (lookup blob_id d.blobs) [
  | none ↦ (d, false)
  | some b ↦
      if hash_referenced b.content_hash d.versions
      then (d, false)
      else (record d { blobs = remove blob_id d.blobs }, true)
]
