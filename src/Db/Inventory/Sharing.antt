-- ===== src/Db/Inventory/Sharing.antt =====
-- Which blob is a target of deduplication (crates/smartfs-db/src/blobs.rs).
use smartfs.Base.{
  ℕ, ◌≡◌, refl, Bool, false, ◌&&◌, Option, none, some, Bytes, nat_eq, bytes_eq, ◌==◌, if◌then◌else◌,
  Map, lookup, insert, remove-absent, arith,
}
use smartfs.Schema.Error.{Result, ok, err}
use smartfs.Db.Models.{
  Db, Blob, BlobInsertResult, CommitResult, committed, lost_unapplied, lost_applied, Env,
}
use smartfs.Db.Blobs.{insert_blob_tx, shared_blob}
use smartfs.Db.Versions.{commit_tx}
use smartfs.Db.Inventory.{insert_blob_with_sharing, dedup_check, autocommit}

shared_blob-insert :
    (hash : Bytes) (id : ℕ) (b : Blob) (blobs : Map ℕ Blob)
    → lookup id blobs ≡ none
    → shared_blob hash (insert id b blobs)
      ≡ (if b.shared && b.content_hash == hash then some id else shared_blob hash blobs)
unfolding shared_blob insert
shared_blob-insert hash id b blobs fresh = rw (remove-absent id blobs fresh) refl

insert_blob_tx-shared_blob :
    (env : Env) (content_hash hash : Bytes) (id size : ℕ) (backend : Option ℕ) (shared : Bool)
    (d d' : Db) (r : BlobInsertResult)
    → insert_blob_tx env content_hash id backend size none shared d ≡ ok (r, d')
    → shared_blob hash d'.blobs
      ≡ (if shared && content_hash == hash then some r.blob_id else shared_blob hash d.blobs)
unfolding insert_blob_tx
insert_blob_tx-shared_blob env content_hash hash id size backend shared d d' r e =
    grind (arith, e, shared_blob-insert, bytes_eq.beq_iff content_hash hash)

commit_tx_sound :
    (t : CommitResult) (d d' : Db) (q r : BlobInsertResult)
    → (commit_tx t d d' q).1 ≡ ok r
    → (q ≡ r) × ((commit_tx t d d' q).0 ≡ d')
commit_tx_sound committed d d' q r e = (ground (arith, e), refl)
commit_tx_sound lost_unapplied d d' q r e = cc
commit_tx_sound lost_applied d d' q r e = cc

autocommit_sound :
    (env : Env) (d : Db) (x : Result (BlobInsertResult × Db)) (r : BlobInsertResult)
    → (autocommit env d x).1 ≡ ok r
    → x ≡ ok (r, (autocommit env d x).0)
autocommit_sound env d (err x) r e = cc
autocommit_sound env d (ok (q, d')) r e =
    let (same, after) = commit_tx_sound env.commit_result d d' q r e in cc (same, after)

-- After an insertion that succeeds, the content's target of deduplication is the blob that it
-- answered if the blob is shared; a private blob is never a target, and no other content's target
-- changes.
pub dedup_check-insert_blob_with_sharing :
    (env : Env) (content_hash hash : Bytes) (id : ℕ) (backend : Option ℕ) (size : ℕ) (shared : Bool)
    (d : Db) (r : BlobInsertResult)
    → (insert_blob_with_sharing env content_hash id backend size shared d).1 ≡ ok r
    → dedup_check false hash (insert_blob_with_sharing env content_hash id backend size shared d).0
      ≡ (if shared && content_hash == hash then ok (some r.blob_id) else dedup_check false hash d)
unfolding insert_blob_with_sharing dedup_check
dedup_check-insert_blob_with_sharing env content_hash hash id backend size shared d r e =
    let x = insert_blob_tx env content_hash id backend size none shared d in
    ground (
      arith,
      insert_blob_tx-shared_blob env content_hash hash id size backend shared d
          (autocommit env d x).0 r (autocommit_sound env d x r e),
    )
