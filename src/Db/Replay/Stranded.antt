-- ===== src/Db/Replay/Stranded.antt =====
-- A private marker whose transaction was committed before a crash cannot be replayed: its second
-- insertion into `blobs` meets its own row (crates/smartfs-db/src/replay.rs and blobs.rs).
use smartfs.Base.{
  ℕ, ◌≡◌, refl, sym, ◌∙◌, ap, Bool, true, false, Bool-cases, Option, none, some, Option-cases, inl,
  inr, Bytes, nat_eq, bytes_eq, lookup, lookup-insert_self, arith, List, [], Map,
}
use smartfs.Schema.Error.{db, Result, ok, err}
use smartfs.Schema.Marker.{PendingMarker}
use smartfs.Db.Models.{Db, Blob, AstNodeInsert, BlobInsertResult, begin, insert_blob, Env}
use smartfs.Db.Blobs.{insert_blob_tx, insert_row}
use smartfs.Db.Versions.Numbers.{IsPresent}
use smartfs.Db.Replay.{World, commit_at, commit_marker, commit_read_marker, commit_pending_marker}
use smartfs.Db.Replay.Progress.{IsUp, IsReady, inserts, commit_pending_marker_ready, landed_version}

abbrev pub IsErr {ℓ} : {A : Type ℓ} → Result A → Type 0
IsErr (ok a) = ⊥
IsErr (err e) = Unit

-- The marker of a private blob whose row is in the table already.
pub record IsStranded (name : Bytes) (m : PendingMarker) (w : World) : Type 0 where
  pub queued : lookup name w.queue ≡ some (some m)
  pub private : m.shared ≡ false
  pub provisional : ℕ
  pub has_blob : m.blob_id ≡ some provisional
  pub row : Blob
  pub taken : lookup provisional w.db.blobs ≡ some row

insert_blob_tx_taken :
    (env : Env) (hash : Bytes) (id size : ℕ) (csize : Option ℕ) (row : Blob) (d : Db)
    → lookup id d.blobs ≡ some row
    → insert_blob_tx env hash id none size csize false d ≡ err db
unfolding insert_blob_tx
insert_blob_tx_taken env hash id size csize row d e = ground arith

module _ (ast_of : Bytes → Option (List AstNodeInsert)) (env : Env) (with_store : Bool)
    (name : Bytes) (m : PendingMarker) (w : World) (s : IsStranded name m w) where
  commit_at_stranded :
      (nodes : List AstNodeInsert)
      → commit_at env with_store m nodes w (some s.provisional) ≡ (w, err db)
  unfolding commit_at
  commit_at_stranded nodes = elim (Bool-cases (env.sql_fails begin)) [
    | inl t ↦ simp t
    | inr t ↦ simp (
      t,
      s.private,
      insert_blob_tx_taken env m.content_hash s.provisional m.size m.compressed_size s.row w.db
          s.taken,
    )
  ]

  commit_marker_stranded :
      (nodes : List AstNodeInsert) → commit_marker env with_store m nodes w ≡ (w, err db)
  unfolding commit_marker
  commit_marker_stranded nodes =
      ap (commit_at env with_store m nodes w) s.has_blob ∙ commit_at_stranded nodes

  commit_read_marker_stranded :
      (commit_read_marker ast_of env with_store name m w).0 ≡ w
      × IsErr (commit_read_marker ast_of env with_store name m w).1
  unfolding commit_read_marker
  commit_read_marker_stranded = elim (Option-cases (ast_of m.ast_nodes)) [
    | inl e ↦ rw (commit_read_marker, e) (refl, tt)
    | inr (nodes, e) ↦ rw (commit_read_marker, e, commit_marker_stranded nodes) (refl, tt)
  ]

  -- Whatever happens, a stranded marker is not committed and not checkpointed: every call fails and
  -- changes nothing.
  pub commit_pending_marker_stranded :
      ((commit_pending_marker ast_of env with_store name w).0 ≡ w)
      × IsErr (commit_pending_marker ast_of env with_store name w).1
  unfolding commit_pending_marker
  commit_pending_marker_stranded = elim (Bool-cases env.read_fails) [
    | inl t ↦ simp t (refl, tt)
    | inr t ↦ simp (t, s.queued) commit_read_marker_stranded
  ]

same_id : (a b : ℕ) → some a ≡ some b → a ≡ b
same_id a b e = ground (arith, e)

abbrev blobs_of : Result (BlobInsertResult × Db) → Map ℕ Blob
blobs_of (ok (r, d)) = d.blobs
blobs_of (err e) = []

insert_row_free :
    (id : ℕ) (row : Blob) (d : Db)
    → lookup id d.blobs ≡ none
    → lookup id (blobs_of (insert_row id row d)) ≡ some row
insert_row_free id row d free =
    simp (blobs_of, insert_row, free) (lookup-insert_self id row d.blobs)

-- A private insertion that succeeds leaves a row at its id.
insert_blob_tx_private :
    (env : Env) (hash : Bytes) (id size : ℕ) (csize : Option ℕ) (d d' : Db) (r : BlobInsertResult)
    → env.sql_fails insert_blob ≡ false
    → lookup id d.blobs ≡ none
    → insert_blob_tx env hash id none size csize false d ≡ ok (r, d')
    → (row : Blob) × (lookup id d'.blobs ≡ some row)
unfolding insert_blob_tx
insert_blob_tx_private env hash id size csize d d' r up free e =
    let row : Blob = record {
      content_hash = hash;
      backend_id = none;
      size = size;
      compressed_size = csize;
      shared = false;
      created_at = env.now;
    } in
    (row, ap (λ x. lookup id (blobs_of x)) (sym e) ∙ simp up (insert_row_free id row d free))

module _ (ast_of : Bytes → Option (List AstNodeInsert)) (env : Env) (name : Bytes)
    (m : PendingMarker) (w : World) (up : IsUp env) (ready : IsReady ast_of name m w) where
  crashed-IsStranded :
      m.shared ≡ false
      → env.read_fails ≡ false
      → env.remove_fails ≡ true
      → let w' = (commit_pending_marker ast_of env true name w).0 in
        IsPresent m.version_id w'.db × IsStranded name m w'
  crashed-IsStranded private reads crash =
      let i = inserts ast_of env name m w up ready in
      let (row, taken) =
        insert_blob_tx_private env m.content_hash ready.provisional m.size m.compressed_size w.db
          i.after i.dedup (up.sql insert_blob) ready.free
          (ap
              (λ b.
                insert_blob_tx env m.content_hash ready.provisional none m.size m.compressed_size b
                  w.db)
              (sym private)
            ∙ i.done) in
      rw (commit_pending_marker_ready ast_of env name m w up ready reads) (
        simp crash (
          (_, landed_version ast_of env name m w up ready),
          record {
            queued = ready.queued;
            private = private;
            provisional = ready.provisional;
            has_blob = ready.has_blob;
            row = row;
            taken = taken;
          },
        ))

  -- A private marker that can be committed is stranded if its call reads it, the database answers, and
  -- the unlink after the COMMIT does not happen (a crash): its version is in the database and the marker
  -- is in the queue, and in every later state in which the marker is still queued and the row of its
  -- blob is as it was left, every call for it, whatever answers, fails and changes nothing, so that no
  -- call checkpoints the marker.
  pub crash_strands_private_marker :
      m.shared ≡ false
      → env.read_fails ≡ false
      → env.remove_fails ≡ true
      → (v : World) (again : Env) (with_store : Bool) → lookup name v.queue ≡ some (some m)
      → lookup ready.provisional v.db.blobs
        ≡ lookup ready.provisional (commit_pending_marker ast_of env true name w).0.db.blobs
      → let w' = (commit_pending_marker ast_of env true name w).0 in
        IsPresent m.version_id w'.db
        × (lookup name w'.queue ≡ some (some m))
        × ((commit_pending_marker ast_of again with_store name v).0 ≡ v)
        × IsErr (commit_pending_marker ast_of again with_store name v).1
  crash_strands_private_marker private reads crash v again with_store queued row =
      let (there, stranded) = crashed-IsStranded private reads crash in
      let (same, fails) = commit_pending_marker_stranded ast_of again with_store name m v (record {
        queued = queued;
        private = private;
        provisional = ready.provisional;
        has_blob = ready.has_blob;
        row = stranded.row;
        taken =
            row
            ∙ ap (λ k. lookup k (commit_pending_marker ast_of env true name w).0.db.blobs)
                (same_id ready.provisional stranded.provisional
                  (sym ready.has_blob ∙ stranded.has_blob))
            ∙ stranded.taken;
      }) in
      (there, stranded.queued, same, fails)
