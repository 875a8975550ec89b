-- ===== src/Db/Replay/Safety.antt =====
-- What a commit of a marker may change, whatever fails on the way
-- (crates/smartfs-db/src/replay.rs).
use smartfs.Base.{
  ℕ, ◌≡◌, ◌≢◌, refl, Bool, Bool-cases, Option, none, some, Option-cases, ◌⊎◌, inl, inr, Bytes,
  nat_eq, bytes_eq, lookup, lookup-insert, ◌==◌, if◌then◌else◌, lookup-remove_ne, ap, ◌∙◌, arith,
  List,
}
use smartfs.Schema.Error.{SmartFsError, db, Result, ok, err}
use smartfs.Schema.Marker.{PendingMarker}
use smartfs.Db.Models.{
  Db, AstNodeInsert, BlobInsertResult, begin, CommitResult, committed, lost_unapplied, lost_applied,
  Env,
}
use smartfs.Db.Blobs.{insert_blob_tx}
use smartfs.Db.Versions.{
  Commit, CowCommitOutcome, cow_commit_tx, cow_commit_with_id, finish, commit_tx, new_version,
  latest_version,
}
use smartfs.Db.Versions.Numbers.{IsPresent, Inserted, cow_commit_tx-Effect}
use smartfs.Db.Replay.{
  World, commit_of, commit_blob, reconciled, commit_at, commit_marker, checkpoint,
  commit_read_marker, commit_pending_marker,
}

-- No version is lost, and no inode comes back.
pub record Grows (d d' : Db) : Type 0 where
  pub versions : (k : ℕ) → IsPresent k d → IsPresent k d'
  pub gone : (i : ℕ) → lookup i d.inodes ≡ none → lookup i d'.inodes ≡ none

pub same-Grows : (d d' : Db) → d'.versions ≡ d.versions → d'.inodes ≡ d.inodes → Grows d d'
same-Grows d d' v i = record { versions = λ k (w, e). (w, cc (e, v)); gone = λ j e. cc (e, i) }

-- What the database is after a commit with answer `r`: as it was, or with the version; and if the
-- answer is a success, then with the version, or the inode was gone.
pub record Lands {A : Type 0} (id inode_id : ℕ) (d d' : Db) (r : Result A) : Type 0 where
  pub change : (d' ≡ d) ⊎ IsPresent id d'
  pub grows : Grows d d'
  pub replay : IsPresent id d → d' ≡ d
  pub success : (a : A) → r ≡ ok a → (lookup inode_id d.inodes ≡ none) ⊎ IsPresent id d'

insert_blob_tx-keeps :
    (env : Env) (hash : Bytes) (id : ℕ) (backend : Option ℕ) (size : ℕ) (csize : Option ℕ)
    (shared : Bool) (d d' : Db) (r : BlobInsertResult)
    → insert_blob_tx env hash id backend size csize shared d ≡ ok (r, d')
    → (d'.versions ≡ d.versions) × (d'.inodes ≡ d.inodes)
unfolding insert_blob_tx
insert_blob_tx-keeps env hash id backend size csize shared d d' r e = (ground arith, ground arith)

-- The version that a commit inserted is there.
Inserted-IsPresent :
    {env : Env} {c : Commit} {d : Db} {o : CowCommitOutcome} {d' : Db}
    → Inserted env c d o d'
    → IsPresent c.version_id d'
Inserted-IsPresent {c = c} {d = d} {o = o} i = (
  new_version c o.version_number (latest_version c.inode_id d.versions),
  rw i.versions (grind (arith, lookup-insert)),
)

Inserted-Grows :
    {env : Env} {c : Commit} {start : Db} {o : CowCommitOutcome} {d' : Db} (d : Db)
    → Inserted env c start o d'
    → start.versions ≡ d.versions
    → start.inodes ≡ d.inodes
    → Grows d d'
Inserted-Grows {c = c} {start = start} {o = o} d made v i = record {
  versions = λ k (w, e).
      let new = new_version c o.version_number (latest_version c.inode_id start.versions) in
      (
        if c.version_id == k then new else w,
        grind (arith, made.versions, lookup-insert c.version_id k new start.versions, v, e),
      );
  gone = λ j e. grind (arith, made.inodes, made.present, lookup-insert, e, i);
}

error-Lands :
    {A : Type 0} (id inode_id : ℕ) (d : Db) (e : SmartFsError)
    → Lands {A = A} id inode_id d d (err e)
error-Lands id inode_id d e = record {
  change = inl refl;
  grows = same-Grows d d refl refl;
  replay = λ _. refl;
  success = λ a p. cc;
}

commit_tx-Lands :
    (t : CommitResult) (id inode_id : ℕ) (d d' : Db) (o : CowCommitOutcome)
    → lookup id d.versions ≡ none
    → IsPresent id d'
    → Grows d d'
    → Lands id inode_id d (commit_tx t d d' o).0 (commit_tx t d d' o).1
commit_tx-Lands committed id inode_id d d' o fresh there grows = record {
  change = inr there;
  grows = grows;
  replay = λ p. cc (p.1, fresh);
  success = λ a e. inr there;
}
commit_tx-Lands lost_unapplied id inode_id d d' o fresh there grows = error-Lands id inode_id d db
commit_tx-Lands lost_applied id inode_id d d' o fresh there grows = record {
  change = inr there;
  grows = grows;
  replay = λ p. cc (p.1, fresh);
  success = λ a e. inr there;
}

finish-Lands :
    (env : Env) (c : Commit) (d start : Db) (r : Result (CowCommitOutcome × Db))
    → start.versions ≡ d.versions
    → start.inodes ≡ d.inodes
    → cow_commit_tx env c start ≡ r
    → Lands c.version_id c.inode_id d (finish env d r).0 (finish env d r).1
finish-Lands env c d start (err e) v i p = error-Lands c.version_id c.inode_id d e
finish-Lands env c d start (ok (o, d')) v i p =
    let (id, inserted, same) = cow_commit_tx-Effect env c start d' o p in
    elim (Bool-cases o.inserted) [
      | inl t ↦
          let made = inserted t in
          simp t (
            commit_tx-Lands env.commit_result c.version_id c.inode_id d d' o
              (ground (arith, made.fresh, v)) (Inserted-IsPresent made) (Inserted-Grows d made v i))
      | inr f ↦ simp f (record {
        change = inl refl;
        grows = same-Grows d d refl refl;
        replay = λ _. refl;
        success =
            λ a e. elim ((same f).1) [ inl q ↦ inl (cc (q, i)) | inr (w, q) ↦ inr (w, cc (q, v)) ];
      })
    ]

reconciled-Lands :
    (env : Env) (with_store : Bool) (m : PendingMarker) (w : World) (provisional : ℕ)
    (dedup : BlobInsertResult) (p : Db × Result CowCommitOutcome)
    → Lands m.version_id m.inode_id w.db p.0 p.1
    → let q = reconciled env with_store provisional dedup w p in
      Lands m.version_id m.inode_id w.db q.0.db q.1 × (q.0.queue ≡ w.queue)
reconciled-Lands env with_store m w provisional dedup (d, err e) l = (l, refl)
reconciled-Lands env with_store m w provisional dedup (d, ok o) l = (l, refl)

module _ (env : Env) (with_store : Bool) (m : PendingMarker) (nodes : List AstNodeInsert)
    (w : World) where
  commit_blob-Lands :
      (provisional : ℕ) (r : Result (BlobInsertResult × Db))
      → insert_blob_tx env m.content_hash provisional none m.size m.compressed_size m.shared w.db
        ≡ r
      → let q = commit_blob env with_store m provisional nodes w r in
        Lands m.version_id m.inode_id w.db q.0.db q.1 × (q.0.queue ≡ w.queue)
  commit_blob-Lands provisional (err e) p = (error-Lands m.version_id m.inode_id w.db e, refl)
  commit_blob-Lands provisional (ok (dedup, d)) p =
      let (vs, is) =
        insert_blob_tx-keeps env m.content_hash provisional none m.size m.compressed_size m.shared
          w.db d dedup p in
      reconciled-Lands env with_store m w provisional dedup _
        (finish-Lands env (commit_of m (some dedup.blob_id) nodes) w.db d _ vs is refl)

  commit_at-Lands :
      (blob_id : Option ℕ)
      → let q = commit_at env with_store m nodes w blob_id in
        Lands m.version_id m.inode_id w.db q.0.db q.1 × (q.0.queue ≡ w.queue)
  unfolding commit_at cow_commit_with_id
  commit_at-Lands none = elim (Bool-cases (env.sql_fails begin)) [
    | inl t ↦ simp t (error-Lands m.version_id m.inode_id w.db db, refl)
    | inr t ↦ simp t (finish-Lands env (commit_of m none nodes) w.db w.db _ refl refl refl, refl)
  ]
  commit_at-Lands (some provisional) = elim (Bool-cases (env.sql_fails begin)) [
    | inl t ↦ simp t (error-Lands m.version_id m.inode_id w.db db, refl)
    | inr t ↦ simp t (commit_blob-Lands provisional _ refl)
  ]

  pub commit_marker-Lands :
      let q = commit_marker env with_store m nodes w in
      Lands m.version_id m.inode_id w.db q.0.db q.1 × (q.0.queue ≡ w.queue)
  unfolding commit_marker
  commit_marker-Lands = commit_at-Lands m.blob_id

-- What a commit of the marker `m`, named `name`, leaves: the database is as it was or has the
-- version; if it had the version before, it is as it was; and the marker has left the queue only
-- if the database has the version or the inode is gone.
pub record IsSafe (name : Bytes) (m : PendingMarker) (w w' : World) : Type 0 where
  pub change : (w'.db ≡ w.db) ⊎ IsPresent m.version_id w'.db
  pub grows : Grows w.db w'.db
  pub replay : IsPresent m.version_id w.db → w'.db ≡ w.db
  pub kept :
      (lookup name w'.queue ≡ some (some m))
      ⊎ (lookup m.inode_id w.db.inodes ≡ none)
      ⊎ IsPresent m.version_id w'.db
  pub others : (k : Bytes) → k ≢ name → lookup k w'.queue ≡ lookup k w.queue

checkpoint-IsSafe :
    (env : Env) (name : Bytes) (m : PendingMarker) (w : World) (p : World × Result CowCommitOutcome)
    → lookup name w.queue ≡ some (some m)
    → Lands m.version_id m.inode_id w.db p.0.db p.1
    → p.0.queue ≡ w.queue
    → IsSafe name m w (checkpoint env name p).0
checkpoint-IsSafe env name m w (w', err e) q l k = record {
  change = l.change;
  grows = l.grows;
  replay = l.replay;
  kept = inl (cc (q, k));
  others = λ j ne. cc k;
}
checkpoint-IsSafe env name m w (w', ok o) q l k = elim (Bool-cases env.remove_fails) [
  | inl t ↦ simp t (record {
    change = l.change;
    grows = l.grows;
    replay = l.replay;
    kept = inl (cc (q, k));
    others = λ j ne. cc k;
  })
  | inr t ↦ simp t (record {
    change = l.change;
    grows = l.grows;
    replay = l.replay;
    kept = inr (l.success o refl);
    others = λ j ne. lookup-remove_ne name j w'.queue ne ∙ ap (lookup j) k;
  })
]

unchanged-IsSafe :
    (name : Bytes) (m : PendingMarker) (w : World)
    → lookup name w.queue ≡ some (some m)
    → IsSafe name m w w
unchanged-IsSafe name m w q = record {
  change = inl refl;
  grows = same-Grows w.db w.db refl refl;
  replay = λ _. refl;
  kept = inl q;
  others = λ _ _. refl;
}

module _ (ast_of : Bytes → Option (List AstNodeInsert)) (env : Env) (with_store : Bool) where
  commit_read_marker-IsSafe :
      (name : Bytes) (m : PendingMarker) (w : World)
      → lookup name w.queue ≡ some (some m)
      → IsSafe name m w (commit_read_marker ast_of env with_store name m w).0
  unfolding commit_read_marker
  commit_read_marker-IsSafe name m w q = elim (Option-cases (ast_of m.ast_nodes)) [
    | inl e ↦ rw (commit_read_marker, e) (unchanged-IsSafe name m w q)
    | inr (nodes, e) ↦
        let (l, k) = commit_marker-Lands env with_store m nodes w in
        rw (commit_read_marker, e)
          (checkpoint-IsSafe env name m w (commit_marker env with_store m nodes w) q l k)
  ]

  -- Whatever fails while a queued marker is committed, an acknowledged write is not lost: the
  -- marker stays in the queue until the database has its version or its inode is gone, a version
  -- that was there is not committed again, no version is lost, no inode comes back, and no other
  -- marker is touched.
  pub commit_pending_marker-IsSafe :
      (name : Bytes) (m : PendingMarker) (w : World)
      → lookup name w.queue ≡ some (some m)
      → IsSafe name m w (commit_pending_marker ast_of env with_store name w).0
  unfolding commit_pending_marker
  commit_pending_marker-IsSafe name m w q = elim (Bool-cases env.read_fails) [
    | inl t ↦ rw (commit_pending_marker, t) (unchanged-IsSafe name m w q)
    | inr t ↦ rw (commit_pending_marker, t, q) (commit_read_marker-IsSafe name m w q)
  ]
