-- ===== src/Fuse/Releasing.antt =====
-- What the answer of a close promises (crates/smartfs-fuse/src/fs.rs, `release`).
use smartfs.Base.{
  ℕ, ◌≡◌, refl, true, false, Option, none, some, List, Bytes, length, lookup, insert,
  lookup-insert_self, nat_eq, bytes_eq, arith, inl, inr, Bool-cases, Option-cases, sym, ap, ◌∙◌,
  subst,
}
use smartfs.Schema.Error.{SmartFsError, ok, err, Result-cases}
use smartfs.Schema.Marker.{PendingMarker, file_name}
use smartfs.Db.Models.{Inode, Env, AstNodeInsert, put, get, select_inode}
use smartfs.Db.Inodes.{inode_get}
use smartfs.Handles.{OpenHandle}
use smartfs.Pipeline.{
  Pipeline, submit, admit, try_admit, make_durable, enqueue, release as release_slot, show, publish,
  hand_over, mark_inflight, clear_inflight, send, view_of, view_of_marker, next_seq,
}
use smartfs.Pipeline.Views.{IsAcknowledged, submit_all_or_nothing}
use smartfs.Fuse.{Mount, Codec, blob_bytes, store_get, db_of}
use smartfs.Fuse.Writes.{WriteIds, marker_of, submit_marker, draw_seq, store_put}
use smartfs.Fuse.Io.{release_marker, inode_of_handle, commit_bytes}

-- A submission touches neither the database nor the blobs.
submit_keeps_blobs :
    (fault : Option SmartFsError) (k : PendingMarker) (p : Pipeline)
    → (submit fault k p).0.world.blobs ≡ p.world.blobs
unfolding submit admit try_admit make_durable enqueue release_slot show publish hand_over
    mark_inflight clear_inflight send
submit_keeps_blobs none k p = ground arith
submit_keeps_blobs (some e) k p = ground arith

kept :
    (fault : Option SmartFsError) (k : PendingMarker) (m : Mount)
    → (submit_marker fault k m).0.pipe.world.blobs ≡ m.pipe.world.blobs
unfolding submit_marker
kept fault k m = submit_keeps_blobs fault k m.pipe

submit_marker-IsAcknowledged :
    (fault : Option SmartFsError) (k : PendingMarker) (m : Mount)
    → m.pipe.alive ≡ true
    → (submit_marker fault k m).1 ≡ ok tt
    → IsAcknowledged k m.pipe (submit_marker fault k m).0.pipe
unfolding submit_marker
submit_marker-IsAcknowledged fault k m alive done =
    elim (submit_all_or_nothing fault k m.pipe alive) [
      | inl (e, a) ↦ a
      | inr (x, e, same) ↦ ground (arith, e, done)
    ]

-- The bytes of a closed file are safe: a marker for the inode, its hash and its size is in the queue,
-- readers see it, and the blob that it names gives the bytes back.
pub record IsDurable (codec : Codec) (inode_id : ℕ) (bytes : Bytes) (q : Mount) : Type 0 where
  pub marker : PendingMarker
  pub queued : lookup (file_name marker) q.pipe.world.queue ≡ some (some marker)
  pub visible : view_of inode_id q.pipe ≡ some (view_of_marker marker (file_name marker))
  pub inode : marker.inode_id ≡ inode_id
  pub hash : marker.content_hash ≡ codec.hash_bytes bytes
  pub size : marker.size ≡ length bytes
  pub content :
      (later : Env)
      → later.store_fails get ≡ false
      → blob_bytes codec later marker.blob_id q ≡ ok bytes

module _ (codec : Codec) (nodes_text : List AstNodeInsert → Bytes) (env : Env)
    (fault : Option SmartFsError) (ids : WriteIds) (h : OpenHandle) (bytes : Bytes) where
  stored_content :
      (c : Bytes) (level : ℕ) (n : Mount) (q : Mount) (later : Env)
      → codec.compress level bytes ≡ ok c
      → q.pipe.world.blobs ≡ insert ids.blob_id c n.pipe.world.blobs
      → later.store_fails get ≡ false
      → blob_bytes codec later (some ids.blob_id) q ≡ ok bytes
  unfolding blob_bytes store_get
  stored_content c level n q later e f g = ground (
    arith,
    f,
    g,
    lookup-insert_self ids.blob_id c n.pipe.world.blobs,
    codec.decompress-compress level bytes c e,
  )

  submitted-IsDurable :
      (c : Bytes) (level seq : ℕ) (row : ℕ × Inode) (n : Mount)
      → row.0 ≡ h.inode_id
      → codec.compress level bytes ≡ ok c
      → n.pipe.alive ≡ true
      → env.store_fails put ≡ false
      → let k = release_marker codec nodes_text seq row ids h bytes c in
        let q = submit_marker fault k (store_put env ids.blob_id c n).0 in
        q.1 ≡ ok tt → IsDurable codec h.inode_id bytes q.0
  unfolding store_put release_marker marker_of
  submitted-IsDurable c level seq row n same e alive up done =
      let k : PendingMarker = release_marker codec nodes_text seq row ids h bytes c in
      let stored : Mount = (store_put env ids.blob_id c n).0 in
      let a = submit_marker-IsAcknowledged fault k stored (ground (arith, up, alive)) done in
      record {
        marker = k;
        queued = a.durable;
        visible = ground (arith, same, a.visible);
        inode = ground (arith, same);
        hash = refl;
        size = refl;
        content = λ later g.
            stored_content c level n _ later e (ground (arith, up, kept fault k stored)) g;
      }

  handle_row : (m : Mount) (row : ℕ × Inode) → inode_of_handle env h m ≡ ok row → row.0 ≡ h.inode_id
  unfolding inode_of_handle inode_get
  handle_row m row e = elim (Bool-cases (env.sql_fails select_inode)) [
    | inl f ↦ ground (arith, e, f)
    | inr f ↦ elim (Option-cases (lookup h.inode_id (db_of m).inodes)) [
      | inl g ↦ ground (arith, e, f, g)
      | inr (i, g) ↦ ground (arith, e, f, g)
    ]
  ]

  drawn_alive : (m : Mount) → m.pipe.alive ≡ true → (draw_seq m).0.pipe.alive ≡ true
  unfolding draw_seq next_seq
  drawn_alive m a = a

  -- The steps of a commit that works.
  commit_bytes_works :
      (m : Mount) (row : ℕ × Inode) (c : Bytes)
      → let n = (draw_seq m).0 in
        inode_of_handle env h n ≡ ok row
        → codec.compress row.1.compression_level bytes ≡ ok c
        → env.store_fails put ≡ false
        → commit_bytes codec nodes_text env fault ids h bytes m
          ≡ submit_marker fault
              (release_marker codec nodes_text (draw_seq m).1 row ids h bytes c)
              (store_put env ids.blob_id c n).0
  unfolding commit_bytes store_put
  commit_bytes_works m row c e f g = ground (arith, e, f, g)

  -- Which steps have worked.
  module _ (m : Mount)
      (done : (commit_bytes codec nodes_text env fault ids h bytes m).1 ≡ ok tt) where
    no_row : (x : SmartFsError) → inode_of_handle env h (draw_seq m).0 ≡ err x → ⊥
    unfolding commit_bytes
    no_row x e = ground (arith, done, e)

    no_bytes :
        (x : SmartFsError) (row : ℕ × Inode)
        → inode_of_handle env h (draw_seq m).0 ≡ ok row
        → codec.compress row.1.compression_level bytes ≡ err x
        → ⊥
    unfolding commit_bytes
    no_bytes x row e f = ground (arith, done, e, f)

    no_store :
        (row : ℕ × Inode) (c : Bytes)
        → inode_of_handle env h (draw_seq m).0 ≡ ok row
        → codec.compress row.1.compression_level bytes ≡ ok c
        → env.store_fails put ≡ true
        → ⊥
    unfolding commit_bytes store_put
    no_store row c e f g = ground (arith, done, e, f, g)

    pub commit_bytes-IsDurable :
        m.pipe.alive ≡ true
        → IsDurable codec h.inode_id bytes (commit_bytes codec nodes_text env fault ids h bytes m).0
    commit_bytes-IsDurable alive =
        let n : Mount = (draw_seq m).0 in
        elim (Result-cases (inode_of_handle env h n)) [
          | inl (x, e) ↦ elim (no_row x e) [ ]
          | inr (row, e) ↦ elim (Result-cases (codec.compress row.1.compression_level bytes)) [
            | inl (x, f) ↦ elim (no_bytes x row e f) [ ]
            | inr (c, f) ↦ elim (Bool-cases (env.store_fails put)) [
              | inl g ↦ elim (no_store row c e f g) [ ]
              | inr g ↦
                  let works = commit_bytes_works m row c e f g in
                  subst (λ z. IsDurable codec h.inode_id bytes z.0) (sym works)
                    (submitted-IsDurable c row.1.compression_level (draw_seq m).1 row n
                      (handle_row n row e) f (drawn_alive m alive) g
                      (ap (λ z. z.1) (sym works) ∙ done))
            ]
          ]
        ]
