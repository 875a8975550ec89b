-- ===== src/Fuse/Elsewhere.antt =====
-- What happens to a mount while one of its files is left alone (crates/smartfs-fuse/src/fs.rs and
-- crates/smartfs-fuse/src/pending.rs): other requests and other files' submissions, cut into their
-- atomic parts, and scans, with what a reader of the file's uncommitted bytes sees of it.
use smartfs.Base.{
  ℕ, ◌≡◌, ◌≢◌, refl, sym, ◌∙◌, ap, false, Option, none, some, Bytes, nat_eq, bytes_eq, lookup,
  insert, lookup-insert, arith,
}
use smartfs.Schema.Error.{SmartFsError, ok}
use smartfs.Schema.Marker.{PendingMarker}
use smartfs.Db.Models.{Db, Env, get}
use smartfs.Pipeline.{
  Pipeline, PendingView, view_of, admit, make_durable, enqueue, show, publish, hand_over,
  mark_inflight, clear_inflight, send, requeue, next_seq,
}
use smartfs.Fuse.{Mount, Codec, blob_bytes, store_get}

-- The drain commits nothing and nothing is submitted for the inode; tables change in any way, and a
-- blob is only put under an id that has none.
pub data Elsewhere (inode_id : ℕ) (p : Pipeline) : Pipeline → Type 0 where
  nothing : Elsewhere inode_id p p
  admits : {r : Pipeline} → Elsewhere inode_id p r → Elsewhere inode_id p (admit r).0
  makes_durable :
      {r : Pipeline} (failure : Option SmartFsError) (m : PendingMarker)
      → Elsewhere inode_id p r
      → Elsewhere inode_id p (make_durable failure m r).0
  shows :
      {r : Pipeline} (m : PendingMarker)
      → m.inode_id ≢ inode_id
      → Elsewhere inode_id p r
      → Elsewhere inode_id p (show m r)
  hands_over :
      {r : Pipeline} (name : Bytes)
      → Elsewhere inode_id p r
      → Elsewhere inode_id p (hand_over name r).0
  requeues :
      {r : Pipeline} (name : Bytes)
      → Elsewhere inode_id p r
      → Elsewhere inode_id p (requeue name r).0
  draws : {r : Pipeline} → Elsewhere inode_id p r → Elsewhere inode_id p (next_seq r).0
  stores :
      {r : Pipeline} (blob_id : ℕ) (bytes : Bytes)
      → lookup blob_id r.world.blobs ≡ none
      → Elsewhere inode_id p r
      → Elsewhere inode_id p
          (record r { world = record r.world { blobs = insert blob_id bytes r.world.blobs } })
  changes_tables :
      {r : Pipeline} (d : Db)
      → Elsewhere inode_id p r
      → Elsewhere inode_id p (record r { world = record r.world { db = d } })
  stops :
      {r : Pipeline} → Elsewhere inode_id p r → Elsewhere inode_id p (record r { alive = false })

-- Readers see uncommitted bytes of the inode, and the store has them.
pub record IsShown (codec : Codec) (inode_id : ℕ) (bytes : Bytes) (p : Pipeline) : Type 0 where
  pub view : PendingView
  pub visible : view_of inode_id p ≡ some view
  pub content :
      (n : Mount) (later : Env)
      → n.pipe.world.blobs ≡ p.world.blobs
      → later.store_fails get ≡ false
      → blob_bytes codec later view.blob_id n ≡ ok bytes

module _ (codec : Codec) (inode_id : ℕ) (bytes : Bytes) where
  kept-IsShown :
      (p r : Pipeline)
      → r.overlay ≡ p.overlay
      → r.world.blobs ≡ p.world.blobs
      → IsShown codec inode_id bytes p
      → IsShown codec inode_id bytes r
  unfolding view_of
  kept-IsShown p r overlay blobs x = record {
    view = x.view;
    visible = ap (lookup inode_id) overlay ∙ x.visible;
    content = λ n later e up. x.content n later (e ∙ blobs) up;
  }

  show-IsShown :
      (m : PendingMarker) (p : Pipeline)
      → m.inode_id ≢ inode_id
      → IsShown codec inode_id bytes p
      → IsShown codec inode_id bytes (show m p)
  unfolding view_of show publish
  show-IsShown m p other x = record {
    view = x.view;
    visible = grind (arith, x.visible, other, sym, lookup-insert);
    content = x.content;
  }

  with_new_blob :
      (blob : Option ℕ) (k : ℕ) (b : Bytes) (n : Mount) (old : Mount) (later : Env)
      → lookup k old.pipe.world.blobs ≡ none
      → n.pipe.world.blobs ≡ insert k b old.pipe.world.blobs
      → later.store_fails get ≡ false
      → blob_bytes codec later blob old ≡ ok bytes
      → blob_bytes codec later blob n ≡ ok bytes
  unfolding blob_bytes store_get
  with_new_blob none k b n old later free e up x = x
  with_new_blob (some id) k b n old later free e up x =
      ground (arith, free, e, up, x, nat_eq.beq_iff id k, lookup-insert k id b old.pipe.world.blobs)

  stores-IsShown :
      (k : ℕ) (b : Bytes) (p : Pipeline)
      → lookup k p.world.blobs ≡ none
      → IsShown codec inode_id bytes p
      → IsShown codec inode_id bytes
          (record p { world = record p.world { blobs = insert k b p.world.blobs } })
  unfolding view_of
  stores-IsShown k b p free x = record {
    view = x.view;
    visible = x.visible;
    content = λ n later e up.
        with_new_blob x.view.blob_id k b n (record n { pipe = p }) later free e up
          (x.content (record n { pipe = p }) later refl up);
  }

  make_durable_shows :
      (failure : Option SmartFsError) (m : PendingMarker) (p : Pipeline)
      → let q = (make_durable failure m p).0 in
        (q.overlay ≡ p.overlay) × (q.world.blobs ≡ p.world.blobs)
  unfolding make_durable enqueue
  make_durable_shows none m p = (refl, refl)
  make_durable_shows (some e) m p = (refl, refl)

  admit_shows :
      (p : Pipeline)
      → let q = (admit p).0 in (q.overlay ≡ p.overlay) × (q.world.blobs ≡ p.world.blobs)
  unfolding admit
  admit_shows p = (refl, refl)

  hand_over_shows :
      (name : Bytes) (p : Pipeline)
      → let q = (hand_over name p).0 in (q.overlay ≡ p.overlay) × (q.world.blobs ≡ p.world.blobs)
  unfolding hand_over mark_inflight send clear_inflight
  hand_over_shows name p = ground arith

  requeue_shows :
      (name : Bytes) (p : Pipeline)
      → let q = (requeue name p).0 in (q.overlay ≡ p.overlay) × (q.world.blobs ≡ p.world.blobs)
  unfolding requeue mark_inflight send clear_inflight
  requeue_shows name p = ground arith

  -- What else happens leaves the bytes to readers.
  pub Elsewhere-IsShown :
      {p q : Pipeline}
      → Elsewhere inode_id p q
      → IsShown codec inode_id bytes p
      → IsShown codec inode_id bytes q
  unfolding view_of next_seq
  Elsewhere-IsShown nothing x = x
  Elsewhere-IsShown {q = q} (admits {r} w) x =
      kept-IsShown r q (admit_shows r).0 (admit_shows r).1 (Elsewhere-IsShown w x)
  Elsewhere-IsShown {q = q} (makes_durable {r} failure m w) x =
      let (overlay, blobs) = make_durable_shows failure m r in
      kept-IsShown r q overlay blobs (Elsewhere-IsShown w x)
  Elsewhere-IsShown (shows {r} m other w) x = show-IsShown m r other (Elsewhere-IsShown w x)
  Elsewhere-IsShown {q = q} (hands_over {r} name w) x =
      let (overlay, blobs) = hand_over_shows name r in
      kept-IsShown r q overlay blobs (Elsewhere-IsShown w x)
  Elsewhere-IsShown {q = q} (requeues {r} name w) x =
      let (overlay, blobs) = requeue_shows name r in
      kept-IsShown r q overlay blobs (Elsewhere-IsShown w x)
  Elsewhere-IsShown {q = q} (draws {r} w) x = kept-IsShown r q refl refl (Elsewhere-IsShown w x)
  Elsewhere-IsShown (stores {r} k b free w) x = stores-IsShown k b r free (Elsewhere-IsShown w x)
  Elsewhere-IsShown {q = q} (changes_tables {r} d w) x =
      kept-IsShown r q refl refl (Elsewhere-IsShown w x)
  Elsewhere-IsShown {q = q} (stops {r} w) x = kept-IsShown r q refl refl (Elsewhere-IsShown w x)
