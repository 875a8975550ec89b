-- ===== src/Fuse/Frame.antt =====
-- What the parts of the callbacks leave as it was (crates/smartfs-fuse/src/fs.rs).
use smartfs.Base.{
  ℕ, ◌≡◌, refl, Option, none, some, List, Bytes, nat_eq, ◌==◌, arith, inl, inr, Bool-cases,
  Option-cases,
}
use smartfs.Schema.Error.{SmartFsError, Result-cases}
use smartfs.Schema.Marker.{PendingMarker}
use smartfs.Db.Models.{Env, AstNodeInsert, put}
use smartfs.Handles.{OpenHandle, get_cached_id, cache_ino_mapping}
use smartfs.Pipeline.{
  Pipeline, submit, admit, try_admit, make_durable, enqueue, release as release_slot, show, publish,
  hand_over, mark_inflight, clear_inflight, send, next_seq,
}
use smartfs.Fuse.{Mount, Codec, db_of, find_by_ino, parent_of, remember, fuse_root_id}
use smartfs.Fuse.Writes.{WriteIds, submit_marker, draw_seq, store_put}
use smartfs.Fuse.Io.{release_marker, inode_of_handle, commit_bytes, commit_handle}

submit_keeps_db :
    (fault : Option SmartFsError) (k : PendingMarker) (p : Pipeline)
    → (submit fault k p).0.world.db ≡ p.world.db
unfolding submit admit try_admit make_durable enqueue release_slot show publish hand_over
    mark_inflight clear_inflight send
submit_keeps_db none k p = ground arith
submit_keeps_db (some e) k p = ground arith

-- The tables and the open files are as they were.
pub record KeepsFiles (m q : Mount) : Type 0 where
  pub db : db_of q ≡ db_of m
  pub state : q.state ≡ m.state

submit_marker-KeepsFiles :
    (fault : Option SmartFsError) (k : PendingMarker) (m : Mount)
    → KeepsFiles m (submit_marker fault k m).0
unfolding submit_marker
submit_marker-KeepsFiles fault k m = record { db = submit_keeps_db fault k m.pipe; state = refl }

module _ (codec : Codec) (nodes_text : List AstNodeInsert → Bytes) (env : Env)
    (fault : Option SmartFsError) (ids : WriteIds) (h : OpenHandle) where
  pub commit_bytes-KeepsFiles :
      (bytes : Bytes) (m : Mount)
      → KeepsFiles m (commit_bytes codec nodes_text env fault ids h bytes m).0
  unfolding commit_bytes draw_seq next_seq store_put
  commit_bytes-KeepsFiles bytes m =
      let n : Mount = (draw_seq m).0 in
      elim (Result-cases (inode_of_handle env h n)) [
        | inl (x, e) ↦ record { db = ground (arith, e); state = ground (arith, e) }
        | inr (row, e) ↦ elim (Result-cases (codec.compress row.1.compression_level bytes)) [
          | inl (x, f) ↦ record { db = ground (arith, e, f); state = ground (arith, e, f) }
          | inr (c, f) ↦ elim (Bool-cases (env.store_fails put)) [
            | inl g ↦ record { db = ground (arith, e, f, g); state = ground (arith, e, f, g) }
            | inr g ↦
                let k =
                  submit_marker-KeepsFiles fault
                    (release_marker codec nodes_text (draw_seq m).1 row ids h bytes c)
                    (store_put env ids.blob_id c n).0 in
                record {
                  db = ground (arith, e, f, g, k.db);
                  state = ground (arith, e, f, g, k.state);
                }
          ]
        ]
      ]

  pub commit_handle-KeepsFiles :
      (m : Mount) → KeepsFiles m (commit_handle codec nodes_text env fault ids h m).0
  unfolding commit_handle
  commit_handle-KeepsFiles m = elim (Bool-cases h.modified) [
    | inr e ↦ record { db = ground (arith, e); state = ground (arith, e) }
    | inl e ↦ elim (Option-cases h.buffer) [
      | inl f ↦ record { db = ground (arith, e, f); state = ground (arith, e, f) }
      | inr (bytes, f) ↦
          let k = commit_bytes-KeepsFiles bytes m in
          record { db = ground (arith, e, f, k.db); state = ground (arith, e, f, k.state) }
    ]
  ]

-- A search for the parent changes the cache of numbers alone.
pub record KeepsTables (m q : Mount) : Type 0 where
  pub pipe : q.pipe ≡ m.pipe
  pub inodes : q.state.inodes ≡ m.state.inodes
  pub handles : q.state.handles ≡ m.state.handles

pub parent_of-KeepsTables :
    (env : Env) (parent : ℕ) (m : Mount) → KeepsTables m (parent_of env parent m).0
unfolding parent_of remember cache_ino_mapping
parent_of-KeepsTables env parent m = elim (Bool-cases (parent == fuse_root_id)) [
  | inl e ↦ elim (Result-cases (find_by_ino env 1 m)) [
    | inl (x, f) ↦ record {
      pipe = ground (arith, e, f);
      inodes = ground (arith, e, f);
      handles = ground (arith, e, f);
    }
    | inr (r, f) ↦ record {
      pipe = ground (arith, e, f);
      inodes = ground (arith, e, f);
      handles = ground (arith, e, f);
    }
  ]
  | inr e ↦ elim (Option-cases (get_cached_id parent m.state)) [
    | inr (id, g) ↦ record {
      pipe = ground (arith, e, g);
      inodes = ground (arith, e, g);
      handles = ground (arith, e, g);
    }
    | inl g ↦ elim (Result-cases (find_by_ino env parent m)) [
      | inl (x, f) ↦ record {
        pipe = ground (arith, e, f, g);
        inodes = ground (arith, e, f, g);
        handles = ground (arith, e, f, g);
      }
      | inr (r, f) ↦ record {
        pipe = ground (arith, e, f, g);
        inodes = ground (arith, e, f, g);
        handles = ground (arith, e, f, g);
      }
    ]
  ]
]
