-- ===== src/Pipeline/Backlog.antt =====
-- The slots of the gate and the markers in the queue directory: what each step of the pipeline does
-- to them (crates/smartfs-fuse/src/pending.rs).
pub mod Bound
use smartfs.Base.{
  ℕ, ◌+◌, ◌≤◌, ◌≡◌, refl, max, Bool, true, false, Bool-cases, Option, none, some, Option-cases, inl,
  inr, List, [], ◌∷◌, Map, Bytes, nat_eq, bytes_eq, lookup, insert, remove, length, count_where,
  Distinct, lookup-remove_self, length-remove_lt, length-insert_le, count_where-insert,
  count_where-remove, insert-Distinct, remove-Distinct, arith, ap, ◌∙◌,
}
use smartfs.Schema.Error.{Result, ok, err, SmartFsError}
use smartfs.Schema.Marker.{PendingMarker, file_name}
use smartfs.Store.Queue.{list}
use smartfs.Db.Models.{AstNodeInsert, Env}
use smartfs.Db.Versions.{CowCommitOutcome}
use smartfs.Db.Replay.{World, checkpoint, commit_marker, commit_read_marker, commit_pending_marker}
use smartfs.Db.Replay.Safety.{commit_marker-Lands}
use smartfs.Pipeline.{
  Pipeline, Settling, admit, try_admit, release, make_durable, enqueue, show, hand_over,
  mark_inflight, clear_inflight, send, rescan, requeue, Requeued, skipped, requeued, refused,
  commit_received, settle, settle_outcome, start, initial,
}
use smartfs.Pipeline.Steps.{
  Phase, admitted, durable, shown, scanning, resumed, System, Step, admits, makes_durable, fails,
  shows, hands_over, begins_scan, requeues, ends_scan, commits, settles, stops, commits_elsewhere,
  Reach, here, later, rescan_names-keeps, start_sound,
}

-- One for a marker that was checkpointed.
abbrev pub checkpointed : Result (Option Bool) → ℕ
checkpointed (ok (some b)) = 1
checkpointed (ok none) = 0
checkpointed (err e) = 0

checkpoint-length :
    (env : Env) (name : Bytes) (m : Option PendingMarker) (w : World)
    (p : World × Result CowCommitOutcome)
    → p.0.queue ≡ w.queue
    → lookup name w.queue ≡ some m
    → let q = checkpoint env name p in length q.0.queue + checkpointed q.1 ≤ length w.queue
checkpoint-length env name m w (w', err e) k found = rw k (omega arith)
checkpoint-length env name m w (w', ok o) k found = elim (Bool-cases env.remove_fails) [
  | inl t ↦ simp t (rw k (omega arith))
  | inr t ↦ simp t (rw k (length-remove_lt name m w.queue found))
]

module _ (ast_of : Bytes → Option (List AstNodeInsert)) (env : Env) (with_store : Bool)
    (name : Bytes) (w : World) where
  read_marker-length :
      (m : PendingMarker)
      → lookup name w.queue ≡ some (some m)
      → let q = commit_read_marker ast_of env with_store name m w in
        length q.0.queue + checkpointed q.1 ≤ length w.queue
  unfolding commit_read_marker
  read_marker-length m found = elim (Option-cases (ast_of m.ast_nodes)) [
    | inl e ↦ rw (commit_read_marker, e) (omega arith)
    | inr (nodes, e) ↦
        rw (commit_read_marker, e)
          (checkpoint-length env name (some m) w (commit_marker env with_store m nodes w)
            ((commit_marker-Lands env with_store m nodes w).1) found)
  ]

  -- A commit that checkpoints takes its marker out of the queue, and none puts one in.
  commit_pending_marker-length :
      let q = commit_pending_marker ast_of env with_store name w in
      length q.0.queue + checkpointed q.1 ≤ length w.queue
  unfolding commit_pending_marker
  commit_pending_marker-length = elim (Bool-cases env.read_fails) [
    | inl t ↦ rw (commit_pending_marker, t) (omega arith)
    | inr t ↦ elim (Option-cases (lookup name w.queue)) [
      | inl e ↦ rw (commit_pending_marker, t, e) (omega arith)
      | inr (none, e) ↦ rw (commit_pending_marker, t, e) (omega arith)
      | inr (some m, e) ↦ rw (commit_pending_marker, t, e) (read_marker-length m e)
    ]
  ]

-- One for a submission that has its slot and not yet its marker.
abbrev pub is_admitted : Phase → Bool
is_admitted (admitted m) = true
is_admitted (durable m) = false
is_admitted (shown m) = false
is_admitted (scanning names) = false

abbrev pub in_hand : Option Settling → ℕ
in_hand none = 0
in_hand (some x) = checkpointed x.outcome

-- Every marker in the queue directory has a slot of its own, as has every submission that is to
-- write one and every checkpoint that is to be settled; and no more slots are taken than `limit`.
pub record IsBounded (limit : ℕ) (s : System) : Type 0 where
  pub slots :
      length s.pipe.world.queue + count_where is_admitted s.threads + in_hand s.pipe.settling
      ≤ s.pipe.gate.outstanding
  pub taken : s.pipe.gate.outstanding ≤ limit
  pub most : s.pipe.gate.max ≤ limit
  pub distinct : Distinct s.threads

-- A pipeline with the same slots, and a queue and a hand that need no more of them.
pub record Within (p q : Pipeline) : Type 0 where
  pub gate : q.gate ≡ p.gate
  pub need : length q.world.queue + in_hand q.settling ≤ length p.world.queue + in_hand p.settling

pub Within-IsBounded :
    (limit : ℕ) (q : Pipeline) (s : System)
    → IsBounded limit s
    → Within s.pipe q
    → IsBounded limit (record s { pipe = q })
Within-IsBounded limit q s b w = record {
  slots = omega (arith, b.slots, w.need, ap (λ g. g.outstanding) w.gate);
  taken = omega (arith, b.taken, ap (λ g. g.outstanding) w.gate);
  most = omega (arith, b.most, ap (λ g. g.max) w.gate);
  distinct = b.distinct;
}

Within-same :
    (p q : Pipeline)
    → (q.gate ≡ p.gate) × (q.world ≡ p.world) × (q.settling ≡ p.settling)
    → Within p q
Within-same p q (g, w, h) = record {
  gate = g;
  need = omega (arith, ap (λ v. length v.queue) w, ap in_hand h);
}

hand_over-same :
    (name : Bytes) (p : Pipeline)
    → let q = (hand_over name p).0 in
      (q.gate ≡ p.gate) × (q.world ≡ p.world) × (q.settling ≡ p.settling)
unfolding hand_over mark_inflight send clear_inflight
hand_over-same name p = (ground arith, ground arith, ground arith)

requeue-same :
    (name : Bytes) (p : Pipeline)
    → let q = (requeue name p).0 in
      (q.gate ≡ p.gate) × (q.world ≡ p.world) × (q.settling ≡ p.settling)
unfolding requeue mark_inflight send clear_inflight
requeue-same name p = (ground arith, ground arith, ground arith)

-- A submission moves on: its slot turns into a marker, or is given back, or is taken.
module _ (limit : ℕ) (s : System) (b : IsBounded limit s) (t : ℕ) (m : PendingMarker) where
  pub admits-IsBounded :
      lookup t s.threads ≡ none
      → (admit s.pipe).1 ≡ true
      → IsBounded limit
          (record { pipe = (admit s.pipe).0; threads = insert t (admitted m) s.threads })
  unfolding admit try_admit
  admits-IsBounded new free = record {
    slots = ground (arith, b.slots, count_where-insert is_admitted t (admitted m) s.threads new);
    taken = ground (arith, b.taken, b.most);
    most = ground (arith, b.most);
    distinct = insert-Distinct t (admitted m) s.threads b.distinct;
  }

  pub durable-IsBounded :
      lookup t s.threads ≡ some (admitted m)
      → IsBounded limit (record {
        pipe = (make_durable none m s.pipe).0;
        threads = insert t (durable m) (remove t s.threads);
      })
  unfolding make_durable enqueue
  durable-IsBounded found = record {
    slots = ground (
      arith,
      b.slots,
      length-insert_le (file_name m) (some m) s.pipe.world.queue,
      count_where-insert is_admitted t (durable m) (remove t s.threads)
          (lookup-remove_self t s.threads),
      count_where-remove is_admitted t (admitted m) s.threads b.distinct found,
    );
    taken = b.taken;
    most = b.most;
    distinct =
        insert-Distinct t (durable m) (remove t s.threads) (remove-Distinct t s.threads b.distinct);
  }

  pub fails-IsBounded :
      (e : SmartFsError)
      → lookup t s.threads ≡ some (admitted m)
      → IsBounded limit
          (record { pipe = (make_durable (some e) m s.pipe).0; threads = remove t s.threads })
  unfolding make_durable enqueue release
  fails-IsBounded e found = record {
    slots =
        omega (
          arith,
          b.slots,
          count_where-remove is_admitted t (admitted m) s.threads b.distinct found,
        );
    taken = omega (arith, b.taken);
    most = b.most;
    distinct = remove-Distinct t s.threads b.distinct;
  }

  pub shows-IsBounded :
      lookup t s.threads ≡ some (durable m)
      → IsBounded limit
          (record { pipe = show m s.pipe; threads = insert t (shown m) (remove t s.threads) })
  unfolding show
  shows-IsBounded found = record {
    slots = ground (
      arith,
      b.slots,
      count_where-insert is_admitted t (shown m) (remove t s.threads)
          (lookup-remove_self t s.threads),
      count_where-remove is_admitted t (durable m) s.threads b.distinct found,
    );
    taken = b.taken;
    most = b.most;
    distinct =
        insert-Distinct t (shown m) (remove t s.threads) (remove-Distinct t s.threads b.distinct);
  }

  pub hands_over-IsBounded :
      lookup t s.threads ≡ some (shown m)
      → IsBounded limit
          (record { pipe = (hand_over (file_name m) s.pipe).0; threads = remove t s.threads })
  hands_over-IsBounded found =
      Within-IsBounded limit (hand_over (file_name m) s.pipe).0
        (record s { threads = remove t s.threads })
        (record {
          slots = ground (
            arith,
            b.slots,
            count_where-remove is_admitted t (shown m) s.threads b.distinct found,
          );
          taken = b.taken;
          most = b.most;
          distinct = remove-Distinct t s.threads b.distinct;
        })
        (Within-same s.pipe _ (hand_over-same (file_name m) s.pipe))

-- A scan takes no slot.
module _ (limit : ℕ) (s : System) (b : IsBounded limit s) (t : ℕ) where
  pub begins_scan-IsBounded :
      (names : List Bytes)
      → lookup t s.threads ≡ none
      → IsBounded limit (record s { threads = insert t (scanning names) s.threads })
  begins_scan-IsBounded names new = record {
    slots =
        ground (arith, b.slots, count_where-insert is_admitted t (scanning names) s.threads new);
    taken = b.taken;
    most = b.most;
    distinct = insert-Distinct t (scanning names) s.threads b.distinct;
  }

  pub ends_scan-IsBounded :
      (names : List Bytes)
      → lookup t s.threads ≡ some (scanning names)
      → IsBounded limit (record s { threads = remove t s.threads })
  ends_scan-IsBounded names found = record {
    slots = ground (
      arith,
      b.slots,
      count_where-remove is_admitted t (scanning names) s.threads b.distinct found,
    );
    taken = b.taken;
    most = b.most;
    distinct = remove-Distinct t s.threads b.distinct;
  }

resumed-IsBounded :
    (limit : ℕ) (p : Pipeline) (t : ℕ) (names : List Bytes) (r : Requeued) (threads : Map ℕ Phase)
    → lookup t threads ≡ none
    → IsBounded limit (record { pipe = p; threads = threads })
    → IsBounded limit (record { pipe = p; threads = resumed t names r threads })
resumed-IsBounded limit p t names refused threads new b = b
resumed-IsBounded limit p t names skipped threads new b =
    begins_scan-IsBounded limit (record { pipe = p; threads = threads }) b t names new
resumed-IsBounded limit p t names requeued threads new b =
    begins_scan-IsBounded limit (record { pipe = p; threads = threads }) b t names new

pub requeues-IsBounded :
    (limit : ℕ) (s : System) (t : ℕ) (name : Bytes) (names : List Bytes)
    → IsBounded limit s
    → lookup t s.threads ≡ some (scanning (name ∷ names))
    → IsBounded limit (record {
      pipe = (requeue name s.pipe).0;
      threads = resumed t names (requeue name s.pipe).1 (remove t s.threads);
    })
requeues-IsBounded limit s t name names b found =
    resumed-IsBounded limit (requeue name s.pipe).0 t names (requeue name s.pipe).1
      (remove t s.threads) (lookup-remove_self t s.threads)
      (Within-IsBounded limit (requeue name s.pipe).0 (record s { threads = remove t s.threads })
        (ends_scan-IsBounded limit s b t (name ∷ names) found)
        (Within-same s.pipe _ (requeue-same name s.pipe)))

-- The other steps need no more slots.
module _ (p : Pipeline) where
  pub rescan-Within : Within p (rescan none p).0
  unfolding rescan
  rescan-Within = Within-same p (rescan none p).0 (
      rescan_names-keeps (λ q. (q.gate ≡ p.gate) × (q.world ≡ p.world) × (q.settling ≡ p.settling))
        (λ name q k. let (g, w, h) = requeue-same name q in (g ∙ k.0, w ∙ k.1, h ∙ k.2))
        (list p.world.queue) p 0 (refl, refl, refl))

  pub received-Within :
      (ast_of : Bytes → Option (List AstNodeInsert)) (env : Env) (name : Bytes) (names : List Bytes)
      → p.settling ≡ none
      → Within p (commit_received ast_of env name (record p { channel = names }))
  unfolding commit_received
  received-Within ast_of env name names free = record {
    gate = refl;
    need =
        omega (arith, commit_pending_marker-length ast_of env true name p.world, ap in_hand free);
  }

  pub elsewhere-Within :
      (ast_of : Bytes → Option (List AstNodeInsert)) (env : Env) (with_store : Bool) (name : Bytes)
      → Within p (record p { world = (commit_pending_marker ast_of env with_store name p.world).0 })
  elsewhere-Within ast_of env with_store name = record {
    gate = refl;
    need = omega (arith, commit_pending_marker-length ast_of env with_store name p.world);
  }

pub settles-IsBounded :
    (limit : ℕ) (x : Settling) (s : System)
    → IsBounded limit s
    → s.pipe.settling ≡ some x
    → IsBounded limit (record s { pipe = settle x s.pipe })
unfolding settle settle_outcome clear_inflight release
settles-IsBounded limit x s b e = record {
  slots = ground (arith, b.slots, ap in_hand e);
  taken = ground (arith, b.taken);
  most = ground (arith, b.most);
  distinct = b.distinct;
}
