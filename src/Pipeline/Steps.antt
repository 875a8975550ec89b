-- ===== src/Pipeline/Steps.antt =====
-- The pipeline as a system of threads (crates/smartfs-fuse/src/pending.rs): each submission goes
-- through its four parts, and a scan through its rounds, one for each name that it has listed; these
-- interleave with each other, with the two halves of the drain's iterations, and with a replay of the
-- queue by another process.
use smartfs.Base.{
  arith, ℕ, inl, inr, ◌≡◌, Bool, true, false, Option, none, some, List, [], ◌∷◌, Bytes, nat_eq, Map,
  lookup, insert, remove, ◌+◌,
}
use smartfs.Schema.Error.{SmartFsError, store, err, ok, Result, Result-cases}
use smartfs.Schema.Marker.{PendingMarker, file_name}
use smartfs.Store.Queue.{list}
use smartfs.Db.Models.{AstNodeInsert, Env}
use smartfs.Db.Replay.{World, commit_pending_marker}
use smartfs.Pipeline.{
  Pipeline, Settling, admit, make_durable, show, hand_over, rescan, requeue, rescan_names, skipped,
  requeued, Requeued, refused, start, initial, rebuild_overlay, Overlay, commit_received, settle,
}

-- How far a submission has come, or the names that a scan has still to go through.
pub data Phase : Type 0 where
  admitted durable shown : PendingMarker → Phase
  scanning : List Bytes → Phase

-- The threads after a round of a scan, which ends if the drain is gone.
abbrev pub resumed : ℕ → List Bytes → Requeued → Map ℕ Phase → Map ℕ Phase
resumed t names refused threads = threads
resumed t names skipped threads = insert t (scanning names) threads
resumed t names requeued threads = insert t (scanning names) threads

pub record System : Type 0 where
  pub pipe : Pipeline
  pub threads : Map ℕ Phase

pub data Step (ast_of : Bytes → Option (List AstNodeInsert)) (s : System) : System → Type 0 where
  admits :
      (t : ℕ) (m : PendingMarker)
      → lookup t s.threads ≡ none
      → (admit s.pipe).1 ≡ true
      → Step ast_of s
          (record { pipe = (admit s.pipe).0; threads = insert t (admitted m) s.threads })
  makes_durable :
      (t : ℕ) (m : PendingMarker)
      → lookup t s.threads ≡ some (admitted m)
      → Step ast_of s (record {
        pipe = (make_durable none m s.pipe).0;
        threads = insert t (durable m) (remove t s.threads);
      })
  fails :
      (t : ℕ) (m : PendingMarker) (e : SmartFsError)
      → lookup t s.threads ≡ some (admitted m)
      → Step ast_of s
          (record { pipe = (make_durable (some e) m s.pipe).0; threads = remove t s.threads })
  shows :
      (t : ℕ) (m : PendingMarker)
      → lookup t s.threads ≡ some (durable m)
      → Step ast_of s
          (record { pipe = show m s.pipe; threads = insert t (shown m) (remove t s.threads) })
  hands_over :
      (t : ℕ) (m : PendingMarker)
      → lookup t s.threads ≡ some (shown m)
      → Step ast_of s
          (record { pipe = (hand_over (file_name m) s.pipe).0; threads = remove t s.threads })
  begins_scan :
      (t : ℕ)
      → lookup t s.threads ≡ none
      → Step ast_of s
          (record s { threads = insert t (scanning (list s.pipe.world.queue)) s.threads })
  requeues :
      (t : ℕ) (name : Bytes) (names : List Bytes)
      → lookup t s.threads ≡ some (scanning (name ∷ names))
      → Step ast_of s (record {
        pipe = (requeue name s.pipe).0;
        threads = resumed t names (requeue name s.pipe).1 (remove t s.threads);
      })
  ends_scan :
      (t : ℕ)
      → lookup t s.threads ≡ some (scanning [])
      → Step ast_of s (record s { threads = remove t s.threads })
  commits :
      (env : Env) (name : Bytes) (names : List Bytes)
      → s.pipe.channel ≡ name ∷ names
      → s.pipe.settling ≡ none
      → s.pipe.alive ≡ true
      → Step ast_of s
          (record s { pipe = commit_received ast_of env name (record s.pipe { channel = names }) })
  settles :
      (x : Settling)
      → s.pipe.settling ≡ some x
      → Step ast_of s (record s { pipe = settle x s.pipe })
  stops : Step ast_of s (record s { pipe = record s.pipe { alive = false } })
  -- A pass of `smartfs-cli` over the same queue commits a marker.
  commits_elsewhere :
      (env : Env) (with_store : Bool) (name : Bytes)
      → Step ast_of s (record s {
        pipe = record s.pipe {
          world = (commit_pending_marker ast_of env with_store name s.pipe.world).0;
        };
      })

pub data Reach (ast_of : Bytes → Option (List AstNodeInsert)) (p : Pipeline) : System → Type 0 where
  here : Reach ast_of p (record { pipe = p; threads = [] })
  later : {s t : System} → Reach ast_of p s → Step ast_of s t → Reach ast_of p t

-- A scan keeps what each requeueing keeps.
pub rescan_names-keeps {ℓ} :
    (P : Pipeline → Type ℓ)
    → ((name : Bytes) (p : Pipeline) → P p → P (requeue name p).0)
    → (names : List Bytes) (p : Pipeline) (n : ℕ) → P p
    → P (rescan_names names p n).0
unfolding rescan_names
rescan_names-keeps P keeps [] p n k = k
rescan_names-keeps P keeps (name ∷ names) p n k =
    elim (requeue name p).1
      as (λ r.
        P
          (elim r as (λ _. Pipeline × Result ℕ) [
            | skipped ↦ rescan_names names (requeue name p).0 n
            | requeued ↦ rescan_names names (requeue name p).0 (n + 1)
            | refused ↦ ((requeue name p).0, err store)
          ]).0) [
            | skipped ↦ rescan_names-keeps P keeps names (requeue name p).0 n (keeps name p k)
            | requeued ↦
                rescan_names-keeps P keeps names (requeue name p).0 (n + 1) (keeps name p k)
            | refused ↦ keeps name p k
          ]

-- What a start that succeeds has done.
pub start_sound :
    (max_entries : ℕ) (w : World) (p : Pipeline) (n : ℕ)
    → start max_entries w ≡ ok (p, n)
    → (o : Overlay) × (rebuild_overlay (list w.queue) w.queue [] ≡ ok o)
      × (p ≡ (rescan none (initial max_entries w o)).0)
unfolding start
start_sound max_entries w p n e = elim (Result-cases (rebuild_overlay (list w.queue) w.queue [])) [
  | inl (x, f) ↦ ground (arith, f, e)
  | inr (o, f) ↦ elim (Result-cases (rescan none (initial max_entries w o)).1) [
    | inl (x, g) ↦ ground (arith, f, g, e)
    | inr (k, g) ↦ (o, f, ground (arith, f, g, e))
  ]
]
