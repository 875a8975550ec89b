-- ===== src/Pipeline.antt =====
-- The two-stage commit pipeline of the FUSE daemon (crates/smartfs-fuse/src/pending.rs): the limits,
-- the overlay of uncommitted writes, the gate that bounds them, and each atomic part of a
-- submission, of a scan and of the drain. `Pipeline/Steps` interleaves the parts.
pub mod Limits
pub mod Steps
pub mod Backlog
pub mod Recovery
pub mod Scans
pub mod Views
pub mod Numbering
use smartfs.Base.{
  ℕ, ◌+◌, ◌-◌, ◌%◌, ◌^◌, Bool, true, false, Option, none, some, List, [], ◌∷◌, ◌++◌, Bytes, ltb,
  nat_eq, bytes_eq, ◌==◌, if◌then◌else◌, Map, lookup, insert, remove, length,
}
use smartfs.Schema.Error.{SmartFsError, store, pending_queue_full, Result, ok, err, ◌>>=◌}
use smartfs.Schema.Marker.{PendingMarker, file_name, parse_file_name}
use smartfs.Store.Queue.{list}
use smartfs.Db.Models.{AstNodeInsert, Env}
use smartfs.Db.Replay.{World, commit_pending_marker}

pub record PendingView : Type 0 where
  pub blob_id : Option ℕ
  pub size : ℕ
  pub content_hash : Bytes
  pub file_name : Bytes

-- `PendingOverlay`, by inode.
abbrev pub Overlay : Type 0
Overlay = Map ℕ PendingView

unfoldable pub publish : ℕ → PendingView → Overlay → Overlay
publish inode_id view o = insert inode_id view o

unfoldable pub withdraw : ℕ → Bytes → Overlay → Overlay
withdraw inode_id name o = elim (lookup inode_id o) [
  | none ↦ o
  | some v ↦ if v.file_name == name then remove inode_id o else o
]

pub record Gate : Type 0 where
  pub outstanding : ℕ
  pub max : ℕ

-- One `fetch_update`: a slot, if one is free.
unfoldable pub try_admit : Gate → Gate × Bool
try_admit g =
    if ltb g.outstanding g.max
    then (record g { outstanding = g.outstanding + 1 }, true)
    else (g, false)

-- `saturating_sub`
unfoldable pub release : Gate → Gate
release g = record g { outstanding = g.outstanding - 1 }

-- What the drain has in hand between its commit and the handling of the outcome.
pub record Settling : Type 0 where
  pub name : Bytes
  pub inode_id : Option ℕ
  pub outcome : Result (Option Bool)

-- The shared state. `inflight` is a set, as the keys of a map; `channel` is the unbounded channel to
-- the drain, its oldest name first; `alive` is false once the drain has dropped its end.
pub record Pipeline : Type 0 where
  pub world : World
  pub seq : ℕ
  pub gate : Gate
  pub overlay : Overlay
  pub inflight : Map Bytes (Unit {0})
  pub channel : List Bytes
  pub alive : Bool
  pub settling : Option Settling

abbrev pub view_of_marker : PendingMarker → Bytes → PendingView
view_of_marker m name = record {
  blob_id = m.blob_id;
  size = m.size;
  content_hash = m.content_hash;
  file_name = name;
}

unfoldable pub view_of : ℕ → Pipeline → Option PendingView
view_of inode_id p = lookup inode_id p.overlay

-- Whether the name was not there before.
unfoldable pub mark_inflight : Bytes → Pipeline → Pipeline × Bool
mark_inflight name p = elim (lookup name p.inflight) [
  | some _ ↦ (p, false)
  | none ↦ (record p { inflight = insert name tt p.inflight }, true)
]

unfoldable pub clear_inflight : Bytes → Pipeline → Pipeline
clear_inflight name p = record p { inflight = remove name p.inflight }

unfoldable pub send : Bytes → Pipeline → Pipeline × Bool
send name p =
    if p.alive then (record p { channel = p.channel ++ (name ∷ []) }, true) else (p, false)

-- `PendingQueue::enqueue`: the marker is in the directory, or the error is given.
unfoldable pub enqueue : Option SmartFsError → PendingMarker → World → World × Result (Unit {0})
enqueue none m w = (record w { queue = insert (file_name m) (some m) w.queue }, ok tt)
enqueue (some e) m w = (w, err e)

-- The parts of `submit`. The first takes the slot.
unfoldable pub admit : Pipeline → Pipeline × Bool
admit p = let (g, admitted) = try_admit p.gate in (record p { gate = g }, admitted)

-- The second makes the marker durable, or gives the slot back.
unfoldable pub make_durable :
    Option SmartFsError → PendingMarker → Pipeline → Pipeline × Result (Unit {0})
make_durable failure m p =
    let (w, r) = enqueue failure m p.world in
    elim r [
      | ok _ ↦ (record p { world = w }, ok tt)
      | err e ↦ (record p { world = w; gate = release p.gate }, err e)
    ]

-- The third shows it to readers.
unfoldable pub show : PendingMarker → Pipeline → Pipeline
show m p = record p { overlay = publish m.inode_id (view_of_marker m (file_name m)) p.overlay }

-- The fourth hands it to the drain.
unfoldable pub hand_over : Bytes → Pipeline → Pipeline × Result (Unit {0})
hand_over name p =
    let (q, sent) = send name (mark_inflight name p).0 in
    if sent then (q, ok tt) else (clear_inflight name q, err store)

-- `submit`, when nothing else runs in between; `p` is the state at its last look at the gate.
unfoldable pub submit :
    Option SmartFsError → PendingMarker → Pipeline → Pipeline × Result (Unit {0})
submit failure m p =
    let (q, admitted) = admit p in
    if admitted
    then elim (make_durable failure m q).1 [
      | err e ↦ ((make_durable failure m q).0, err e)
      | ok _ ↦ hand_over (file_name m) (show m (make_durable failure m q).0)
    ]
    else (q, err pending_queue_full)

-- What becomes of a name that a scan finds: it was in flight, it is sent, or the drain is gone.
pub data Requeued : Type 0 where
  skipped requeued refused : Requeued

unfoldable pub requeue : Bytes → Pipeline → Pipeline × Requeued
requeue name p =
    let (q, new) = mark_inflight name p in
    let (q', sent) = send name q in
    if new
    then (if sent then (q', requeued) else (clear_inflight name q', refused))
    else (p, skipped)

-- The loop of `rescan` over the names that were listed, with the number requeued so far.
unfoldable pub rescan_names : List Bytes → Pipeline → ℕ → Pipeline × Result ℕ
rescan_names [] p n = (p, ok n)
rescan_names (name ∷ names) p n = elim (requeue name p).1 [
  | skipped ↦ rescan_names names (requeue name p).0 n
  | requeued ↦ rescan_names names (requeue name p).0 (n + 1)
  | refused ↦ ((requeue name p).0, err store)
]

-- `rescan`, when nothing else runs in between; the listing may fail.
unfoldable pub rescan : Option SmartFsError → Pipeline → Pipeline × Result ℕ
rescan (some e) p = (p, err e)
rescan none p = rescan_names (list p.world.queue) p 0

-- `fetch_add(1)`
unfoldable pub next_seq : Pipeline → Pipeline × ℕ
next_seq p = (record p { seq = (p.seq + 1) % 2 ^ 64 }, p.seq)

-- The loop of `rebuild_overlay`: a marker that is gone is skipped, one that is no JSON is an error.
unfoldable pub rebuild_overlay :
    List Bytes → Map Bytes (Option PendingMarker) → Overlay → Result Overlay
rebuild_overlay [] queue o = ok o
rebuild_overlay (name ∷ names) queue o = elim (lookup name queue) [
  | none ↦ rebuild_overlay names queue o
  | some none ↦ err store
  | some (some m) ↦ rebuild_overlay names queue (publish m.inode_id (view_of_marker m name) o)
]

-- The sequence number of the last name, or 0.
unfoldable pub highest : List Bytes → ℕ
highest [] = 0
highest (name ∷ []) = elim (parse_file_name name) [ none ↦ 0 | some (seq, hash) ↦ seq ]
highest (name ∷ next ∷ names) = highest (next ∷ names)

-- The state that `start` sets up: the gate is seeded from the queue.
abbrev pub initial : ℕ → World → Overlay → Pipeline
initial max_entries w overlay = record {
  world = w;
  seq = (highest (list w.queue) + 1) % 2 ^ 64;
  gate = record { outstanding = length (list w.queue); max = max_entries };
  overlay = overlay;
  inflight = [];
  channel = [];
  alive = true;
  settling = none;
}

-- `start`, over a directory that can be read and when nothing else runs in between, with the number of
-- markers replayed. In Steps its scan may also run among the other threads, from the initial state.
unfoldable pub start : ℕ → World → Result (Pipeline × ℕ)
start max_entries w = do
  overlay ← rebuild_overlay (list w.queue) w.queue []
  replayed ← (rescan none (initial max_entries w overlay)).1
  ok ((rescan none (initial max_entries w overlay)).0, replayed)

-- The inode of a queued marker, which the drain reads before it commits.
abbrev pub inode_of : Option (Option PendingMarker) → Option ℕ
inode_of (some (some m)) = some m.inode_id
inode_of _ = none

-- The state after the drain has settled an outcome.
unfoldable pub settle_outcome : Settling → Pipeline → Pipeline
settle_outcome s p = elim s.outcome [
  | ok (some _) ↦ record p {
    overlay = elim s.inode_id [ none ↦ p.overlay | some i ↦ withdraw i s.name p.overlay ];
    gate = release p.gate;
  }
  | ok none ↦ p
  | err e ↦ p
]

unfoldable pub settle : Settling → Pipeline → Pipeline
settle s p = settle_outcome s (record (clear_inflight s.name p) { settling = none })

module _ (ast_of : Bytes → Option (List AstNodeInsert)) where
  -- The first half of an iteration of `drain_loop`, for a name that was received.
  unfoldable pub commit_received : Env → Bytes → Pipeline → Pipeline
  commit_received env name p =
      let (w, r) = commit_pending_marker ast_of env true name p.world in
      record p {
        world = w;
        settling = some (record {
          name = name;
          inode_id = if env.read_fails then none else inode_of (lookup name p.world.queue);
          outcome = r;
        });
      }
