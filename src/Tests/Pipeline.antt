-- ===== src/Tests/Pipeline.antt =====
-- The commit pipeline at concrete inputs (crates/smartfs-fuse/src/pending.rs).
use smartfs.Base.{
  ◌≡◌, ◌≤◌, ◌⊎◌, refl, true, none, some, [], ◌∷◌, Bytes, length, lookup, insert, remove, nat_eq,
  bytes_eq, bytes_beq, arith,
}
use smartfs.Schema.Error.{io, ok, err, SmartFsError}
use smartfs.Schema.Marker.{
  PendingMarker, file_name, file_name_for, parse_file_name, strip_suffix, split_once, parse_u64,
  parse_digits, zero_padded, all_hex, is_hex_digit, is_digit,
}
use smartfs.Store.Queue.{queued, list, sort_names, insert_name}
use smartfs.Db.Models.{Db}
use smartfs.Db.Blobs.{insert_blob_tx, shared_blob}
use smartfs.Db.Versions.{
  cow_commit_tx, max_version, latest_version, version_numbered, write_version, update_pointer,
  blob_or_empty_or_virtual, insert_nodes,
}
use smartfs.Db.Replay.{
  World, commit_pending_marker, commit_read_marker, commit_marker, commit_at,
  reconcile_provisional_blob,
}
use smartfs.Db.Replay.Current.{IsCurrent, last_commit-IsCurrent}
use smartfs.Pipeline.{
  Pipeline, Settling, initial, start, rescan, rescan_names, requeue, mark_inflight, send,
  clear_inflight, submit, admit, try_admit, make_durable, enqueue, show, hand_over, highest,
  next_seq, rebuild_overlay, publish, view_of_marker, commit_received, settle, settle_outcome,
  release, withdraw,
}
use smartfs.Pipeline.Steps.{
  Reach, here, later, admits, makes_durable, begins_scan, requeues, ends_scan, scanning, System,
  commits, settles, durable,
}
use smartfs.Pipeline.Backlog.Bound.{backlog_bounded}
use smartfs.Pipeline.Scans.{
  Scan, begun, after_round, waits, round, ended, AllHandedOver, rescan_covers,
}
use smartfs.Pipeline.Views.{
  IsAcknowledged, submit_all_or_nothing, newest, rebuild_overlay-newest, late_view_stays,
}
use smartfs.Pipeline.Numbering.{AllBefore, next_seq-start_sorts_last}
use smartfs.Tests.Commits.{up, inode}
use smartfs.Tests.Markers.{hash, named}
use smartfs.Tests.Replay.{no_nodes, marker, up-IsUp, world, name, ready}

-- A marker with a name that is read back.
abbrev write : PendingMarker
write = record (marker true) { content_hash = hash; seq = 9 }

abbrev empty_db : Db
empty_db = record { inodes = (7, inode) ∷ []; versions = []; blobs = []; ast_nodes = [] }

-- A directory with one marker.
abbrev backlog : World
backlog = record { db = empty_db; queue = (file_name_for 9 hash, some write) ∷ []; blobs = [] }

abbrev name_9 : Bytes
name_9 = file_name_for 9 hash

abbrev started : Pipeline
started = record (initial 5 backlog ((7, view_of_marker write name_9) ∷ [])) {
  inflight = (name_9, tt) ∷ [];
  channel = name_9 ∷ [];
}

start_ok : start 5 backlog ≡ ok (started, 1)
unfolding start rescan rescan_names requeue mark_inflight send clear_inflight rebuild_overlay
    publish highest list queued sort_names insert_name parse_file_name strip_suffix split_once
    parse_u64 parse_digits file_name_for zero_padded all_hex is_hex_digit is_digit bytes_beq lookup
    insert remove
start_ok = refl

backlog-counted : length (list backlog.queue) ≡ 1
unfolding list queued sort_names insert_name parse_file_name strip_suffix split_once parse_u64
    parse_digits file_name_for zero_padded all_hex is_hex_digit is_digit bytes_beq
backlog-counted = refl

backlog_bounded_example : length started.world.queue ≤ 5
backlog_bounded_example =
    backlog_bounded no_nodes 5 backlog started 1 (record { pipe = started; threads = [] })
      backlog-counted start_ok here

abbrev at_start : System
at_start = record { pipe = started; threads = [] }

-- The scan of the start is one of the system's.
at_start-Reach : Reach no_nodes (initial 5 backlog ((7, view_of_marker write name_9) ∷ [])) at_start
unfolding requeue mark_inflight send list queued sort_names insert_name parse_file_name strip_suffix
    split_once parse_u64 parse_digits file_name_for zero_padded all_hex is_hex_digit is_digit
    bytes_beq lookup insert remove
at_start-Reach =
    later (later (later here (begins_scan 0 refl)) (requeues 0 name_9 [] refl)) (ends_scan 0 refl)

-- A scan that the drain, which commits the marker, and another scan interrupt.
abbrev interrupted : System
interrupted = record {
  pipe = commit_received no_nodes up name_9 (record started { channel = [] });
  threads = (1, scanning []) ∷ (0, scanning (list backlog.queue)) ∷ [];
}

one_scan :
    Scan no_nodes 0 (begun 0 at_start) (list backlog.queue) (after_round 0 name_9 [] interrupted)
unfolding requeue mark_inflight send clear_inflight commit_received commit_pending_marker
    commit_read_marker commit_marker commit_at insert_blob_tx shared_blob cow_commit_tx max_version
    latest_version version_numbered write_version update_pointer blob_or_empty_or_virtual
    insert_nodes reconcile_provisional_blob list queued sort_names insert_name parse_file_name
    strip_suffix split_once parse_u64 parse_digits file_name_for zero_padded all_hex is_hex_digit
    is_digit bytes_beq lookup insert remove
one_scan =
    waits (commits up name_9 [] refl refl refl) refl
      (waits (begins_scan 1 refl) refl (round name_9 [] refl (ended refl)))

drain_lives : (after_round 0 name_9 [] interrupted).pipe.alive ≡ true
unfolding requeue mark_inflight send clear_inflight commit_received
drain_lives = ground arith

no_thread : lookup 0 at_start.threads ≡ none
unfolding lookup
no_thread = refl

rescan_covers_example :
    AllHandedOver
      (begun 0 at_start)
      (list backlog.queue)
      (after_round 0 name_9 [] interrupted)
      one_scan
rescan_covers_example =
    rescan_covers no_nodes 5 backlog ((7, view_of_marker write name_9) ∷ []) 0 at_start
      (after_round 0 name_9 [] interrupted) at_start-Reach no_thread one_scan drain_lives

-- A listing that fails is the scan's answer, and nothing is sent.
unlisted : rescan (some (io none)) started ≡ (started, err (io none))
unfolding rescan
unlisted = refl

submit_all_or_nothing_example :
    ((submit none write started).1 ≡ ok tt)
      × IsAcknowledged write started (submit none write started).0
    ⊎ ((e : SmartFsError) × ((submit none write started).1 ≡ err e)
        × ((submit none write started).0 ≡ started))
submit_all_or_nothing_example = submit_all_or_nothing none write started refl

rebuild_overlay-newest_example : lookup 7 started.overlay ≡ some (view_of_marker write name_9)
unfolding newest rebuild_overlay publish lookup insert remove bytes_beq file_name_for zero_padded
rebuild_overlay-newest_example =
    rebuild_overlay-newest 7 (name_9 ∷ []) backlog.queue [] started.overlay refl

next_seq-start_sorts_last_example :
    AllBefore (file_name_for (next_seq started).1 hash) (list backlog.queue)
unfolding highest list queued sort_names insert_name parse_file_name strip_suffix split_once
    parse_u64 parse_digits file_name_for zero_padded all_hex is_hex_digit is_digit bytes_beq
next_seq-start_sorts_last_example =
    next_seq-start_sorts_last 5 backlog started 1 hash (named 9 (omega arith), tt) (omega arith)
      start_ok

last_commit-IsCurrent_example :
    IsCurrent (marker true) (commit_pending_marker no_nodes up true name (world true)).0
last_commit-IsCurrent_example =
    last_commit-IsCurrent no_nodes up name (marker true) (world true) up-IsUp (ready true) refl refl

-- A submission whose marker is found by a scan, and committed, before its view is shown.
abbrev quiet : Pipeline
quiet = initial 5 (record { db = empty_db; queue = []; blobs = (50, 1 ∷ 2 ∷ []) ∷ [] }) []

abbrev written : Pipeline
written = (make_durable none write (admit quiet).0).0

abbrev found : Pipeline
found = (rescan none written).0

abbrev received : Pipeline
received = commit_received no_nodes up name_9 (record found { channel = [] })

abbrev hand : Settling
hand = record { name = name_9; inode_id = some 7; outcome = ok (some true) }

abbrev raced : Pipeline
raced = settle hand received

-- The state that the late publication meets is one that the system reaches.
raced-Reach : Reach no_nodes quiet (record { pipe = raced; threads = (0, durable write) ∷ [] })
unfolding admit try_admit make_durable enqueue rescan rescan_names requeue mark_inflight send
    clear_inflight commit_received commit_pending_marker commit_read_marker commit_marker commit_at
    insert_blob_tx shared_blob cow_commit_tx max_version latest_version version_numbered
    write_version update_pointer blob_or_empty_or_virtual insert_nodes reconcile_provisional_blob
    settle settle_outcome release withdraw publish file_name list queued sort_names insert_name
    parse_file_name strip_suffix split_once parse_u64 parse_digits file_name_for zero_padded all_hex
    is_hex_digit is_digit bytes_beq lookup insert remove
raced-Reach =
    later
      (later
        (later
          (later
            (later (later (later here (admits 0 write refl refl)) (makes_durable 0 write refl))
              (begins_scan 1 refl))
            (requeues 1 name_9 [] refl))
          (ends_scan 1 refl))
        (commits up name_9 [] refl refl refl))
      (settles hand refl)

late_view_stays_example :
    let after =
      commit_received no_nodes up name_9
        (record (hand_over name_9 (show write raced)).0 { channel = [] }) in
    (s : Settling) × (after.settling ≡ some s) × (settle s after ≡ show write raced)
unfolding admit try_admit make_durable enqueue rescan rescan_names requeue mark_inflight send
    clear_inflight commit_received commit_pending_marker commit_read_marker commit_marker commit_at
    insert_blob_tx shared_blob cow_commit_tx max_version latest_version version_numbered
    write_version update_pointer blob_or_empty_or_virtual insert_nodes reconcile_provisional_blob
    settle settle_outcome release withdraw publish file_name list queued sort_names insert_name
    parse_file_name strip_suffix split_once parse_u64 parse_digits file_name_for zero_padded all_hex
    is_hex_digit is_digit bytes_beq lookup insert remove
late_view_stays_example = late_view_stays no_nodes up write raced refl refl refl refl refl
