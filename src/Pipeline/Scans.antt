-- ===== src/Pipeline/Scans.antt =====
-- A scan whose rounds interleave with everything else (crates/smartfs-fuse/src/pending.rs, `rescan`).
use smartfs.Base.{
  ℕ, ◌≡◌, refl, true, Option, none, some, List, [], ◌∷◌, Bytes, nat_eq, lookup, insert, remove,
  arith, sym, ◌∙◌,
}
use smartfs.Schema.Error.{SmartFsError}
use smartfs.Schema.Marker.{PendingMarker, file_name}
use smartfs.Store.Queue.{list}
use smartfs.Db.Models.{AstNodeInsert}
use smartfs.Db.Replay.{World}
use smartfs.Pipeline.{
  Pipeline, Settling, requeue, refused, Overlay, initial, admit, make_durable, enqueue, show,
  hand_over, mark_inflight, clear_inflight, send, commit_received, settle, settle_outcome,
}
use smartfs.Pipeline.Steps.{
  System, Step, admits, makes_durable, fails, shows, hands_over, begins_scan, requeues, ends_scan,
  scanning, resumed, commits, settles, stops, commits_elsewhere, Reach, later,
}
use smartfs.Pipeline.Recovery.{with_drain, Reach-IsTracked, requeue-Requeues}

-- The system once the thread `t` has listed the directory for a scan.
abbrev pub begun : ℕ → System → System
begun t s = record s { threads = insert t (scanning (list s.pipe.world.queue)) s.threads }

-- The system after a round of the scan of the thread `t`.
abbrev pub after_round : ℕ → Bytes → List Bytes → System → System
after_round t name names s = record {
  pipe = (requeue name s.pipe).0;
  threads = resumed t names (requeue name s.pipe).1 (remove t s.threads);
}

-- A run of the system from a state in which the thread `t` has still to go through some names, to the
-- end of its scan. Between two rounds the other threads, the drain and other processes make any steps.
pub data Scan (ast_of : Bytes → Option (List AstNodeInsert)) (t : ℕ)
    : System → List Bytes → System → Type 0 where
  ended : {s : System} → lookup t s.threads ≡ some (scanning []) → Scan ast_of t s [] s
  waits :
      {s r u : System} {names : List Bytes}
      → Step ast_of s r
      → lookup t r.threads ≡ lookup t s.threads
      → Scan ast_of t r names u
      → Scan ast_of t s names u
  round :
      {s u : System} (name : Bytes) (names : List Bytes)
      → lookup t s.threads ≡ some (scanning (name ∷ names))
      → Scan ast_of t (after_round t name names s) names u
      → Scan ast_of t s (name ∷ names) u
  gives_up :
      {s : System} (name : Bytes) (names : List Bytes)
      → lookup t s.threads ≡ some (scanning (name ∷ names))
      → (requeue name s.pipe).1 ≡ refused
      → Scan ast_of t s (name ∷ names) (after_round t name names s)

-- The scan has gone through all its names, and behind the round of each the drain was to receive the
-- marker, or had it in hand.
abbrev pub AllHandedOver :
    {ast_of : Bytes → Option (List AstNodeInsert)} {t : ℕ} (s : System) (names : List Bytes)
    (u : System)
    → Scan ast_of t s names u
    → Type 0
AllHandedOver _ _ _ (ended e) = Unit
AllHandedOver _ names u (waits {r = r} step e x) = AllHandedOver r names u x
AllHandedOver s _ u (round name names e x) =
    (with_drain name (requeue name s.pipe).0 ≡ true) × AllHandedOver _ names u x
AllHandedOver _ _ _ (gives_up name names e f) = ⊥

requeue-alive : (name : Bytes) (p : Pipeline) → (requeue name p).0.alive ≡ p.alive
unfolding requeue mark_inflight send clear_inflight
requeue-alive name p = ground arith

module _ (p : Pipeline) where
  hand_over-alive : (name : Bytes) → (hand_over name p).0.alive ≡ p.alive
  unfolding hand_over mark_inflight send clear_inflight
  hand_over-alive name = ground arith

  make_durable-alive :
      (e : Option SmartFsError) (m : PendingMarker) → (make_durable e m p).0.alive ≡ p.alive
  unfolding make_durable enqueue
  make_durable-alive none m = refl
  make_durable-alive (some e) m = refl

  settle-alive : (x : Settling) → (settle x p).alive ≡ p.alive
  unfolding settle settle_outcome clear_inflight
  settle-alive x = ground arith

-- A drain that has stopped never lives again.
Step-alive :
    (ast_of : Bytes → Option (List AstNodeInsert)) (s r : System)
    → Step ast_of s r
    → r.pipe.alive ≡ true
    → s.pipe.alive ≡ true
unfolding admit show commit_received
Step-alive ast_of s _ (admits t m new free) h = h
Step-alive ast_of s _ (makes_durable t m found) h = sym (make_durable-alive s.pipe none m) ∙ h
Step-alive ast_of s _ (fails t m e found) h = sym (make_durable-alive s.pipe (some e) m) ∙ h
Step-alive ast_of s _ (shows t m found) h = h
Step-alive ast_of s _ (hands_over t m found) h = sym (hand_over-alive s.pipe (file_name m)) ∙ h
Step-alive ast_of s _ (begins_scan t new) h = h
Step-alive ast_of s _ (requeues t name names found) h = sym (requeue-alive name s.pipe) ∙ h
Step-alive ast_of s _ (ends_scan t found) h = h
Step-alive ast_of s _ (commits env name names e free alive) h = alive
Step-alive ast_of s _ (settles x e) h = sym (settle-alive s.pipe x) ∙ h
Step-alive ast_of s _ stops h = ground (arith, h)
Step-alive ast_of s _ (commits_elsewhere env with_store name) h = h

module _ (ast_of : Bytes → Option (List AstNodeInsert)) (t : ℕ) where
  Scan-alive :
      (s u : System) (names : List Bytes)
      → Scan ast_of t s names u
      → u.pipe.alive ≡ true
      → s.pipe.alive ≡ true
  Scan-alive s _ _ (ended e) h = h
  Scan-alive s u names (waits {r = r} step e x) h =
      Step-alive ast_of s r step (Scan-alive r u names x h)
  Scan-alive s u _ (round name names e x) h =
      sym (requeue-alive name s.pipe) ∙ Scan-alive _ u names x h
  Scan-alive s _ _ (gives_up name names e f) h = sym (requeue-alive name s.pipe) ∙ h

  module _ (max_entries : ℕ) (w : World) (o : Overlay) where
    scan-AllHandedOver :
        (s u : System) (names : List Bytes) (x : Scan ast_of t s names u)
        → Reach ast_of (initial max_entries w o) s
        → u.pipe.alive ≡ true
        → AllHandedOver s names u x
    scan-AllHandedOver s _ _ (ended e) r h = tt
    scan-AllHandedOver s u names (waits step e x) r h =
        scan-AllHandedOver _ u names x (later r step) h
    scan-AllHandedOver s u _ (round name names e x) r h =
        let alive =
          sym (requeue-alive name s.pipe) ∙ Scan-alive (after_round t name names s) u names x h in
        (
          (requeue-Requeues name s.pipe alive (Reach-IsTracked ast_of max_entries w o s r)).there,
          scan-AllHandedOver (after_round t name names s) u names x
              (later r (requeues t name names e)) h,
        )
    scan-AllHandedOver s _ _ (gives_up name names e f) r h =
        elim ((requeue-Requeues name s.pipe (sym (requeue-alive name s.pipe) ∙ h)
            (Reach-IsTracked ast_of max_entries w o s r)).sent
          f) [ ]

-- From the pipeline as it is set up, before the scan of the start, whatever has happened before, failed
-- commits and other processes included, and whatever the other threads, the drain and other processes
-- do between its rounds: a scan that begins with the listing of the directory and at whose end the
-- drain lives is not given up, and right after the round of each marker that was listed the drain was
-- to receive it or had it in hand.
pub rescan_covers :
    (ast_of : Bytes → Option (List AstNodeInsert)) (max_entries : ℕ) (w : World) (o : Overlay)
    (t : ℕ) (s u : System)
    → Reach ast_of (initial max_entries w o) s
    → (new : lookup t s.threads ≡ none)
    → (x : Scan ast_of t (begun t s) (list s.pipe.world.queue) u) → u.pipe.alive ≡ true
    → AllHandedOver (begun t s) (list s.pipe.world.queue) u x
rescan_covers ast_of max_entries w o t s u r new x alive =
    scan-AllHandedOver ast_of t max_entries w o (begun t s) u (list s.pipe.world.queue) x
      (later r (begins_scan t new)) alive
