-- ===== src/Pipeline/Views.antt =====
-- What readers see of writes that are not committed yet, and the answers of a submission
-- (crates/smartfs-fuse/src/pending.rs).
use smartfs.Base.{
  ℕ, ◌+◌, ◌-◌, ◌≡◌, ◌≢◌, refl, Bool, true, false, Option, none, some, Option-cases, ◌⊎◌, inl, inr,
  List, [], ◌∷◌, ◌++◌, Bytes, nat_eq, bytes_eq, ◌==◌, if◌then◌else◌, Map, lookup, insert, remove,
  lookup-insert, lookup-insert_self, remove-insert, ◌∙◌, arith, Bool-cases, ltb, ap,
}
use smartfs.Schema.Error.{SmartFsError, Result, ok, err, store, pending_queue_full}
use smartfs.Schema.Marker.{PendingMarker, file_name}
use smartfs.Db.Models.{AstNodeInsert, Env}
use smartfs.Db.Replay.{commit_pending_marker}
use smartfs.Pipeline.{
  Pipeline, Settling, hand_over, mark_inflight, clear_inflight, send, commit_received, settle,
  settle_outcome, admit, try_admit, release, make_durable, show, enqueue, submit, Overlay, view_of,
  publish, view_of_marker, PendingView, rebuild_overlay,
}
use smartfs.Pipeline.Recovery.{with_drain, occurs-append}

-- After a submission that was acknowledged.
pub record IsAcknowledged (m : PendingMarker) (p q : Pipeline) : Type 0 where
  pub durable : lookup (file_name m) q.world.queue ≡ some (some m)
  pub visible : view_of m.inode_id q ≡ some (view_of_marker m (file_name m))
  pub others : (i : ℕ) → i ≢ m.inode_id → view_of i q ≡ view_of i p
  pub drained : with_drain (file_name m) q ≡ true
  pub slot : q.gate.outstanding ≡ p.gate.outstanding + 1

-- The state that `submit` hands to the drain.
abbrev submitted : PendingMarker → Pipeline → Pipeline
submitted m p = record p {
  world = record p.world { queue = insert (file_name m) (some m) p.world.queue };
  gate = record p.gate { outstanding = p.gate.outstanding + 1 };
  overlay = insert m.inode_id (view_of_marker m (file_name m)) p.overlay;
}

slot_back : (n : ℕ) → n + 1 - 1 ≡ n
slot_back n = omega arith

module _ (m : PendingMarker) (p : Pipeline) where
  submit_full :
      (failure : Option SmartFsError)
      → ltb p.gate.outstanding p.gate.max ≡ false
      → submit failure m p ≡ (p, err pending_queue_full)
  unfolding submit admit try_admit
  submit_full failure t = simp t refl

  submit_failed :
      (e : SmartFsError)
      → ltb p.gate.outstanding p.gate.max ≡ true
      → submit (some e) m p ≡ (p, err e)
  unfolding submit admit try_admit make_durable enqueue release
  submit_failed e t = simp t (
      ap (λ n. (record p { gate = record { outstanding = n; max = p.gate.max } }, err e))
        (slot_back p.gate.outstanding))

  submit_done :
      ltb p.gate.outstanding p.gate.max ≡ true
      → submit none m p ≡ hand_over (file_name m) (submitted m p)
  unfolding submit admit try_admit make_durable enqueue show publish
  submit_done t = simp t refl

hand_over_alive :
    (name : Bytes) (p : Pipeline)
    → p.alive ≡ true
    → let q = hand_over name p in
      (q.1 ≡ ok tt)
      × (q.0.channel ≡ p.channel ++ (name ∷ []))
      × (q.0.world ≡ p.world)
      × (q.0.overlay ≡ p.overlay)
      × (q.0.gate ≡ p.gate)
unfolding hand_over mark_inflight send
hand_over_alive name p alive = (
  ground (arith, alive),
  ground (arith, alive),
  ground (arith, alive),
  ground (arith, alive),
  ground (arith, alive),
)

hand_over-IsAcknowledged :
    (m : PendingMarker) (p : Pipeline)
    → p.alive ≡ true
    → IsAcknowledged m p (hand_over (file_name m) (submitted m p)).0
unfolding view_of
hand_over-IsAcknowledged m p alive =
    let (done, channel, world, overlay, gate) =
      hand_over_alive (file_name m) (submitted m p) alive in
    record {
      durable = rw world (lookup-insert_self (file_name m) (some m) p.world.queue);
      visible =
          rw overlay (lookup-insert_self m.inode_id (view_of_marker m (file_name m)) p.overlay);
      others = λ i ne. rw overlay (grind (arith, lookup-insert, ne));
      drained = rw channel (grind (arith, occurs-append, bytes_eq.beq_iff));
      slot = rw gate refl;
    }

-- A submission with the drain alive is acknowledged with its marker durable, visible to readers and
-- handed to the drain, or is refused and leaves everything as it was.
pub submit_all_or_nothing :
    (failure : Option SmartFsError) (m : PendingMarker) (p : Pipeline)
    → p.alive ≡ true
    → let q = submit failure m p in
      ((q.1 ≡ ok tt) × IsAcknowledged m p q.0) ⊎ ((e : SmartFsError) × (q.1 ≡ err e) × (q.0 ≡ p))
submit_all_or_nothing failure m p alive = elim (Bool-cases (ltb p.gate.outstanding p.gate.max)) [
  | inl t ↦ answered failure t
  | inr t ↦
      inr (
        pending_queue_full,
        rw (submit_full m p failure t) refl,
        rw (submit_full m p failure t) refl,
      )
]
  where
    answered :
        (failure : Option SmartFsError)
        → ltb p.gate.outstanding p.gate.max ≡ true
        → ((submit failure m p).1 ≡ ok tt) × IsAcknowledged m p (submit failure m p).0
          ⊎ ((e : SmartFsError) × ((submit failure m p).1 ≡ err e) × ((submit failure m p).0 ≡ p))
    answered (some e) t = inr (e, rw (submit_failed m p e t) refl, rw (submit_failed m p e t) refl)
    answered none t = rw (submit_done m p t) (
        inl (
          (hand_over_alive (file_name m) (submitted m p) alive).0,
          hand_over-IsAcknowledged m p alive,
        ))

-- The view of the last marker of an inode in a list of names.
unfoldable pub newest : ℕ → List Bytes → Map Bytes (Option PendingMarker) → Option PendingView
newest i [] queue = none
newest i (name ∷ names) queue = elim (newest i names queue) [
  | some v ↦ some v
  | none ↦ elim (lookup name queue) [
    | some (some m) ↦ if m.inode_id == i then some (view_of_marker m name) else none
    | _ ↦ none
  ]
]

-- After a rebuild, readers of an inode see its last marker in the queue's order, if it has one.
pub rebuild_overlay-newest :
    (i : ℕ) (names : List Bytes) (queue : Map Bytes (Option PendingMarker)) (o q : Overlay)
    → rebuild_overlay names queue o ≡ ok q
    → lookup i q ≡ (elim (newest i names queue) [ some v ↦ some v | none ↦ lookup i o ])
unfolding rebuild_overlay newest publish
rebuild_overlay-newest i [] queue o q e = ground (arith, e)
rebuild_overlay-newest i (name ∷ names) queue o q e = elim (Option-cases (lookup name queue)) [
  | inl f ↦ ground (arith, e, f, rebuild_overlay-newest i names queue o q)
  | inr (none, f) ↦ ground (arith, e, f)
  | inr (some m, f) ↦ grind (
    arith,
    e,
    f,
    rebuild_overlay-newest i names queue (insert m.inode_id (view_of_marker m name) o) q,
    lookup-insert,
  )
]

mark_inflight_new :
    (name : Bytes) (p : Pipeline)
    → lookup name p.inflight ≡ none
    → mark_inflight name p ≡ (record p { inflight = insert name tt p.inflight }, true)
unfolding mark_inflight
mark_inflight_new name p new = rw (mark_inflight, new) refl

send_alive :
    (name : Bytes) (p : Pipeline)
    → p.alive ≡ true
    → send name p ≡ (record p { channel = p.channel ++ (name ∷ []) }, true)
unfolding send
send_alive name p alive =
    ap (λ b. if b then (record p { channel = p.channel ++ (name ∷ []) }, true) else (p, false))
      alive

hand_over_new :
    (name : Bytes) (p : Pipeline)
    → p.alive ≡ true
    → lookup name p.inflight ≡ none
    → hand_over name p ≡ (
      record p { inflight = insert name tt p.inflight; channel = p.channel ++ (name ∷ []) },
      ok tt,
    )
unfolding hand_over
hand_over_new name p alive new =
    let answer : Pipeline × Bool → Pipeline × Result (Unit {0}) =
      λ r. if r.1 then (r.0, ok tt) else (clear_inflight name r.0, err store) in
    ap (λ r. answer (send name r.0)) (mark_inflight_new name p new)
    ∙ ap answer (send_alive name (record p { inflight = insert name tt p.inflight }) alive)

-- The drain's iteration on a marker after which nothing has changed, but that it is out of flight.
pub record DrainsNothing (ast_of : Bytes → Option (List AstNodeInsert)) (env : Env) (name : Bytes)
    (p : Pipeline) : Type 0 where
  pub hand : Settling
  pub taken : (commit_received ast_of env name p).settling ≡ some hand
  pub settled :
      settle hand (commit_received ast_of env name p)
      ≡ record p { inflight = remove name p.inflight; settling = none }

-- When another process has committed a marker, the drain's iteration on it changes nothing but that
-- the marker is out of flight: its slot is not given back and its view is not taken down.
pub gone-DrainsNothing :
    (ast_of : Bytes → Option (List AstNodeInsert)) (env : Env) (name : Bytes) (p : Pipeline)
    → lookup name p.world.queue ≡ none
    → DrainsNothing ast_of env name p
unfolding commit_received commit_pending_marker settle settle_outcome clear_inflight
gone-DrainsNothing ast_of env name p gone = elim (Bool-cases env.read_fails) [
  | inl t ↦ record { hand = _; taken = refl; settled = simp t refl }
  | inr t ↦ record { hand = _; taken = refl; settled = simp (t, gone) refl }
]

-- A view that is shown late stays: if a marker is checkpointed between the parts of `submit` that
-- make it durable and that show it (a scan may hand it to the drain there), then it is shown all
-- the same, and the pass of the drain over it, when it is handed over, leaves the view in place
-- and everything else as it was before, whatever fails.
pub late_view_stays :
    (ast_of : Bytes → Option (List AstNodeInsert)) (env : Env) (m : PendingMarker) (p : Pipeline)
    → p.alive ≡ true
    → p.settling ≡ none
    → p.channel ≡ []
    → lookup (file_name m) p.world.queue ≡ none
    → lookup (file_name m) p.inflight ≡ none
    → let received =
        commit_received ast_of env
          (file_name m)
          (record (hand_over (file_name m) (show m p)).0 { channel = [] }) in
      (s : Settling) × (received.settling ≡ some s) × (settle s received ≡ show m p)
unfolding show
late_view_stays ast_of env m p alive free empty gone out =
    let d =
      gone-DrainsNothing ast_of env (file_name m)
        (record (show m p) { inflight = insert (file_name m) tt p.inflight; channel = [] }) gone in
    rw (hand_over_new (file_name m) (show m p) alive out) (
      d.hand,
      d.taken,
      d.settled ∙ ground (arith, remove-insert (file_name m) tt p.inflight out, free, empty),
    )
