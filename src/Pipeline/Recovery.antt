-- ===== src/Pipeline/Recovery.antt =====
-- The markers in flight and the drain, and what a scan that nothing interrupts hands to it
-- (crates/smartfs-fuse/src/pending.rs).
use smartfs.Base.{
  ℕ, ◌+◌, ◌≡◌, ◌≢◌, refl, Bool, true, false, ◌||◌, Option, none, some, ◌⊎◌, inl, inr, List, [], ◌∷◌,
  ◌++◌, Bytes, nat_eq, bytes_eq, ◌==◌, lookup, lookup-insert, lookup-remove, arith, is_some,
}
use smartfs.Schema.Error.{SmartFsError, Result, ok}
use smartfs.Schema.Marker.{PendingMarker, file_name}
use smartfs.Store.Queue.{list}
use smartfs.Db.Models.{AstNodeInsert, Env}
use smartfs.Db.Replay.{World}
use smartfs.Pipeline.{
  Overlay, Pipeline, Settling, hand_over, mark_inflight, clear_inflight, send, rescan, rescan_names,
  requeue, Requeued, skipped, requeued, refused, commit_received, settle, settle_outcome, initial,
  admit, make_durable, show, enqueue, Overlay,
}
use smartfs.Pipeline.Steps.{
  System, Step, admits, makes_durable, fails, shows, hands_over, begins_scan, requeues, ends_scan,
  commits, settles, stops, commits_elsewhere, Reach, here, later,
}

unfoldable pub occurs : Bytes → List Bytes → Bool
occurs x [] = false
occurs x (y ∷ l) = y == x || occurs x l

abbrev pub is_held : Bytes → Option Settling → Bool
is_held x none = false
is_held x (some s) = s.name == x

-- The drain will receive the marker, or has it in hand.
abbrev pub with_drain : Bytes → Pipeline → Bool
with_drain x p = occurs x p.channel || is_held x p.settling

-- While the drain lives, it will receive or has in hand every marker that is in flight.
pub record IsTracked (p : Pipeline) : Type 0 where
  tracked :
      p.alive ≡ true → (x : Bytes) → is_some (lookup x p.inflight) ≡ true → with_drain x p ≡ true

pub occurs-append :
    (x y : Bytes) (l : List Bytes) → occurs x (l ++ (y ∷ [])) ≡ (occurs x l || y == x)
unfolding occurs
occurs-append x y [] = ground arith
occurs-append x y (z ∷ l) = ground (arith, occurs-append x y l)

hand_over-IsTracked : (name : Bytes) (p : Pipeline) → IsTracked p → IsTracked (hand_over name p).0
unfolding hand_over mark_inflight send clear_inflight
hand_over-IsTracked name p t = record {
  tracked = λ alive x inside.
      grind (arith, occurs-append, lookup-insert, lookup-remove, t.tracked, bytes_eq.beq_iff);
}

requeue-IsTracked : (name : Bytes) (p : Pipeline) → IsTracked p → IsTracked (requeue name p).0
unfolding requeue mark_inflight send clear_inflight
requeue-IsTracked name p t = record {
  tracked = λ alive x inside.
      grind (arith, occurs-append, lookup-insert, lookup-remove, t.tracked, bytes_eq.beq_iff);
}

-- A change of what `IsTracked` does not look at.
record SameHands (p q : Pipeline) : Type 0 where
  alive : q.alive ≡ p.alive
  channel : q.channel ≡ p.channel
  inflight : q.inflight ≡ p.inflight
  settling : q.settling ≡ p.settling

SameHands-IsTracked : {p q : Pipeline} → SameHands p q → IsTracked p → IsTracked q
SameHands-IsTracked h t = record {
  tracked = λ alive x inside. grind (arith, h.alive, h.channel, h.inflight, h.settling, t.tracked);
}

module _ (p : Pipeline) where
  admit-SameHands : SameHands p (admit p).0
  unfolding admit
  admit-SameHands = record { alive = refl; channel = refl; inflight = refl; settling = refl }

  make_durable-SameHands :
      (failure : Option SmartFsError) (m : PendingMarker) → SameHands p (make_durable failure m p).0
  unfolding make_durable enqueue
  make_durable-SameHands none m = record {
    alive = refl;
    channel = refl;
    inflight = refl;
    settling = refl;
  }
  make_durable-SameHands (some e) m = record {
    alive = refl;
    channel = refl;
    inflight = refl;
    settling = refl;
  }

  received-IsTracked :
      (ast_of : Bytes → Option (List AstNodeInsert)) (env : Env) (name : Bytes) (names : List Bytes)
      → p.channel ≡ name ∷ names
      → p.settling ≡ none
      → IsTracked p
      → IsTracked (commit_received ast_of env name (record p { channel = names }))
  unfolding commit_received occurs
  received-IsTracked ast_of env name names e free t = record {
    tracked = λ alive x inside. grind (arith, e, free, t.tracked alive x inside);
  }

  settle-IsTracked : (s : Settling) → p.settling ≡ some s → IsTracked p → IsTracked (settle s p)
  unfolding settle settle_outcome clear_inflight
  settle-IsTracked s e t = record {
    tracked = λ alive x inside. grind (arith, e, lookup-remove, t.tracked, bytes_eq.beq_iff);
  }

Step-IsTracked :
    (ast_of : Bytes → Option (List AstNodeInsert)) (s t : System)
    → Step ast_of s t
    → IsTracked s.pipe
    → IsTracked t.pipe
Step-IsTracked ast_of s _ (admits t m new free) k = SameHands-IsTracked (admit-SameHands s.pipe) k
Step-IsTracked ast_of s _ (makes_durable t m found) k =
    SameHands-IsTracked (make_durable-SameHands s.pipe none m) k
Step-IsTracked ast_of s _ (fails t m e found) k =
    SameHands-IsTracked (make_durable-SameHands s.pipe (some e) m) k
Step-IsTracked ast_of s _ (shows t m found) k = unfold show in record { tracked = k.tracked }
Step-IsTracked ast_of s _ (hands_over t m found) k = hand_over-IsTracked (file_name m) s.pipe k
Step-IsTracked ast_of s _ (begins_scan t new) k = k
Step-IsTracked ast_of s _ (requeues t name names found) k = requeue-IsTracked name s.pipe k
Step-IsTracked ast_of s _ (ends_scan t found) k = k
Step-IsTracked ast_of s _ (commits env name names e free alive) k =
    received-IsTracked s.pipe ast_of env name names e free k
Step-IsTracked ast_of s _ (settles x e) k = settle-IsTracked s.pipe x e k
Step-IsTracked ast_of s _ stops k = record { tracked = λ alive x inside. ground (arith, alive) }
Step-IsTracked ast_of s _ (commits_elsewhere env with_store name) k = record { tracked = k.tracked }

initial-IsTracked :
    (max_entries : ℕ) (w : World) (o : Overlay) → IsTracked (initial max_entries w o)
unfolding lookup
initial-IsTracked max_entries w o = record { tracked = λ alive x inside. ground (arith, inside) }

pub Reach-IsTracked :
    (ast_of : Bytes → Option (List AstNodeInsert)) (max_entries : ℕ) (w : World) (o : Overlay)
    (s : System)
    → Reach ast_of (initial max_entries w o) s
    → IsTracked s.pipe
Reach-IsTracked ast_of max_entries w o _ here = initial-IsTracked max_entries w o
Reach-IsTracked ast_of max_entries w o _ (later {s} {t} r step) =
    Step-IsTracked ast_of s t step (Reach-IsTracked ast_of max_entries w o s r)

-- One requeueing by a scan, with the drain alive.
pub record Requeues (name : Bytes) (p : Pipeline) : Type 0 where
  pub alive : (requeue name p).0.alive ≡ true
  pub sent : (requeue name p).1 ≢ refused
  pub there : with_drain name (requeue name p).0 ≡ true
  pub kept : (x : Bytes) → with_drain x p ≡ true → with_drain x (requeue name p).0 ≡ true

pub requeue-Requeues :
    (name : Bytes) (p : Pipeline) → p.alive ≡ true → IsTracked p → Requeues name p
unfolding requeue mark_inflight send clear_inflight
requeue-Requeues name p alive t = record {
  alive = ground (arith, alive);
  sent = λ e. ground (arith, alive, e);
  there = grind (arith, alive, occurs-append, t.tracked, bytes_eq.beq_iff);
  kept = λ x h. grind (arith, alive, occurs-append, h);
}

-- Every name of the list is with the drain.
abbrev pub AllWithDrain : List Bytes → Pipeline → Type 0
AllWithDrain [] p = Unit
AllWithDrain (x ∷ l) p = (with_drain x p ≡ true) × AllWithDrain l p

-- What the loop of a scan does, with the drain alive.
record Covers (names : List Bytes) (p : Pipeline) (r : Pipeline × Result ℕ) : Type 0 where
  number : ℕ
  answer : r.1 ≡ ok number
  all : AllWithDrain names r.0
  kept : (x : Bytes) → with_drain x p ≡ true → with_drain x r.0 ≡ true

Covers-cons :
    (name : Bytes) (names : List Bytes) (p : Pipeline) (r : Pipeline × Result ℕ)
    → Requeues name p
    → Covers names (requeue name p).0 r
    → Covers (name ∷ names) p r
Covers-cons name names p r q c = record {
  number = c.number;
  answer = c.answer;
  all = (c.kept name q.there, c.all);
  kept = λ x h. c.kept x (q.kept x h);
}

Requeued-cases : (r : Requeued) → (r ≢ refused) → (r ≡ skipped) ⊎ (r ≡ requeued)
Requeued-cases skipped ne = inl refl
Requeued-cases requeued ne = inr refl
Requeued-cases refused ne = absurd (ne refl)

rescan_names-Covers :
    (names : List Bytes) (p : Pipeline) (n : ℕ)
    → p.alive ≡ true
    → IsTracked p
    → Covers names p (rescan_names names p n)
unfolding rescan_names
rescan_names-Covers [] p n alive t = record { number = n; answer = refl; all = tt; kept = λ x h. h }
rescan_names-Covers (name ∷ names) p n alive t =
    let q = requeue-Requeues name p alive t in
    let more = λ (k : ℕ).
      Covers-cons name names p (rescan_names names (requeue name p).0 k) q
        (rescan_names-Covers names (requeue name p).0 k q.alive (requeue-IsTracked name p t)) in
    elim (Requeued-cases (requeue name p).1 q.sent) [
      | inl e ↦ rw (rescan_names, e) (more n)
      | inr e ↦ rw (rescan_names, e) (more (n + 1))
    ]

-- A scan that nothing interrupts, while the drain lives, succeeds if the directory can be listed, and
-- after it the drain will receive, or has in hand, every marker that the directory lists.
pub rescan_undisturbed :
    (ast_of : Bytes → Option (List AstNodeInsert)) (max_entries : ℕ) (w : World) (o : Overlay)
    (s : System)
    → Reach ast_of (initial max_entries w o) s
    → s.pipe.alive ≡ true
    → ((k : ℕ) × ((rescan none s.pipe).1 ≡ ok k))
      × AllWithDrain (list s.pipe.world.queue) (rescan none s.pipe).0
unfolding rescan
rescan_undisturbed ast_of max_entries w o s r alive =
    let c =
      rescan_names-Covers (list s.pipe.world.queue) s.pipe 0 alive
        (Reach-IsTracked ast_of max_entries w o s r) in
    ((c.number, c.answer), c.all)
