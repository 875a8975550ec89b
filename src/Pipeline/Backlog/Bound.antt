-- ===== src/Pipeline/Backlog/Bound.antt =====
-- The gate bounds the markers in the queue directory (crates/smartfs-fuse/src/pending.rs).
use smartfs.Base.{
  ℕ, ◌≤◌, ◌≡◌, refl, max, Option, List, [], Bytes, none, nat_eq, bytes_eq, length, count_where,
  arith,
}
use smartfs.Schema.Error.{ok}
use smartfs.Store.Queue.{list}
use smartfs.Db.Models.{AstNodeInsert}
use smartfs.Db.Replay.{World}
use smartfs.Pipeline.{Pipeline, rescan, start, initial}
use smartfs.Pipeline.Steps.{
  System, Step, admits, makes_durable, fails, shows, hands_over, begins_scan, requeues, ends_scan,
  commits, settles, stops, commits_elsewhere, Reach, here, later, start_sound,
}
use smartfs.Pipeline.Backlog.{
  IsBounded, Within-IsBounded, settles-IsBounded, admits-IsBounded, durable-IsBounded,
  fails-IsBounded, shows-IsBounded, hands_over-IsBounded, rescan-Within, received-Within,
  begins_scan-IsBounded, requeues-IsBounded, ends_scan-IsBounded, elsewhere-Within,
}

Step-IsBounded :
    (ast_of : Bytes → Option (List AstNodeInsert)) (limit : ℕ) (s t : System)
    → Step ast_of s t
    → IsBounded limit s
    → IsBounded limit t
Step-IsBounded ast_of limit s _ (admits t m new free) b = admits-IsBounded limit s b t m new free
Step-IsBounded ast_of limit s _ (makes_durable t m found) b = durable-IsBounded limit s b t m found
Step-IsBounded ast_of limit s _ (fails t m e found) b = fails-IsBounded limit s b t m e found
Step-IsBounded ast_of limit s _ (shows t m found) b = shows-IsBounded limit s b t m found
Step-IsBounded ast_of limit s _ (hands_over t m found) b = hands_over-IsBounded limit s b t m found
Step-IsBounded ast_of limit s _ (begins_scan t new) b =
    begins_scan-IsBounded limit s b t (list s.pipe.world.queue) new
Step-IsBounded ast_of limit s _ (requeues t name names found) b =
    requeues-IsBounded limit s t name names b found
Step-IsBounded ast_of limit s _ (ends_scan t found) b = ends_scan-IsBounded limit s b t [] found
Step-IsBounded ast_of limit s _ (commits env name names e free alive) b =
    Within-IsBounded limit _ s b (received-Within s.pipe ast_of env name names free)
Step-IsBounded ast_of limit s _ (settles x e) b = settles-IsBounded limit x s b e
Step-IsBounded ast_of limit s _ stops b =
    Within-IsBounded limit _ s b (record { gate = refl; need = omega arith })
Step-IsBounded ast_of limit s _ (commits_elsewhere env with_store name) b =
    Within-IsBounded limit _ s b (elsewhere-Within s.pipe ast_of env with_store name)

Reach-IsBounded :
    (ast_of : Bytes → Option (List AstNodeInsert)) (limit : ℕ) (p : Pipeline) (s : System)
    → Reach ast_of p s
    → IsBounded limit (record { pipe = p; threads = [] })
    → IsBounded limit s
Reach-IsBounded ast_of limit p _ here b = b
Reach-IsBounded ast_of limit p _ (later {s} {t} r step) b =
    Step-IsBounded ast_of limit s t step (Reach-IsBounded ast_of limit p s r b)

start-IsBounded :
    (max_entries : ℕ) (w : World) (p : Pipeline) (n : ℕ)
    → length (list w.queue) ≡ length w.queue
    → start max_entries w ≡ ok (p, n)
    → IsBounded (max max_entries (length w.queue)) (record { pipe = p; threads = [] })
unfolding count_where
start-IsBounded max_entries w p n counted e =
    let (o, f, g) = start_sound max_entries w p n e in
    let limit = max max_entries (length w.queue) in
    let s : System = record { pipe = initial max_entries w o; threads = [] } in
    rw g (
      Within-IsBounded limit (rescan none (initial max_entries w o)).0 s
        (record {
          slots = omega (arith, counted);
          taken = omega (arith, counted);
          most = omega arith;
          distinct = tt;
        })
        (rescan-Within (initial max_entries w o)))

-- Whatever the threads do, and whatever fails: if the pipeline starts on a directory in which every
-- file is a marker, then the directory never holds more markers than the limit, or than it held at
-- the start if that was more.
pub backlog_bounded :
    (ast_of : Bytes → Option (List AstNodeInsert)) (max_entries : ℕ) (w : World) (p : Pipeline)
    (n : ℕ) (s : System)
    → length (list w.queue) ≡ length w.queue
    → start max_entries w ≡ ok (p, n)
    → Reach ast_of p s
    → length s.pipe.world.queue ≤ max max_entries (length w.queue)
backlog_bounded ast_of max_entries w p n s counted e r =
    let b =
      Reach-IsBounded ast_of (max max_entries (length w.queue)) p s r
        (start-IsBounded max_entries w p n counted e) in
    omega (arith, b.slots, b.taken)
