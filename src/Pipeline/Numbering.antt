-- ===== src/Pipeline/Numbering.antt =====
-- The numbers of new markers, against those that the directory holds at the start
-- (crates/smartfs-fuse/src/pending.rs, `start` and `next_seq`).
use smartfs.Base.{
  none, ℕ, ◌+◌, ◌^◌, ◌≤◌, ◌<◌, ◌≡◌, refl, true, List, [], ◌∷◌, Bytes, bytes_ltb, arith,
}
use smartfs.Schema.Error.{ok}
use smartfs.Schema.Marker.{file_name_for}
use smartfs.Schema.Marker.Order.{file_name_for_order}
use smartfs.Store.Queue.{queued, list}
use smartfs.Store.Queue.Fifo.{AllNames, IsFifo, seq_of, sort_names-IsFifo, IsMarkerName-seq_of}
use smartfs.Db.Replay.{World}
use smartfs.Pipeline.{
  Pipeline, start, initial, rescan, highest, next_seq, requeue, mark_inflight, clear_inflight, send,
}
use smartfs.Pipeline.Steps.{start_sound, rescan_names-keeps}

abbrev AllUpTo : ℕ → List Bytes → Type 0
AllUpTo n [] = Unit
AllUpTo n (x ∷ l) = (seq_of x ≤ n) × AllUpTo n l

highest-AllUpTo : (l : List Bytes) → IsFifo l → AllUpTo (highest l) l
unfolding highest seq_of
highest-AllUpTo [] f = tt
highest-AllUpTo (x ∷ []) f = (omega arith, tt)
highest-AllUpTo (x ∷ y ∷ l) f =
    let more = highest-AllUpTo (y ∷ l) f.1 in (omega (arith, f.0.0, more.0), more)

requeue-seq : (name : Bytes) (p : Pipeline) → (requeue name p).0.seq ≡ p.seq
unfolding requeue mark_inflight send clear_inflight
requeue-seq name p = ground arith

rescan-seq : (p : Pipeline) → (rescan none p).0.seq ≡ p.seq
unfolding rescan
rescan-seq p =
    rescan_names-keeps (λ q. q.seq ≡ p.seq) (λ name q k. ground (arith, requeue-seq name q, k))
      (list p.world.queue) p 0 refl

-- Every name of the list sorts before `name`.
abbrev pub AllBefore : Bytes → List Bytes → Type 0
AllBefore name [] = Unit
AllBefore name (x ∷ l) = (bytes_ltb x name ≡ true) × AllBefore name l

before :
    (seq : ℕ) (hash : Bytes) (n : ℕ) (l : List Bytes)
    → n < seq
    → seq < 2 ^ 64
    → AllNames l
    → AllUpTo n l
    → AllBefore (file_name_for seq hash) l
before seq hash n [] above small c u = tt
before seq hash n (x ∷ l) above small c u = (
  ground (
    arith,
    c.0.shape,
    IsMarkerName-seq_of x c.0,
    file_name_for_order c.0.seq seq c.0.hash hash c.0.range small,
    u.0,
  ),
  before seq hash n l above small c.1 u.1,
)

-- The order of writes survives a restart: over a directory whose well-formed names are those that
-- markers make, numbered below 2^64 - 1, the first marker that is numbered after a start sorts
-- behind every marker that was there, whatever its content.
pub next_seq-start_sorts_last :
    (max_entries : ℕ) (w : World) (p : Pipeline) (n : ℕ) (hash : Bytes)
    → AllNames (queued w.queue)
    → highest (list w.queue) + 1 < 2 ^ 64
    → start max_entries w ≡ ok (p, n)
    → AllBefore (file_name_for (next_seq p).1 hash) (list w.queue)
unfolding next_seq list
next_seq-start_sorts_last max_entries w p n hash names small e =
    let (o, f, g) = start_sound max_entries w p n e in
    let (all, fifo) = sort_names-IsFifo (queued w.queue) names in
    before p.seq hash (highest (list w.queue)) (list w.queue)
      (ground (arith, g, rescan-seq (initial max_entries w o)))
      (ground (arith, g, rescan-seq (initial max_entries w o))) all
      (highest-AllUpTo (list w.queue) fifo)
