-- ===== src/Cleaner/Report.antt =====
-- The report of a pass adds up (crates/smartfs-fuse/src/cleaner.rs).
use smartfs.Base.{ℕ, ◌+◌, ◌≡◌, Bool, List, [], ◌∷◌, Bytes, length, Bool-cases, arith, inl, inr}
use smartfs.Schema.Error.{ok, Result-cases}
use smartfs.Store.Queue.{list}
use smartfs.Db.Blobs.{list_unreferenced_blobs}
use smartfs.Db.Replay.{World}
use smartfs.Cleaner.{
  CleanReport, Turn, delete_candidate, clean_candidate, clean_candidates, clean_once, proposed,
  protected_hashes,
}

-- The candidates that a report has accounted for.
abbrev accounted : CleanReport → ℕ
accounted r = r.reclaimed + r.skipped_pending + r.skipped_raced + r.file_delete_failed

clean_candidate-accounted :
    (turn : Turn) (protected : List Bytes) (c : ℕ × Bytes) (w : World) (r q : CleanReport)
    → (clean_candidate turn protected c w r).1 ≡ ok q
    → (accounted q ≡ accounted r + 1) × (q.candidates ≡ r.candidates)
unfolding clean_candidate delete_candidate
clean_candidate-accounted turn protected (id, hash) w r q e = (ground (arith, e), ground (arith, e))

clean_candidates-accounted :
    (turns : ℕ → Turn) (protected : List Bytes) (cs : List (ℕ × Bytes)) (w : World)
    (r q : CleanReport)
    → (clean_candidates turns protected cs w r).1 ≡ ok q
    → (accounted q ≡ accounted r + length cs) × (q.candidates ≡ r.candidates)
unfolding clean_candidates
clean_candidates-accounted turns protected [] w r q e = (ground (arith, e), ground (arith, e))
clean_candidates-accounted turns protected (c ∷ cs) w r q e =
    let turn = turns (length cs) in
    let step = clean_candidate turn protected c (turn.others w) r in
    elim (Result-cases step.1) [
      | inl (x, f) ↦ ground (arith, e, f)
      | inr (r', f) ↦
          let (one, same) = clean_candidate-accounted turn protected c (turn.others w) r r' f in
          let (more, equal) =
            clean_candidates-accounted turns protected cs step.0 r' q (ground (arith, e, f)) in
          (omega (arith, one, more), omega (arith, same, equal))
    ]

-- A pass that ends without an error has dealt with each candidate once: it was reclaimed, or
-- skipped for a marker or a reference, or lost its row only; whatever others did meanwhile.
pub clean_once_adds_up :
    (turns : ℕ → Turn) (scan : Turn) (list_fails : Bool) (now grace_secs batch : ℕ) (w : World)
    (r : CleanReport)
    → (clean_once turns scan list_fails now grace_secs batch w).1 ≡ ok r
    → r.candidates ≡ r.reclaimed + r.skipped_pending + r.skipped_raced + r.file_delete_failed
unfolding clean_once
clean_once_adds_up turns scan list_fails now grace_secs batch w r e = elim (Bool-cases list_fails) [
  | inl t ↦ ground (arith, e, t)
  | inr t ↦ elim (Bool-cases scan.sql_fails) [
    | inl u ↦ ground (arith, e, t, u)
    | inr u ↦
        let candidates = list_unreferenced_blobs now grace_secs batch (scan.others w).db in
        let (all, same) =
          clean_candidates-accounted turns (protected_hashes (list w.queue)) candidates
            (scan.others w) (proposed candidates) r (ground (arith, e, t, u)) in
        omega (arith, all, same)
  ]
]
