-- ===== src/Cleaner.antt =====
-- The collection of blobs that no version references (crates/smartfs-fuse/src/cleaner.rs). What
-- others do to the world while a pass runs, and what fails, are arguments.
pub mod Report
pub mod Protection
use smartfs.Base.{
  ℕ, ◌+◌, Bool, true, false, ◌||◌, Option, none, some, List, [], ◌∷◌, Bytes, nat_eq, bytes_eq, ◌==◌,
  if◌then◌else◌, length, remove,
}
use smartfs.Schema.Error.{Result, ok, err, db, io}
use smartfs.Schema.Marker.{parse_file_name}
use smartfs.Store.Queue.{list}
use smartfs.Db.Models.{Db}
use smartfs.Db.Blobs.{list_unreferenced_blobs, delete_blob_if_unreferenced}
use smartfs.Db.Replay.{World}

pub record CleanReport : Type 0 where
  pub candidates : ℕ
  pub reclaimed : ℕ
  pub skipped_pending : ℕ
  pub skipped_raced : ℕ
  pub file_delete_failed : ℕ

-- The hashes that the names in the queue carry.
unfoldable pub protected_hashes : List Bytes → List Bytes
protected_hashes [] = []
protected_hashes (name ∷ names) = elim (parse_file_name name) [
  | none ↦ protected_hashes names
  | some (seq, hash) ↦ hash ∷ protected_hashes names
]

unfoldable pub contains : Bytes → List Bytes → Bool
contains x [] = false
contains x (y ∷ l) = y == x || contains x l

-- What a step of a pass meets: what others have done since the last one, and what fails.
pub record Turn : Type 0 where
  pub others : World → World
  pub sql_fails : Bool
  pub file_fails : Bool

-- The deletion of a row and then of its file.
unfoldable pub delete_candidate : Turn → ℕ → World → CleanReport → World × Result CleanReport
delete_candidate turn id w r =
    let (d, deleted) = delete_blob_if_unreferenced id w.db in
    if turn.sql_fails
    then (w, err db)
    else if deleted
    then (if turn.file_fails
        then (record w { db = d }, ok (record r { file_delete_failed = r.file_delete_failed + 1 }))
        else (
          record w { db = d; blobs = remove id w.blobs },
          ok (record r { reclaimed = r.reclaimed + 1 }),
        ))
    else (w, ok (record r { skipped_raced = r.skipped_raced + 1 }))

-- The body of the loop, after what others did.
unfoldable pub clean_candidate :
    Turn → List Bytes → ℕ × Bytes → World → CleanReport → World × Result CleanReport
clean_candidate turn protected (id, hash) w r =
    if contains hash protected
    then (w, ok (record r { skipped_pending = r.skipped_pending + 1 }))
    else delete_candidate turn id w r

unfoldable pub clean_candidates :
    (ℕ → Turn) → List Bytes → List (ℕ × Bytes) → World → CleanReport → World × Result CleanReport
clean_candidates turns protected [] w r = (w, ok r)
clean_candidates turns protected (c ∷ cs) w r =
    let turn = turns (length cs) in
    let (w', answer) = clean_candidate turn protected c (turn.others w) r in
    elim answer [ err e ↦ (w', err e) | ok r' ↦ clean_candidates turns protected cs w' r' ]

-- The report at the start of the loop.
abbrev pub proposed : List (ℕ × Bytes) → CleanReport
proposed candidates = record {
  candidates = length candidates;
  reclaimed = 0;
  skipped_pending = 0;
  skipped_raced = 0;
  file_delete_failed = 0;
}

-- The part of a pass behind the reading of the queue and the scan, which met `scan`.
abbrev pub clean_scanned : (ℕ → Turn) → Turn → List (ℕ × Bytes) → World → World × Result CleanReport
clean_scanned turns scan candidates w =
    clean_candidates turns (protected_hashes (list w.queue)) candidates (scan.others w)
      (proposed candidates)

unfoldable pub clean_once :
    (ℕ → Turn) → Turn → Bool → ℕ → ℕ → ℕ → World → World × Result CleanReport
clean_once turns scan list_fails now grace_secs batch w =
    if list_fails
    then (w, err (io none))
    else if scan.sql_fails
    then (scan.others w, err db)
    else clean_scanned turns scan (list_unreferenced_blobs now grace_secs batch (scan.others w).db)
        w
