-- ===== src/Tests/Scrub.antt =====
-- A scrub at concrete inputs (crates/smartfs-store/src/scrub.rs).
use smartfs.Base.{
  ℕ, ◌≡◌, refl, true, false, Option, none, some, [], ◌∷◌, List, Bytes, take, lookup, nat_eq,
  bytes_eq, bytes_beq, Map,
}
use smartfs.Schema.Error.{Result, ok}
use smartfs.Store.Scrub.{
  digest_of, digest, missing, ScrubReport, full, scrub_once, scrub_blobs, scrub_blob, verify,
  count_orphans, is_expected, DirectoryEntry,
}
use smartfs.Store.Scrub.Verdicts.{IsExact, finding, scrub_once-IsExact}

abbrev files : Map ℕ Bytes
files = (1, 5 ∷ []) ∷ (2, 6 ∷ []) ∷ []

abbrev read_file : ℕ → Result (Option Bytes)
read_file id = ok (lookup id files)

-- The first blob is as recorded, the second has other bytes, and the third has no file.
abbrev recorded : List (ℕ × Bytes)
recorded = (1, 5 ∷ []) ∷ (2, 7 ∷ []) ∷ (3, 8 ∷ []) ∷ []

abbrev listed : List DirectoryEntry
listed =
    record { is_dir = true; uuid = none }
    ∷ record { is_dir = false; uuid = some 4 }
    ∷ record { is_dir = false; uuid = some 1 }
    ∷ []

abbrev scrubbed : ScrubReport
scrubbed = record {
  checked = 2;
  intact = 1;
  findings = finding 2 (7 ∷ []) (digest (6 ∷ [])) ∷ finding 3 (8 ∷ []) missing ∷ [];
  unreferenced = 1;
}

scrub_done : scrub_once read_file digest_of (ok (some listed)) recorded full ≡ ok scrubbed
unfolding scrub_once scrub_blobs scrub_blob verify count_orphans is_expected lookup bytes_beq
scrub_done = refl

scrub_once-IsExact_example : IsExact read_file digest_of (take 3 recorded) scrubbed
scrub_once-IsExact_example =
    scrub_once-IsExact read_file digest_of (ok (some listed)) recorded full scrubbed scrub_done
