-- ===== src/Tests/Cleaner.antt =====
-- Passes of the cleaner at concrete inputs (crates/smartfs-fuse/src/cleaner.rs).
use smartfs.Base.{
  ◌≡◌, refl, true, false, none, some, [], ◌∷◌, Bytes, lookup, remove, nat_eq, bytes_eq, bytes_beq,
}
use smartfs.Schema.Error.{ok, Result}
use smartfs.Schema.Marker.{
  file_name_for, parse_file_name, strip_suffix, split_once, parse_u64, parse_digits, zero_padded,
  all_hex, is_hex_digit, is_digit,
}
use smartfs.Store.Queue.{queued, list, sort_names, insert_name}
use smartfs.Db.Models.{Blob}
use smartfs.Db.Blobs.{
  hash_referenced, unreferenced, insert_by_age, sort_by_age, list_unreferenced_blobs,
  delete_blob_if_unreferenced,
}
use smartfs.Db.Replay.{World}
use smartfs.Cleaner.{
  CleanReport, Turn, contains, protected_hashes, delete_candidate, clean_candidate,
  clean_candidates, clean_once,
}
use smartfs.Cleaner.Protection.{Holds, clean_once_spares_content, clean_once_spares_queued}
use smartfs.Tests.Commits.{first}
use smartfs.Tests.Markers.{hash}
use smartfs.Tests.Replay.{marker}

-- Nobody else runs, and nothing fails.
abbrev quiet_turn : Turn
quiet_turn = record { others = λ w. w; sql_fails = false; file_fails = false }

abbrev blob : Bytes → Blob
blob content_hash = record {
  content_hash = content_hash;
  backend_id = none;
  size = 2;
  compressed_size = none;
  shared = true;
  created_at = 100;
}

-- Blob 40 is queued, 41 is referenced by a version, and 42 is garbage.
abbrev store : World
store = record {
  db = record {
    inodes = [];
    versions = (20, first) ∷ [];
    blobs = (40, blob hash) ∷ (41, blob (b'h' ∷ [])) ∷ (42, blob (b'g' ∷ [])) ∷ [];
    ast_nodes = [];
  };
  queue = (file_name_for 9 hash, some (marker true)) ∷ [];
  blobs = (40, 1 ∷ []) ∷ (41, 2 ∷ []) ∷ (42, 3 ∷ []) ∷ [];
}

abbrev report : CleanReport
report = record {
  candidates = 2;
  reclaimed = 1;
  skipped_pending = 1;
  skipped_raced = 0;
  file_delete_failed = 0;
}

abbrev pass : World × Result CleanReport
pass = clean_once (λ k. quiet_turn) quiet_turn false 10000 3600 500 store

pass-report : pass.1 ≡ ok report
unfolding clean_once clean_candidates clean_candidate delete_candidate contains protected_hashes
    delete_blob_if_unreferenced list_unreferenced_blobs sort_by_age insert_by_age unreferenced
    hash_referenced list queued sort_names insert_name parse_file_name strip_suffix split_once
    parse_u64 parse_digits file_name_for zero_padded all_hex is_hex_digit is_digit bytes_beq lookup
    remove
pass-report = refl

clean_once_spares_content_example : Holds 41 (blob (b'h' ∷ [])) (2 ∷ []) pass.0
unfolding lookup hash_referenced bytes_beq
clean_once_spares_content_example =
    clean_once_spares_content 41 (blob (b'h' ∷ [])) (2 ∷ []) (λ k. quiet_turn) quiet_turn false
      10000 3600 500 store (λ w h. h) (λ k w h. h) (record { row = refl; file = refl }) refl

clean_once_spares_queued_example : Holds 40 (blob hash) (1 ∷ []) pass.0
unfolding contains protected_hashes list queued sort_names insert_name parse_file_name strip_suffix
    split_once parse_u64 parse_digits file_name_for zero_padded all_hex is_hex_digit is_digit
    bytes_beq lookup
clean_once_spares_queued_example =
    clean_once_spares_queued 40 (blob hash) (1 ∷ []) (λ k. quiet_turn) quiet_turn false 10000 3600
      500 store (refl, (refl, (refl, tt))) (λ w h. h) (λ k w h. h)
      (record { row = refl; file = refl }) refl
