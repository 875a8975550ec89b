-- ===== src/Tests/Markers.antt =====
-- Marker names and the listing of the queue at concrete inputs
-- (crates/smartfs-schema/src/pending.rs and crates/smartfs-store/src/pending.rs).
use mathlib.Core.List.{Perm}
use smartfs.Base.{
  ℕ, ◌≡◌, ◌<◌, refl, true, some, [], ◌∷◌, length, Bytes, replicate, Map, bytes_beq, arith,
}
use smartfs.Schema.Marker.{
  file_name_for, parse_file_name, all_hex, is_hex_digit, is_digit, strip_suffix, split_once,
  parse_u64, parse_digits, zero_padded,
}
use smartfs.Schema.Marker.Names.{parse_file_name-file_name_for}
use smartfs.Store.Queue.{queued, list}
use smartfs.Store.Queue.Fifo.{IsFifo, AllNames, list-IsFifo, IsMarkerName}

abbrev pub hash : Bytes
hash = replicate 64 b'a'

hash-length : length hash ≡ 64
hash-length = refl

hash-all_hex : all_hex hash ≡ true
unfolding all_hex is_hex_digit is_digit
hash-all_hex = refl

parse_file_name-file_name_for_example : parse_file_name (file_name_for 42 hash) ≡ some (42, hash)
parse_file_name-file_name_for_example =
    parse_file_name-file_name_for 42 hash (omega arith) hash-length hash-all_hex

-- A directory that `readdir` gives in the wrong order, with a stray file.
abbrev directory : Map Bytes ℕ
directory = (file_name_for 10 hash, 0) ∷ (b'x' ∷ [], 1) ∷ (file_name_for 9 hash, 2) ∷ []

pub named : (seq : ℕ) → seq < 100 → IsMarkerName (file_name_for seq hash)
named seq h = record {
  seq = seq;
  hash = hash;
  range = omega arith;
  width = hash-length;
  hex = hash-all_hex;
  shape = refl;
}

directory-AllNames : AllNames (queued directory)
unfolding queued parse_file_name strip_suffix split_once parse_u64 parse_digits file_name_for
    zero_padded all_hex is_hex_digit is_digit bytes_beq
directory-AllNames = (named 10 (omega arith), (named 9 (omega arith), tt))

list-IsFifo_example : IsFifo (list directory) × Perm (list directory) (queued directory)
list-IsFifo_example = list-IsFifo directory directory-AllNames
