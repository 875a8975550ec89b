-- ===== src/Schema/Marker.antt =====
-- The pending marker and its file name (crates/smartfs-schema/src/pending.rs). Texts are their
-- bytes. A JSON value stands as its text, and a size, an `i64` that is a length, as a number.
pub mod Names
pub mod Order
use smartfs.Base.{
  ℕ, zero, suc, ◌+◌, ◌-◌, ◌*◌, ◌/◌, ◌%◌, ◌^◌, Bool, true, false, ◌&&◌, ◌||◌, Option, none, some,
  List, [], ◌∷◌, ◌++◌, Bytes, length, ltb, leb, nat_beq, nat_eq, bytes_eq, ◌==◌, if◌then◌else◌,
}

pub record PendingMarker : Type 0 where
  pub seq : ℕ
  pub inode_id : ℕ
  pub parent_inode : Option ℕ
  pub name : Bytes
  pub version_id : ℕ
  pub content_hash : Bytes
  pub blob_id : Option ℕ
  pub size : ℕ
  pub compressed_size : Option ℕ
  pub shared : Bool
  pub external_path : Option Bytes
  pub mode : ℕ
  pub uid : ℕ
  pub gid : ℕ
  pub special_type : Option Bytes
  pub special_data : Option Bytes
  pub ast_nodes : Bytes
  pub created_at : Bytes

-- A decimal of `k` digits. On a `u64`, which is below 10 ^ 20, `zero_padded 20` is `{:020}`.
unfoldable pub zero_padded : ℕ → ℕ → Bytes
zero_padded zero n = []
zero_padded (suc k) n = (48 + n / 10 ^ k) ∷ zero_padded k (n % 10 ^ k)

abbrev pub underscore : ℕ
underscore = b'_'

-- ".json"
abbrev pub suffix : Bytes
suffix = b'.' ∷ b'j' ∷ b's' ∷ b'o' ∷ b'n' ∷ []

unfoldable pub file_name_for : ℕ → Bytes → Bytes
file_name_for seq content_hash = zero_padded 20 seq ++ (underscore ∷ (content_hash ++ suffix))

unfoldable pub file_name : PendingMarker → Bytes
file_name m = file_name_for m.seq m.content_hash

abbrev pub cons_to : ℕ → Option Bytes → Option Bytes
cons_to x none = none
cons_to x (some s) = some (x ∷ s)

-- `str::strip_suffix`
unfoldable pub strip_suffix : Bytes → Bytes → Option Bytes
strip_suffix suf [] = if [] == suf then some [] else none
strip_suffix suf (x ∷ s) = if (x ∷ s) == suf then some [] else cons_to x (strip_suffix suf s)

abbrev pub cons_left : ℕ → Option (Bytes × Bytes) → Option (Bytes × Bytes)
cons_left x none = none
cons_left x (some (a, b)) = some (x ∷ a, b)

-- `str::split_once`, at the first such byte.
unfoldable pub split_once : ℕ → Bytes → Option (Bytes × Bytes)
split_once c [] = none
split_once c (x ∷ s) = if x == c then some ([], s) else cons_left x (split_once c s)

unfoldable pub is_digit : ℕ → Bool
is_digit c = leb b'0' c && leb c b'9'

unfoldable pub is_hex_digit : ℕ → Bool
unfolding is_digit
is_hex_digit c = is_digit c || (leb b'a' c && leb c b'f') || (leb b'A' c && leb c b'F')

unfoldable pub all_hex : Bytes → Bool
all_hex [] = true
all_hex (c ∷ s) = is_hex_digit c && all_hex s

-- `str::parse::<u64>`: an optional plus sign, then one or more digits, with overflow refused.
unfoldable pub parse_digits : ℕ → Bytes → Option ℕ
parse_digits acc [] = some acc
parse_digits acc (c ∷ s) =
    let n = acc * 10 + (c - b'0') in if is_digit c && ltb n (2 ^ 64) then parse_digits n s else none

unfoldable pub parse_u64 : Bytes → Option ℕ
parse_u64 [] = none
parse_u64 (c ∷ []) = if is_digit c then some (c - b'0') else none
parse_u64 (c ∷ d ∷ s) = if c == b'+' then parse_digits 0 (d ∷ s) else parse_digits 0 (c ∷ d ∷ s)

abbrev pub with_hash : Bytes → Option ℕ → Option (ℕ × Bytes)
with_hash hash none = none
with_hash hash (some seq) = some (seq, hash)

abbrev pub parse_parts : Option (Bytes × Bytes) → Option (ℕ × Bytes)
parse_parts none = none
parse_parts (some (seq, hash)) =
    if length hash == 64 && all_hex hash then with_hash hash (parse_u64 seq) else none

abbrev pub parse_stem : Option Bytes → Option (ℕ × Bytes)
parse_stem none = none
parse_stem (some stem) = parse_parts (split_once underscore stem)

unfoldable pub parse_file_name : Bytes → Option (ℕ × Bytes)
parse_file_name name = parse_stem (strip_suffix suffix name)
