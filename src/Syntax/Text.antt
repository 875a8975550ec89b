-- ===== src/Syntax/Text.antt =====
-- Lines, prefixes and runs of characters: what the extraction uses of Rust's `str`
-- (crates/smartfs-fuse/src/syntax.rs).
use smartfs.Base.{
  ℕ, Bool, true, false, Option, none, some, List, [], ◌∷◌, ◌++◌, Bytes, nat_eq, ◌==◌, if◌then◌else◌,
}
use mathlib.Core.List.{reverse}
use smartfs.Syntax.{newline}

-- A line without the carriage return at its end; the line is given backwards.
abbrev pub finished_line : Bytes → Bytes
finished_line [] = []
finished_line (c ∷ s) = reverse (if c == 13 then s else c ∷ s)

abbrev pub last_line : Bytes → List Bytes
last_line [] = []
last_line (c ∷ s) = reverse (c ∷ s) ∷ []

-- `lines()`, with the characters of the line so far, backwards.
unfoldable pub lines_from : Bytes → Bytes → List Bytes
lines_from line [] = last_line line
lines_from line (c ∷ s) = elim (c == newline) [
  | true ↦ finished_line line ∷ lines_from [] s
  | false ↦ lines_from (c ∷ line) s
]

abbrev pub lines : Bytes → List Bytes
lines code = lines_from [] code

-- `join("\n")`
unfoldable pub join_lines : List Bytes → Bytes
join_lines [] = []
join_lines (line ∷ []) = line
join_lines (line ∷ next ∷ rest) = line ++ (newline ∷ join_lines (next ∷ rest))

unfoldable pub strip_prefix : Bytes → Bytes → Option Bytes
strip_prefix [] s = some s
strip_prefix (c ∷ prefix) [] = none
strip_prefix (c ∷ prefix) (d ∷ s) = if c == d then strip_prefix prefix s else none

-- What follows the first occurrence of a keyword.
unfoldable pub after_keyword : Bytes → Bytes → Option Bytes
unfolding strip_prefix
after_keyword keyword [] = strip_prefix keyword []
after_keyword keyword (c ∷ s) = elim (strip_prefix keyword (c ∷ s)) [
  | some rest ↦ some rest
  | none ↦ after_keyword keyword s
]

unfoldable pub take_while : (ℕ → Bool) → Bytes → Bytes
take_while p [] = []
take_while p (c ∷ s) = if p c then c ∷ take_while p s else []

unfoldable pub drop_while : (ℕ → Bool) → Bytes → Bytes
drop_while p [] = []
drop_while p (c ∷ s) = if p c then drop_while p s else c ∷ s

abbrev pub nonempty : Bytes → Option Bytes
nonempty [] = none
nonempty (c ∷ s) = some (c ∷ s)
