-- ===== src/Store/Queue.antt =====
-- The queue directory of pending markers (crates/smartfs-store/src/pending.rs): which names `list`
-- returns and in which order. A directory is a map from names to contents.
pub mod Fifo
use smartfs.Base.{
  is_some, Bool, true, false, Option, none, some, List, [], ◌∷◌, Bytes, Map, bytes_ltb,
  if◌then◌else◌,
}
use smartfs.Schema.Marker.{parse_file_name}

-- The names of the directory that parse as those of markers, in the order of `readdir`.
unfoldable pub queued {ℓ} : {V : Type ℓ} → Map Bytes V → List Bytes
queued [] = []
queued ((name, v) ∷ d) =
    let rest = queued d in if is_some (parse_file_name name) then name ∷ rest else rest

unfoldable pub insert_name : Bytes → List Bytes → List Bytes
insert_name x [] = x ∷ []
insert_name x (y ∷ l) = let rest = insert_name x l in if bytes_ltb y x then y ∷ rest else x ∷ y ∷ l

-- `sort_unstable`, whose result on texts does not depend on the algorithm.
unfoldable pub sort_names : List Bytes → List Bytes
sort_names [] = []
sort_names (x ∷ l) = insert_name x (sort_names l)

unfoldable pub list {ℓ} : {V : Type ℓ} → Map Bytes V → List Bytes
list d = sort_names (queued d)
